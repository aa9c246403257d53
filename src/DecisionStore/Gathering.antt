-- ===== src/DecisionStore/Gathering.antt =====
-- What a client gathers that follows the cursors of a listing.
use mathlib.Core.List.{append-nil, map-append}
use entity_resolution_servic.Prelude.{
  ℕ, zero, suc, String, ◌≡◌, ◌<◌, refl, sym, ap, subst, ◌∙◌, Bool, Option, none, some, List, [],
  ◌++◌, map, length, All,
}
use entity_resolution_servic.Domain.{Decision}
use entity_resolution_servic.Effects.{ok, Action, pure, ◌>>=◌, >>=-ok}
use entity_resolution_servic.Backend.{Backend, answer}
use entity_resolution_servic.Backend.Documents.{State}
use entity_resolution_servic.Backend.Queries.{Condition, Row, Queries, holds, rows_of, row_before}
use entity_resolution_servic.Backend.Order.{
  HasDistinctIds, rows-IsComparable, row_before_irreflexive, row_before_transitive,
  filter-HasDistinctIds,
}
use entity_resolution_servic.Cursor.{SortField, Codec}
use entity_resolution_servic.DecisionStore.Queries.{CursorPage, to_decision}
use entity_resolution_servic.DecisionStore.Pages.{
  read_on, read_all, cursor_of, rendered, place, docs, page_after, Serves, Leaves, Collects,
}
use entity_resolution_servic.DecisionStore.Seek.{after, after-row_before, place_of, IsSortable}
use entity_resolution_servic.Paging.{Page, sort}
use entity_resolution_servic.Paging.Walk.{walk, walk_from, walk-sort}

module _ (b : Backend) (q : Queries b) (codec : Codec) (query : Condition) (field : SortField)
    (ascending : Bool) (limit : ℕ) where
  gathered : ℕ → List Row → Option Row → Option (List Row)
  gathered n rows o =
      walk (row_before q.engine ascending field) (row_before_irreflexive q.engine ascending field)
        (row_before_transitive q.engine ascending field) (place_of field)
        (after q.engine field ascending) limit n rows (place field o)

  module _ (s : State) (Done : b.World → Type 0) where
    abbrev gathered_from : Page Row → (Row → Option (List Row)) → Option (List Row)
    gathered_from p rest =
        walk_from (row_before q.engine ascending field)
          (row_before_irreflexive q.engine ascending field)
          (row_before_transitive q.engine ascending field) (place_of field)
          (after q.engine field ascending) limit p rest

    prepended :
        (results : List Row) (x : Row) (more : Action b.World (List Decision))
        (rest : Option (List Row)) (v : b.World)
        → Collects b Done rest (more v)
        → Collects b Done
            (gathered_from (record { results = results; next = some x }) (λ y. rest))
            ((more >>= λ found. pure (map to_decision results ++ found)) v)
    prepended results x more none v ih = tt
    prepended results x more (some rows) v (answer, done) =
        let run =
          >>=-ok more
            (λ (found : List Decision). pure {W = b.World} (map to_decision results ++ found)) v
            (map to_decision rows) answer in
        (
          ap (λ r. r.0) run ∙ ap ok (sym (map-append to_decision results rows)),
          subst (λ r. Done r.1) (sym run) done,
        )

    continue :
        (results : List Row) (next : Option Row)
        (more : Option String → Action b.World (List Decision)) (rest : Row → Option (List Row))
        (v : b.World)
        → Leaves b s Done next v
        → ((x : Row)
            → b.state v ≡ s
            → Collects b Done (rest x) (more (cursor_of codec field (some x)) v))
        → Collects b Done (gathered_from (record { results = results; next = next }) rest) (
            (elim (cursor_of codec field next) [ none ↦ pure [] | some c ↦ more (some c) ]
                >>= λ found. pure (map to_decision results ++ found))
              v)
    continue results none more rest v done ih =
        (rw (append-nil (map to_decision results)) refl, done)
    continue results (some x) more rest v same ih =
        prepended results x (more (cursor_of codec field (some x))) (rest x) v (ih x same)

    read_all-gathered :
        (fetch : Option String → Action b.World CursorPage)
        → Serves b q codec query field ascending limit s Done fetch
        → (n : ℕ) (o : Option Row) (w : b.World) → b.state w ≡ s
        → Collects b Done
            (gathered n (docs q query s) o)
            (read_all n fetch (cursor_of codec field o) w)
    unfolding gathered read_all
    read_all-gathered fetch serves zero o w same = tt
    read_all-gathered fetch serves (suc n) o w same =
        let p = page_after q.engine field ascending limit (docs q query s) o in
        let (c, v, page_run, leaves) = serves o w same in
        let more = read_all n fetch in
        let run =
          >>=-ok (fetch (cursor_of codec field o)) (read_on more) w (rendered codec field c p)
            (ap (λ r. r.0) page_run)
          ∙ ap (λ r. read_on more (rendered codec field c p) r.1) page_run in
        subst (Collects b Done (gathered (suc n) (docs q query s) o)) (sym run) (
          continue p.results p.next more (λ x. gathered n (docs q query s) (some x)) v leaves
            (λ x here. read_all-gathered fetch serves n (some x) v here))

    -- A client that follows the cursors of a listing of rows that all have a sort value gets every
    -- selected decision, once, in order, if it makes more requests than there are rows.
    pub read_all-sort :
        (fetch : Option String → Action b.World CursorPage)
        → Serves b q codec query field ascending limit s Done fetch
        → (n : ℕ) (w : b.World) → b.state w ≡ s
        → 0 < limit
        → All (IsSortable q.engine field) (docs q query s)
        → HasDistinctIds q.engine (rows_of s.decisions)
        → length (sort (row_before q.engine ascending field) (docs q query s)) < n
        → Collects b Done
            (some (sort (row_before q.engine ascending field) (docs q query s)))
            (read_all n fetch none w)
    unfolding gathered after
    read_all-sort fetch serves n w same positive sortable distinct enough =
        let rows = docs q query s in
        let comparable =
          rows-IsComparable q.engine ascending field rows (
            filter-HasDistinctIds q.engine (holds q.engine query) (rows_of s.decisions) distinct) in
        subst (λ found. Collects b Done found (read_all n fetch none w))
          (walk-sort (row_before q.engine ascending field)
            (row_before_irreflexive q.engine ascending field)
            (row_before_transitive q.engine ascending field) (place_of field)
            (after q.engine field ascending) limit (IsSortable q.engine field) rows positive
            (λ y. refl) (λ r t h h'. after-row_before q.engine field ascending r t h h') sortable
            comparable n enough)
          (read_all-gathered fetch serves n none w same)
