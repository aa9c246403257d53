-- ===== src/DecisionStore/PageLimits.antt =====
-- How much a page of decisions holds, and where the traversal of the whole store stops.
use entity_resolution_servic.Prelude.{
  arith, ℕ, zero, suc, ltb, min, String, ◌≡◌, ◌≤◌, refl, ap, Bool, true, Bool-cases, Option-cases,
  ◌⊎◌, inl, inr, Option, none, some, List, [], ◌∷◌, map, take, length, length-take, All,
}
use entity_resolution_servic.Domain.{Decision}
use entity_resolution_servic.Effects.{ok, Action, pure, ◌>>=◌}
use entity_resolution_servic.Effects.Answers.{Answers, Answers->>=}
use entity_resolution_servic.Backend.{Backend, IsBackend, IsHealthy}
use entity_resolution_servic.Backend.Queries.{
  Condition, everything, Row, Queries, IsQueries, Engine, holds, row_before,
}
use entity_resolution_servic.Backend.Order.{row_before_irreflexive, row_before_transitive}
use entity_resolution_servic.Cursor.{SortField, SortValue, updated, Codec, IsCodec}
use entity_resolution_servic.DecisionStore.Queries.{
  CursorPage, CursorParams, to_decision, lifted, apply_cursor_condition, fetch_page, paginate,
  sort_value_of, find_sorted, find_delta_for_source, delta_query, find_with_filters,
  query_decisions_delta, query_decisions_paginated, effective_size, build_cursor_condition,
}
use entity_resolution_servic.DecisionStore.Pages.{
  cursor_of, rendered, docs, page_after, place, find_sorted-page,
}
use entity_resolution_servic.DecisionStore.Seek.{after}
use entity_resolution_servic.Paging.{page_of, filter, sort}
use entity_resolution_servic.Paging.Order.{All-sort}
use entity_resolution_servic.Paging.Size.{All-filter_passing}

length-map : {A B : Type 0} (f : A → B) (xs : List A) → length (map f xs) ≡ length xs
length-map f [] = refl
length-map f (x ∷ xs) = ap suc (length-map f xs)

-- At most so many decisions, and exactly so many if there is a next page.
abbrev pub IsWithin : ℕ → CursorPage → Type 0
IsWithin limit p =
    (length p.results ≤ limit) × ((p.next_cursor ≡ none) ⊎ (length p.results ≡ limit))

-- The number of decisions asked for.
abbrev pub requested : ℕ → Option ℕ → ℕ
requested default_size none = default_size
requested default_size (some n) = n

module _ (b : Backend) (q : Queries b) (codec : Codec) where
  paginate-IsWithin :
      (limit : ℕ) (sort_value : List Row → Decision → SortValue) (count : ℕ) (rows : List Row)
      → IsWithin limit (paginate b q codec limit sort_value count rows)
  unfolding paginate
  paginate-IsWithin limit sort_value count rows = elim (Bool-cases (ltb limit (length rows))) [
    | inl e ↦ rw e (
        let size : length (map to_decision (take limit rows)) ≡ limit =
          ground (arith, e, length-map to_decision (take limit rows), length-take limit rows) in
        (omega (arith, size), inr size))
    | inr e ↦ rw e (ground (arith, e, length-map to_decision rows), inl refl)
  ]

  find_sorted-IsWithin :
      (query : Condition) (field : SortField) (ascending : Bool) (count : ℕ) (params : CursorParams)
      (w : b.World)
      → Answers
          (λ p v. IsWithin params.limit p)
          (find_sorted b q codec query field ascending count params w)
  unfolding find_sorted
  find_sorted-IsWithin query field ascending count params w =
      let render : List Row → Action b.World CursorPage =
        λ rows. pure (paginate b q codec params.limit (sort_value_of b q codec field) count rows) in
      Answers->>= (λ p v. IsWithin params.limit p)
        (lifted (apply_cursor_condition b q codec query params.cursor field ascending))
        (λ found.
          fetch_page b q codec found.0 found.1 field ascending (suc params.limit) >>= render)
        w
        (λ found u ran.
          Answers->>= (λ p v. IsWithin params.limit p)
            (fetch_page b q codec found.0 found.1 field ascending (suc params.limit)) render u
            (λ rows v fetched.
              paginate-IsWithin params.limit (sort_value_of b q codec field) count rows))

  -- Whatever the store answers, a page of either query of the service holds at most
  -- `max_size` decisions and at most as many as were asked for, or as the default size if no size was
  -- asked for; and a page with a next cursor holds exactly the smaller of the two.
  pub query_decisions-IsWithin :
      (default_size max_size : ℕ) (page_size : Option ℕ) (source_id : String) (since : Option ℕ)
      (cursor : Option String) (w : b.World)
      → Answers
          (λ p v. IsWithin (min (requested default_size page_size) max_size) p)
          (query_decisions_paginated b q codec default_size max_size cursor page_size w)
        × Answers
            (λ p v. IsWithin (min (requested default_size page_size) max_size) p)
            (query_decisions_delta b q codec default_size max_size source_id since cursor page_size
              w)
  unfolding query_decisions_paginated query_decisions_delta find_with_filters find_delta_for_source
  query_decisions-IsWithin default_size max_size none source_id since cursor w = (
    find_sorted-IsWithin everything updated true 0 _ w,
    find_sorted-IsWithin (delta_query source_id since) updated true 0 _ w,
  )
  query_decisions-IsWithin default_size max_size (some n) source_id since cursor w = (
    find_sorted-IsWithin everything updated true 0 _ w,
    find_sorted-IsWithin (delta_query source_id since) updated true 0 _ w,
  )

module _ {R : Type 0} (P : R → Type 0) where
  All-take : (n : ℕ) (rs : List R) → All P rs → All P (take n rs)
  All-take zero rs h = tt
  All-take (suc n) [] h = tt
  All-take (suc n) (r ∷ rs) (h, hs) = (h, All-take n rs hs)

  All-page_of : (n : ℕ) (rs : List R) → All P rs → All P (page_of n rs).results
  All-page_of n rs h = elim (Bool-cases (ltb n (length rs))) [
    | inl e ↦ rw e (All-take n rs h)
    | inr e ↦ rw e h
  ]

-- A decision that has not moved.
abbrev pub IsUnmoved : Decision → Type 0
IsUnmoved d = d.updated_at ≡ none

All-to_decision :
    (rs : List Row)
    → All (λ r. r.document.updated_at ≡ none) rs
    → All IsUnmoved (map to_decision rs)
All-to_decision [] h = tt
All-to_decision (r ∷ rs) (h, hs) = (h, All-to_decision rs hs)

after-IsUnmoved :
    (e : Engine) (r s : Row)
    → e.brackets ≡ true
    → r.document.updated_at ≡ none
    → after e updated true (place updated (some r)) s ≡ true
    → s.document.updated_at ≡ none
unfolding after build_cursor_condition holds
after-IsUnmoved e r s brackets unmoved h = elim (Option-cases s.document.updated_at) [
  | inl none_yet ↦ none_yet
  | inr (t, moved) ↦ absurd (ground (arith, brackets, unmoved, h, moved))
]

-- If the engine's `$gt` only matches values of the type of its operand, as MongoDB documents, the
-- page that follows a decision without an update holds only decisions without one: the ascending
-- traversal of the whole store never reaches a decision that has moved, once a page has ended
-- on one that has not.
pub query_decisions_paginated-IsUnmoved :
    (b : Backend)
    → IsBackend b
    → IsHealthy b
    → (q : Queries b) → IsQueries b q
    → (codec : Codec) → IsCodec codec
    → (default_size max_size : ℕ) (page_size : Option ℕ) (r : Row) (w : b.World)
    → q.engine.brackets ≡ true
    → r.document.updated_at ≡ none
    → (p : CursorPage) × (v : b.World) × (query_decisions_paginated b q codec default_size max_size
          (cursor_of codec updated (some r))
          page_size
          w
        ≡ (ok p, v))
      × All IsUnmoved p.results
unfolding query_decisions_paginated find_with_filters
query_decisions_paginated-IsUnmoved b laws healthy q queries codec codec_laws default_size max_size
      page_size r w brackets unmoved =
    let limit = effective_size b q codec default_size max_size page_size in
    let rows = docs q everything (b.state w) in
    let lt = row_before q.engine true updated in
    let irr = row_before_irreflexive q.engine true updated in
    let trans = row_before_transitive q.engine true updated in
    let P : Row → Type 0 = λ s. s.document.updated_at ≡ none in
    let beyond = filter (after q.engine updated true (place updated (some r))) rows in
    let (v, run, kept) =
      find_sorted-page b laws healthy q queries codec codec_laws everything updated true (λ h. cc h)
        limit 0 (some r) w in
    (
      rendered codec updated 0 (page_after q.engine updated true limit rows (some r)),
      v,
      run,
      All-to_decision (page_of limit (take (suc limit) (sort lt beyond))).results (
          All-page_of P limit (take (suc limit) (sort lt beyond)) (
            All-take P (suc limit) (sort lt beyond) (
              All-sort lt irr trans P beyond (
                All-filter_passing (after q.engine updated true (place updated (some r))) P
                  (λ s h. after-IsUnmoved q.engine r s brackets unmoved h) rows)))),
    )
