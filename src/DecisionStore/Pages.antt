-- ===== src/DecisionStore/Pages.antt =====
-- A client that follows the cursors of a listing, and what it gathers.
use entity_resolution_servic.Prelude.{
  arith, ℕ, zero, suc, ltb, String, ◌≡◌, ◌≢◌, refl, sym, ◌∙◌, Bool, false, Bool-cases, inl, inr,
  Option, none, some, List, [], ◌∷◌, ◌++◌, map, take, length,
}
use entity_resolution_servic.Domain.{Decision}
use entity_resolution_servic.Effects.{raise, other_error, Result, ok, Action, pure, ◌>>=◌, >>=-ok}
use entity_resolution_servic.Backend.{Backend, IsBackend, IsHealthy}
use entity_resolution_servic.Backend.Documents.{State}
use entity_resolution_servic.Backend.Queries.{
  Condition, both, Row, Queries, IsQueries, Engine, holds, rows_of, selected, row_before,
  field_value,
}
use entity_resolution_servic.Backend.Order.{row_before_irreflexive, row_before_transitive}
use entity_resolution_servic.Cursor.{
  SortField, SortValue, cluster_size, Codec, IsCodec, encode_cursor,
}
use entity_resolution_servic.DecisionStore.Queries.{
  CursorPage, CursorParams, lifted, build_cursor_condition, to_decision, find_sorted, paginate,
  sort_value_of, apply_cursor_condition, fetch_page, is_cluster_size,
}
use entity_resolution_servic.DecisionStore.Seek.{
  after, place_of, extract_sort_value-field_value, read_cursor-place_of,
}
use entity_resolution_servic.Paging.{Page, page_of, filter, last}
use entity_resolution_servic.Paging.Walk.{page, filter_keeps}

-- What a client does with a page, and with page after page until there is no cursor of a next one
-- or its requests are used up, which it takes for an error.
abbrev pub read_on :
    {W : Type 0}
    → (Option String → Action W (List Decision))
    → CursorPage
    → Action W (List Decision)
read_on more p = elim p.next_cursor [ none ↦ pure [] | some c ↦ more (some c) ] >>= λ rest.
    pure (p.results ++ rest)

unfoldable pub read_all :
    {W : Type 0}
    → ℕ
    → (Option String → Action W CursorPage)
    → Option String
    → Action W (List Decision)
read_all zero fetch cursor = raise other_error
read_all (suc n) fetch cursor = fetch cursor >>= read_on (read_all n fetch)

module _ (codec : Codec) (field : SortField) where
  abbrev pub cursor_of : Option Row → Option String
  cursor_of none = none
  cursor_of (some r) = some (encode_cursor codec (field_value field r) r.id)

  abbrev pub rendered : ℕ → Page Row → CursorPage
  rendered count p = record {
    results = map to_decision p.results;
    count = count;
    next_cursor = cursor_of p.next;
  }

abbrev pub place : SortField → Option Row → Option (SortValue × String)
place field none = none
place field (some r) = some (place_of field r)

-- The rows that a query selects, before paging.
abbrev pub docs : {b : Backend} → Queries b → Condition → State → List Row
docs q query s = filter (holds q.engine query) (rows_of s.decisions)

module _ (e : Engine) (field : SortField) (ascending : Bool) (limit : ℕ) where
  abbrev pub page_after : List Row → Option Row → Page Row
  page_after rows o =
      page (row_before e ascending field) (row_before_irreflexive e ascending field)
        (row_before_transitive e ascending field) (place_of field) (after e field ascending) limit
        rows (place field o)

-- What a fetch leaves: the state, if there is a next page, and what the last page must leave.
abbrev pub Leaves : (b : Backend) → State → (b.World → Type 0) → Option Row → b.World → Type 0
Leaves b s Done none v = Done v
Leaves b s Done (some r) v = b.state v ≡ s

-- A fetch of the page after a row's cursor.
abbrev pub Serves :
    (b : Backend)
    → Queries b
    → Codec
    → Condition
    → SortField
    → Bool
    → ℕ
    → State
    → (b.World → Type 0)
    → (Option String → Action b.World CursorPage)
    → Type 0
Serves b q codec query field ascending limit s Done fetch =
    (o : Option Row) (w : b.World)
    → b.state w ≡ s
    → (c : ℕ) × (v : b.World) × (fetch (cursor_of codec field o) w ≡ (
      ok (rendered codec field c (page_after q.engine field ascending limit (docs q query s) o)),
      v,
    ))
      × Leaves b s Done (page_after q.engine field ascending limit (docs q query s) o).next v

-- A run that returns these rows as decisions, and leaves what the last page must.
abbrev pub Collects :
    (b : Backend)
    → (b.World → Type 0)
    → Option (List Row)
    → Result (List Decision) × b.World
    → Type 0
Collects b Done none r = Unit
Collects b Done (some rows) r = (r.0 ≡ ok (map to_decision rows)) × Done r.1

-- A run that returns these rows as decisions, and writes nothing.
abbrev pub Gathers : (b : Backend) → List Row → b.World → Result (List Decision) × b.World → Type 0
Gathers b rows w r = (r.0 ≡ ok (map to_decision rows)) × (b.state r.1 ≡ b.state w)

filter_both :
    (e : Engine) (c c' : Condition) (rs : List Row)
    → filter (holds e (both c c')) rs ≡ filter (holds e c') (filter (holds e c) rs)
unfolding holds
filter_both e c c' [] = refl
filter_both e c c' (r ∷ rs) = ground (arith, filter_both e c c' rs)

is_cluster_size_no : (field : SortField) → field ≢ cluster_size → is_cluster_size field ≡ false
is_cluster_size_no SortField.confidence h = refl
is_cluster_size_no SortField.created h = refl
is_cluster_size_no SortField.updated h = refl
is_cluster_size_no cluster_size h = absurd (h refl)

module _ (b : Backend) (laws : IsBackend b) (healthy : IsHealthy b) (q : Queries b)
    (queries : IsQueries b q) (codec : Codec) (codec_laws : IsCodec codec) (query : Condition)
    (field : SortField) (ascending : Bool) (stored : field ≢ cluster_size) (limit : ℕ) where
  sort_value_of-field_value :
      (rows : List Row) (r : Row)
      → sort_value_of b q codec field rows (to_decision r) ≡ field_value field r
  unfolding sort_value_of
  sort_value_of-field_value rows r =
      rw (is_cluster_size_no field stored) (extract_sort_value-field_value field r stored)

  next-cursor_of :
      (rows : List Row) (o : Option Row)
      → elim o [
        | none ↦ none
        | some r ↦
            some (encode_cursor codec (sort_value_of b q codec field rows (to_decision r)) r.id)
      ]
        ≡ cursor_of codec field o
  next-cursor_of rows none = refl
  next-cursor_of rows (some r) = rw (sort_value_of-field_value rows r) refl

  paginate-page_of :
      (count : ℕ) (rows : List Row)
      → paginate b q codec limit (sort_value_of b q codec field) count rows
        ≡ rendered codec field count (page_of limit rows)
  unfolding paginate
  paginate-page_of count rows = elim (Bool-cases (ltb limit (length rows))) [
    | inr e ↦ rw e refl
    | inl e ↦ rw e (rw (next-cursor_of rows (last (take limit rows))) refl)
  ]

  fetch_page_find :
      (c : Condition) (w : b.World)
      → (fetch_page b q codec c none field ascending (suc limit) w).0
        ≡ ok (selected q.engine c ascending field (suc limit) (rows_of (b.state w).decisions))
  unfolding fetch_page
  fetch_page_find c w =
      rw
        (
          is_cluster_size_no field stored,
          queries.find_reply c ascending field (suc limit) w,
          healthy.no_fault w,
        )
        refl

  fetch_page_state :
      (c : Condition) (w : b.World)
      → b.state (fetch_page b q codec c none field ascending (suc limit) w).1 ≡ b.state w
  unfolding fetch_page
  fetch_page_state c w =
      rw (is_cluster_size_no field stored) (queries.find_state c ascending field (suc limit) w)

  find_sorted-run :
      (count : ℕ) (params : CursorParams) (w : b.World) (c : Condition) (cursor : Option Condition)
      (rows : List Row)
      → apply_cursor_condition b q codec query params.cursor field ascending ≡ ok (c, cursor)
      → (fetch_page b q codec c cursor field ascending (suc params.limit) w).0 ≡ ok rows
      → find_sorted b q codec query field ascending count params w ≡ (
        ok (paginate b q codec params.limit (sort_value_of b q codec field) count rows),
        (fetch_page b q codec c cursor field ascending (suc params.limit) w).1,
      )
  unfolding find_sorted
  find_sorted-run count params w c cursor rows applied fetched =
      let page_of_rows : List Row → Action b.World CursorPage = λ found.
        pure (paginate b q codec params.limit (sort_value_of b q codec field) count found) in
      >>=-ok (lifted (apply_cursor_condition b q codec query params.cursor field ascending))
        (λ x. fetch_page b q codec x.0 x.1 field ascending (suc params.limit) >>= page_of_rows) w
        (c, cursor) applied
      ∙ >>=-ok (fetch_page b q codec c cursor field ascending (suc params.limit)) page_of_rows w
          rows fetched

  query_at : Option Row → Condition
  query_at none = query
  query_at (some r) = both query (build_cursor_condition field (field_value field r) r.id ascending)

  apply_cursor_condition-query_at :
      (o : Option Row)
      → apply_cursor_condition b q codec query (cursor_of codec field o) field ascending
        ≡ ok (query_at o, none)
  unfolding apply_cursor_condition query_at
  apply_cursor_condition-query_at none = refl
  apply_cursor_condition-query_at (some r) =
      rw
        (
          apply_cursor_condition,
          read_cursor-place_of codec codec_laws field r,
          is_cluster_size_no field stored,
        )
        refl

  filter-query_at :
      (o : Option Row) (rows : List Row)
      → filter (holds q.engine (query_at o)) rows
        ≡ filter
            (after q.engine field ascending (place field o))
            (filter (holds q.engine query) rows)
  unfolding query_at after
  filter-query_at none rows = sym (filter_keeps _ (λ r. refl) (filter (holds q.engine query) rows))
  filter-query_at (some r) rows = filter_both q.engine query _ rows

  rows-page_after :
      (o : Option Row) (w : b.World)
      → page_of limit (
          selected q.engine
            (query_at o)
            ascending
            field
            (suc limit)
            (rows_of (b.state w).decisions))
        ≡ page_after q.engine field ascending limit (docs q query (b.state w)) o
  rows-page_after o w = rw (filter-query_at o (rows_of (b.state w).decisions)) refl

  find_sorted-page_after :
      (count : ℕ) (o : Option Row) (w : b.World)
      → find_sorted b q codec query field ascending count
          (record { cursor = cursor_of codec field o; limit = limit })
          w
        ≡ (
          ok (
              rendered codec field count
                (page_after q.engine field ascending limit (docs q query (b.state w)) o)),
          (fetch_page b q codec (query_at o) none field ascending (suc limit) w).1,
        )
  find_sorted-page_after count o w =
      let rows =
        selected q.engine (query_at o) ascending field (suc limit)
          (rows_of (b.state w).decisions) in
      find_sorted-run count (record { cursor = cursor_of codec field o; limit = limit }) w
        (query_at o) none rows (apply_cursor_condition-query_at o) (fetch_page_find (query_at o) w)
      ∙ rw (paginate-page_of count rows, rows-page_after o w) refl

  -- What one fetch of a listing returns and leaves.
  pub find_sorted-page :
      (count : ℕ) (o : Option Row) (w : b.World)
      → (v : b.World) × (find_sorted b q codec query field ascending count
            (record { cursor = cursor_of codec field o; limit = limit })
            w
          ≡ (
            ok (
                rendered codec field count
                  (page_after q.engine field ascending limit (docs q query (b.state w)) o)),
            v,
          ))
        × (b.state v ≡ b.state w)
  find_sorted-page count o w = (
    (fetch_page b q codec (query_at o) none field ascending (suc limit) w).1,
    find_sorted-page_after count o w,
    fetch_page_state (query_at o) w,
  )
