-- ===== src/Backend/Order.antt =====
-- The order of a listing is a strict order, and the condition that a cursor becomes selects the rows
-- that follow the cursor's row in it.
use entity_resolution_servic.Prelude.{
  arith, ℕ, ltb, ◌≡◌, ◌≢◌, Bool, true, false, Bool-cases, ◌⊎◌, inl, inr, List, [], ◌∷◌, All,
  if◌then◌else◌,
}
use entity_resolution_servic.Cursor.{SortField}
use entity_resolution_servic.Backend.Queries.{Row, Engine, kind, amount, row_before, field_value}
use entity_resolution_servic.Paging.{filter}
use entity_resolution_servic.Paging.Order.{IsComparable, All-map, All-filter}

abbrev before : ℕ → ℕ → ℕ → ℕ → ℕ → ℕ → Bool
before k a n k' a' n' =
    let less = if ltb k k' then true else if ltb k' k then false else ltb a a' in
    let more = if ltb k' k then true else if ltb k k' then false else ltb a' a in
    if less then true else if more then false else ltb n n'

before_irreflexive : (k a n : ℕ) → before k a n k a n ≡ false
before_irreflexive k a n = ground arith

before_transitive :
    (k a n k' a' n' k'' a'' n'' : ℕ)
    → before k a n k' a' n' ≡ true
    → before k' a' n' k'' a'' n'' ≡ true
    → before k a n k'' a'' n'' ≡ true
before_transitive k a n k' a' n' k'' a'' n'' h h' = ground (arith, h, h')

before_total :
    (k a n k' a' n' : ℕ) → n ≢ n' → (before k a n k' a' n' ≡ true) ⊎ (before k' a' n' k a n ≡ true)
before_total k a n k' a' n' h = ground (arith, h)

module _ (e : Engine) where
  pub row_before_irreflexive :
      (ascending : Bool) (field : SortField) (r : Row) → row_before e ascending field r r ≡ false
  row_before_irreflexive true field r =
      before_irreflexive (kind (field_value field r)) (amount (field_value field r)) (e.rank r.id)
  row_before_irreflexive false field r =
      before_irreflexive (kind (field_value field r)) (amount (field_value field r)) (e.rank r.id)

  pub row_before_transitive :
      (ascending : Bool) (field : SortField) (r s t : Row)
      → row_before e ascending field r s ≡ true
      → row_before e ascending field s t ≡ true
      → row_before e ascending field r t ≡ true
  row_before_transitive true field r s t h h' =
      let v = field_value field in
      before_transitive (kind (v r)) (amount (v r)) (e.rank r.id) (kind (v s)) (amount (v s))
        (e.rank s.id) (kind (v t)) (amount (v t)) (e.rank t.id) h h'
  row_before_transitive false field r s t h h' =
      let v = field_value field in
      before_transitive (kind (v t)) (amount (v t)) (e.rank t.id) (kind (v s)) (amount (v s))
        (e.rank s.id) (kind (v r)) (amount (v r)) (e.rank r.id) h' h

  row_before_total :
      (ascending : Bool) (field : SortField) (r s : Row)
      → e.rank r.id ≢ e.rank s.id
      → (row_before e ascending field r s ≡ true) ⊎ (row_before e ascending field s r ≡ true)
  row_before_total true field r s h =
      let v = field_value field in
      before_total (kind (v r)) (amount (v r)) (e.rank r.id) (kind (v s)) (amount (v s))
        (e.rank s.id) h
  row_before_total false field r s h =
      let v = field_value field in
      before_total (kind (v s)) (amount (v s)) (e.rank s.id) (kind (v r)) (amount (v r))
        (e.rank r.id) (λ q. h (ground (arith, q)))

  -- No two rows have ids of one place.
  abbrev pub HasDistinctIds : List Row → Type 0
  HasDistinctIds [] = Unit
  HasDistinctIds (r ∷ rs) = All (λ s. e.rank r.id ≢ e.rank s.id) rs × HasDistinctIds rs

  pub rows-IsComparable :
      (ascending : Bool) (field : SortField) (rs : List Row)
      → HasDistinctIds rs
      → IsComparable
          (row_before e ascending field)
          (row_before_irreflexive ascending field)
          (row_before_transitive ascending field)
          rs
  rows-IsComparable ascending field [] h = tt
  rows-IsComparable ascending field (r ∷ rs) (h, hs) = (
    All-map _ _ (λ s. row_before_total ascending field r s) rs h,
    rows-IsComparable ascending field rs hs,
  )

  pub filter-HasDistinctIds :
      (p : Row → Bool) (rs : List Row) → HasDistinctIds rs → HasDistinctIds (filter p rs)
  filter-HasDistinctIds p [] h = tt
  filter-HasDistinctIds p (r ∷ rs) (h, hs) = elim (Bool-cases (p r)) [
    | inl q ↦ rw q (All-filter _ p rs h, filter-HasDistinctIds p rs hs)
    | inr q ↦ rw q (filter-HasDistinctIds p rs hs)
  ]
