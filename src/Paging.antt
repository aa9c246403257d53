-- ===== src/Paging.antt =====
-- Keyset paging: rows in an order, the rows that come after a place in it, and pages of them.
pub mod Order
pub mod Walk
pub mod Size
use entity_resolution_servic.Prelude.{
  ℕ, zero, suc, ltb, Bool, Option, none, some, List, [], ◌∷◌, ◌++◌, length, take, if◌then◌else◌,
}

module _ {R : Type 0} where
  abbrev pub filter : (R → Bool) → List R → List R
  filter p [] = []
  filter p (x ∷ xs) = let rest = filter p xs in if p x then x ∷ rest else rest

  abbrev pub last : List R → Option R
  last [] = none
  last (x ∷ []) = some x
  last (x ∷ y ∷ ys) = last (y ∷ ys)

  -- Sorting by a strict order.
  module _ (lt : R → R → Bool) where
    abbrev pub insert : R → List R → List R
    insert x [] = x ∷ []
    insert x (y ∷ ys) = let rest = insert x ys in if lt x y then x ∷ y ∷ ys else y ∷ rest

    abbrev pub sort : List R → List R
    sort [] = []
    sort (x ∷ xs) = insert x (sort xs)

-- A page: the rows, and the place after which the next page starts if more rows were fetched than
-- the page holds.
pub record Page (R : Type 0) : Type 0 where
  pub results : List R
  pub next : Option R

abbrev pub page_of : {R : Type 0} → ℕ → List R → Page R
page_of limit rows =
    if ltb limit (length rows)
    then record { results = take limit rows; next = last (take limit rows) }
    else record { results = rows; next = none }
