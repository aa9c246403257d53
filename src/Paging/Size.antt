-- ===== src/Paging/Size.antt =====
-- How many rows sorting and filtering leave, and what a filter says of what it leaves.
use entity_resolution_servic.Prelude.{
  arith, ◌≡◌, ◌≤◌, suc, refl, ap, ◌∙◌, Bool, true, Bool-cases, inl, inr, List, [], ◌∷◌, length, All,
}
use entity_resolution_servic.Paging.{filter, sort, insert}

module _ {R : Type 0} where
  pub length-insert :
      (lt : R → R → Bool) (x : R) (xs : List R) → length (insert lt x xs) ≡ suc (length xs)
  length-insert lt x [] = refl
  length-insert lt x (y ∷ ys) = ground (arith, length-insert lt x ys)

  pub length-sort : (lt : R → R → Bool) (xs : List R) → length (sort lt xs) ≡ length xs
  length-sort lt [] = refl
  length-sort lt (x ∷ xs) = length-insert lt x (sort lt xs) ∙ ap suc (length-sort lt xs)

  pub length-filter : (p : R → Bool) (xs : List R) → length (filter p xs) ≤ length xs
  length-filter p [] = omega arith
  length-filter p (x ∷ xs) = ground (arith, length-filter p xs)

  pub All-filter_passing :
      (p : R → Bool) (P : R → Type 0)
      → ((x : R) → p x ≡ true → P x)
      → (xs : List R) → All P (filter p xs)
  All-filter_passing p P f [] = tt
  All-filter_passing p P f (x ∷ xs) = elim (Bool-cases (p x)) [
    | inl e ↦ rw e (f x e, All-filter_passing p P f xs)
    | inr e ↦ rw e (All-filter_passing p P f xs)
  ]
