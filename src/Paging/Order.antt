-- ===== src/Paging/Order.antt =====
-- Sorting by a strict order keeps what a filter keeps.
use entity_resolution_servic.Prelude.{
  ◌≡◌, refl, ap, ◌∙◌, ◌⊎◌, inl, inr, Bool, true, false, Bool-cases, List, [], ◌∷◌, ◌++◌, All, arith,
  if◌then◌else◌,
}
use entity_resolution_servic.Paging.{filter, insert, sort}

module _ {R : Type 0} where
  pub All-filter : (P : R → Type 0) (p : R → Bool) (xs : List R) → All P xs → All P (filter p xs)
  All-filter P p [] h = tt
  All-filter P p (x ∷ xs) (h, hs) = elim (Bool-cases (p x)) [
    | inl e ↦ rw e (h, All-filter P p xs hs)
    | inr e ↦ rw e (All-filter P p xs hs)
  ]

  pub All_middle :
      (P : R → Type 0) (xs : List R) (x : R) (rest : List R) → All P (xs ++ x ∷ rest) → P x
  All_middle P [] x rest (h, hs) = h
  All_middle P (y ∷ ys) x rest (h, hs) = All_middle P ys x rest hs

  pub All-map : (P Q : R → Type 0) → ((x : R) → P x → Q x) → (xs : List R) → All P xs → All Q xs
  All-map P Q f [] h = tt
  All-map P Q f (x ∷ xs) (h, hs) = (f x h, All-map P Q f xs hs)

module _ {R : Type 0} (lt : R → R → Bool) (irreflexive : (x : R) → lt x x ≡ false)
    (transitive : (x y z : R) → lt x y ≡ true → lt y z ≡ true → lt x z ≡ true) where
  abbrev pub IsSorted : List R → Type 0
  IsSorted [] = Unit
  IsSorted (x ∷ xs) = All (λ y. lt x y ≡ true) xs × IsSorted xs

  -- Any two rows are one before the other: the order is total on the list, and no row comes twice.
  abbrev pub IsComparable : List R → Type 0
  IsComparable [] = Unit
  IsComparable (x ∷ xs) = All (λ y. (lt x y ≡ true) ⊎ (lt y x ≡ true)) xs × IsComparable xs

  filter-IsComparable : (p : R → Bool) (xs : List R) → IsComparable xs → IsComparable (filter p xs)
  filter-IsComparable p [] h = tt
  filter-IsComparable p (x ∷ xs) (h, hs) = elim (Bool-cases (p x)) [
    | inl e ↦ rw e (All-filter _ p xs h, filter-IsComparable p xs hs)
    | inr e ↦ rw e (filter-IsComparable p xs hs)
  ]

  All-insert : (P : R → Type 0) (x : R) (ys : List R) → P x → All P ys → All P (insert lt x ys)
  All-insert P x [] h hs = (h, tt)
  All-insert P x (y ∷ ys) h (k, ks) = elim (Bool-cases (lt x y)) [
    | inl e ↦ rw e (h, (k, ks))
    | inr e ↦ rw e (k, All-insert P x ys h ks)
  ]

  pub All-sort : (P : R → Type 0) (xs : List R) → All P xs → All P (sort lt xs)
  All-sort P [] h = tt
  All-sort P (x ∷ xs) (h, hs) = All-insert P x (sort lt xs) h (All-sort P xs hs)

  insert-IsSorted :
      (x : R) (ys : List R)
      → All (λ y. (lt x y ≡ true) ⊎ (lt y x ≡ true)) ys
      → IsSorted ys
      → IsSorted (insert lt x ys)
  insert-IsSorted x [] c s = (tt, tt)
  insert-IsSorted x (y ∷ ys) (c, cs) (s, ss) = elim (Bool-cases (lt x y)) [
    | inl e ↦ rw e ((e, All-map _ _ (λ z. transitive x y z e) ys s), (s, ss))
    | inr e ↦ rw e (
      All-insert _ x ys (elim c [ inl e' ↦ cc (e, e') | inr e' ↦ e' ]) s,
      insert-IsSorted x ys cs ss,
    )
  ]

  pub sort-IsSorted : (xs : List R) → IsComparable xs → IsSorted (sort lt xs)
  sort-IsSorted [] h = tt
  sort-IsSorted (x ∷ xs) (h, hs) =
      insert-IsSorted x (sort lt xs) (All-sort _ xs h) (sort-IsSorted xs hs)

  insert_front : (x : R) (ys : List R) → All (λ y. lt x y ≡ true) ys → insert lt x ys ≡ x ∷ ys
  insert_front x [] h = refl
  insert_front x (y ∷ ys) (h, hs) = rw h

  filter-insert :
      (p : R → Bool) (x : R) (ys : List R)
      → IsSorted ys
      → filter p (insert lt x ys) ≡ (if p x then insert lt x (filter p ys) else filter p ys)
  filter-insert p x [] s = refl
  filter-insert p x (y ∷ ys) (s, ss) = elim (Bool-cases (lt x y)) [
    | inl e ↦
        let front =
          insert_front x (filter p ys)
            (All-filter _ p ys (All-map _ _ (λ z. transitive x y z e) ys s)) in
        ground (arith, e, front)
    | inr e ↦ ground (arith, e, filter-insert p x ys ss)
  ]

  pub filter-sort :
      (p : R → Bool) (xs : List R) → IsComparable xs → filter p (sort lt xs) ≡ sort lt (filter p xs)
  filter-sort p [] h = refl
  filter-sort p (x ∷ xs) (h, hs) =
      filter-insert p x (sort lt xs) (sort-IsSorted xs hs) ∙ (elim (Bool-cases (p x)) [
        | inl e ↦ rw e (ap (insert lt x) (filter-sort p xs hs))
        | inr e ↦ rw e (filter-sort p xs hs)
      ])

  asymmetric : (x y : R) → lt x y ≡ true → lt y x ≡ false
  asymmetric x y h = elim (Bool-cases (lt y x)) [
    | inl e ↦ cc (transitive x y x h e, irreflexive x)
    | inr e ↦ e
  ]

  filter-All : (p : R → Bool) (xs : List R) → All (λ x. p x ≡ true) xs → filter p xs ≡ xs
  filter-All p [] h = refl
  filter-All p (x ∷ xs) (h, hs) = rw (h, filter-All p xs hs)

  -- What comes after a row of a sorted list is the rest of the list.
  pub filter_after :
      (xs : List R) (x : R) (rest : List R)
      → IsSorted (xs ++ x ∷ rest)
      → filter (lt x) (xs ++ x ∷ rest) ≡ rest
  filter_after [] x rest (s, ss) = rw (irreflexive x) (filter-All (lt x) rest s)
  filter_after (y ∷ ys) x rest (s, ss) =
      rw (asymmetric y x (All_middle _ ys x rest s)) (filter_after ys x rest ss)
