-- ===== src/Paging/Walk.antt =====
-- A client that asks for page after page reads every row once, in order.
use mathlib.Core.List.{append_assoc}
use entity_resolution_servic.Prelude.{
  ℕ, zero, suc, ◌<◌, ◌≤◌, ltb, ◌≡◌, refl, sym, subst, ap, ◌∙◌, Bool, true, false, Bool-cases, inl,
  inr, Option, none, some, List, [], ◌∷◌, ◌++◌, All, length, take, drop, length-take, length-append,
  arith,
}
use entity_resolution_servic.Paging.{filter, last, sort, Page, page_of}
use entity_resolution_servic.Paging.Order.{
  IsComparable, IsSorted, All_middle, All-map, All-sort, sort-IsSorted, filter-sort, filter_after,
}

module _ {R : Type 0} where
  pub filter_ext :
      (p q : R → Bool) (xs : List R) → All (λ x. p x ≡ q x) xs → filter p xs ≡ filter q xs
  filter_ext p q [] h = refl
  filter_ext p q (x ∷ xs) (h, hs) = rw (h, filter_ext p q xs hs)

  pub filter_keeps : (p : R → Bool) → ((x : R) → p x ≡ true) → (xs : List R) → filter p xs ≡ xs
  filter_keeps p h [] = refl
  filter_keeps p h (x ∷ xs) = rw (h x, filter_keeps p h xs)

  take-append-drop : (n : ℕ) (xs : List R) → take n xs ++ drop n xs ≡ xs
  take-append-drop zero xs = refl
  take-append-drop (suc n) [] = refl
  take-append-drop (suc n) (x ∷ xs) = ap (◌∷◌ x) (take-append-drop n xs)

  take-take : (n : ℕ) (xs : List R) → take n (take (suc n) xs) ≡ take n xs
  take-take zero xs = refl
  take-take (suc n) [] = refl
  take-take (suc n) (x ∷ xs) = ap (◌∷◌ x) (take-take n xs)

  take_all : (n : ℕ) (xs : List R) → length xs ≤ n → take n xs ≡ xs
  take_all zero [] h = refl
  take_all zero (x ∷ xs) h = absurd (omega (arith, h))
  take_all (suc n) [] h = refl
  take_all (suc n) (x ∷ xs) h = ap (◌∷◌ x) (take_all n xs (omega (arith, h)))

  last_of :
      (y : R) (ys : List R)
      → (i : List R) × (x : R) × (last (y ∷ ys) ≡ some x) × (y ∷ ys ≡ i ++ x ∷ [])
  last_of y [] = ([], y, refl, refl)
  last_of y (z ∷ zs) = let (i, x, e, f) = last_of z zs in (y ∷ i, x, e, ap (◌∷◌ y) f)

  last_split :
      (xs : List R)
      → 0 < length xs
      → (i : List R) × (x : R) × (last xs ≡ some x) × (xs ≡ i ++ x ∷ [])
  last_split [] h = absurd (omega (arith, h))
  last_split (y ∷ ys) h = last_of y ys

  split_at :
      (pre rest front back i : List R) (x : R)
      → front ++ back ≡ rest
      → front ≡ i ++ x ∷ []
      → pre ++ rest ≡ (pre ++ i) ++ x ∷ back
  split_at pre rest front back i x whole split =
      ap (λ l. pre ++ l) (sym whole ∙ ap (λ l. l ++ back) split ∙ append_assoc i (x ∷ []) back)
      ∙ sym (append_assoc pre i (x ∷ back))

  -- A page that holds everything, and a page that does not.
  page_full :
      (n : ℕ) (rest : List R)
      → length rest ≤ n
      → page_of n (take (suc n) rest) ≡ record { results = rest; next = none }
  page_full n rest h = rw (take_all (suc n) rest (omega (arith, h))) (ground (arith, h))

  page_more :
      (n : ℕ) (rest : List R)
      → n < length rest
      → page_of n (take (suc n) rest) ≡ record { results = take n rest; next = last (take n rest) }
  page_more n rest h =
      let e = length-take (suc n) rest in
      let f : ltb n (length (take (suc n) rest)) ≡ true = ground (arith, h, e) in
      rw f (rw (take-take n rest))

module _ {R K : Type 0} (lt : R → R → Bool) (irreflexive : (x : R) → lt x x ≡ false)
    (transitive : (x y z : R) → lt x y ≡ true → lt y z ≡ true → lt x z ≡ true) (key : R → K)
    (after : Option K → R → Bool) (limit : ℕ) where
  -- The page after a place, as a server computes it.
  abbrev pub page : List R → Option K → Page R
  page docs place = page_of limit (take (suc limit) (sort lt (filter (after place) docs)))

  abbrev prepend : List R → Option (List R) → Option (List R)
  prepend xs none = none
  prepend xs (some ys) = some (xs ++ ys)

  abbrev pub walk_from : Page R → (R → Option (List R)) → Option (List R)
  walk_from p more = elim p.next [ none ↦ some p.results | some x ↦ prepend p.results (more x) ]

  -- What a client gathers who reaches the last page in so many requests.
  abbrev pub walk : ℕ → List R → Option K → Option (List R)
  walk zero docs place = none
  walk (suc n) docs place = walk_from (page docs place) (λ x. walk n docs (some (key x)))

  module _ (Fit : R → Type 0) (docs : List R) (positive : 0 < limit)
      (starts : (y : R) → after none y ≡ true)
      (seeks : (x y : R) → Fit x → Fit y → after (some (key x)) y ≡ lt x y) (fit : All Fit docs)
      (comparable : IsComparable lt irreflexive transitive docs) where
    rest_after :
        (pre : List R) (x : R) (rest : List R)
        → sort lt docs ≡ pre ++ x ∷ rest
        → sort lt (filter (after (some (key x))) docs) ≡ rest
    rest_after pre x rest e =
        let sorted : IsSorted lt irreflexive transitive (pre ++ x ∷ rest) =
          subst (IsSorted lt irreflexive transitive) e
            (sort-IsSorted lt irreflexive transitive docs comparable) in
        let fits : All Fit (pre ++ x ∷ rest) =
          subst (All Fit) e (All-sort lt irreflexive transitive Fit docs fit) in
        let fit_x : Fit x = All_middle Fit pre x rest fits in
        sym (filter-sort lt irreflexive transitive (after (some (key x))) docs comparable)
        ∙ ap (filter (after (some (key x)))) e
        ∙ filter_ext (after (some (key x))) (lt x) (pre ++ x ∷ rest)
            (All-map Fit _ (λ y h. seeks x y fit_x h) (pre ++ x ∷ rest) fits)
        ∙ filter_after lt irreflexive transitive pre x rest sorted

    -- A page that does not hold everything, with what is read after its last row.
    read_more :
        (pre rest : List R)
        → sort lt docs ≡ pre ++ rest
        → limit < length rest
        → (more : R → Option (List R))
        → ((i : List R) (x : R)
            → sort lt docs ≡ (pre ++ i) ++ x ∷ drop limit rest
            → length (drop limit rest) < length rest
            → more x ≡ some (drop limit rest))
        → walk_from (record { results = take limit rest; next = last (take limit rest) }) more
          ≡ some rest
    read_more pre rest e less more ih =
        let size : 0 < length (take limit rest) =
          omega (arith, length-take limit rest, less, positive) in
        let (i, x, is_last, split) = last_split (take limit rest) size in
        let whole = take-append-drop limit rest in
        let shorter : length (drop limit rest) < length rest =
          omega (arith, ap length whole, length-append (take limit rest) (drop limit rest), size) in
        rw is_last (
          ap (prepend (take limit rest)) (
            ih i x (e ∙ split_at pre rest (take limit rest) (drop limit rest) i x whole split)
              shorter)
          ∙ ap some whole)

    walk_rest :
        (n : ℕ) (place : Option K) (pre rest : List R)
        → sort lt docs ≡ pre ++ rest
        → sort lt (filter (after place) docs) ≡ rest
        → length rest < n
        → walk n docs place ≡ some rest
    walk_rest zero place pre rest e f h = absurd (omega (arith, h))
    walk_rest (suc n) place pre rest e f h = elim (Bool-cases (ltb limit (length rest))) [
      | inr small ↦ rw (f, page_full limit rest (ground (arith, small))) refl
      | inl large ↦
          let less : limit < length rest = ground (arith, large) in
          rw (f, page_more limit rest less)
            (read_more pre rest e less (λ c. walk n docs (some (key c)))
              (λ i x g shorter.
                walk_rest n (some (key x)) ((pre ++ i) ++ x ∷ []) (drop limit rest)
                  (g ∙ sym (append_assoc (pre ++ i) (x ∷ []) (drop limit rest)))
                  (rest_after (pre ++ i) x (drop limit rest) g) (omega (arith, shorter, h))))
    ]

    -- A client that follows the pages until there is no next one gathers the sorted rows, each
    -- once, if it makes more requests than there are rows.
    pub walk-sort : (n : ℕ) → length (sort lt docs) < n → walk n docs none ≡ some (sort lt docs)
    walk-sort n h =
        walk_rest n none [] (sort lt docs) refl
          (ap (sort lt) (filter_keeps (after none) starts docs)) h
