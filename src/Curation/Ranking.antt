-- ===== src/Curation/Ranking.antt =====
-- The order and the choice of `alternatives_of`, described by confidences and by counts.
use entity_resolution_servic.Prelude.{
  arith, ℕ, suc, ◌≤◌, ◌<◌, ◌≡◌, refl, ◌∙◌, inl, inr, Bool, Bool-cases, not, ◌&&◌, ◌==◌, string_eq,
  List, [], ◌∷◌, All, All-weaken, length, if◌then◌else◌,
}
use entity_resolution_servic.Domain.{ClusterReference, Decision}
use entity_resolution_servic.Paging.{filter, insert, sort}
use entity_resolution_servic.Paging.Size.{length-sort, length-filter}
use entity_resolution_servic.Curation.Canonical.{at_least_as_confident, alternatives_of}

-- How many of the list pass the test.
abbrev pub number {ℓ} : {A : Type ℓ} → (A → Bool) → List A → ℕ
number p [] = 0
number p (x ∷ xs) = let rest = number p xs in if p x then suc rest else rest

-- None is more confident than one before it.
abbrev pub IsRanked : List ClusterReference → Type 0
IsRanked [] = Unit
IsRanked (c ∷ cs) = All (λ d. d.confidence_score ≤ c.confidence_score) cs × IsRanked cs

module _ {R : Type 0} (p : R → Bool) where
  number-insert :
      (lt : R → R → Bool) (x : R) (ys : List R) → number p (insert lt x ys) ≡ number p (x ∷ ys)
  number-insert lt x [] = refl
  number-insert lt x (y ∷ ys) = ground (arith, number-insert lt x ys)

  number-sort : (lt : R → R → Bool) (xs : List R) → number p (sort lt xs) ≡ number p xs
  number-sort lt [] = refl
  number-sort lt (x ∷ xs) = number-insert lt x (sort lt xs) ∙ ground (arith, number-sort lt xs)

  number-filter :
      (q : R → Bool) (xs : List R) → number p (filter q xs) ≡ number (λ x. p x && q x) xs
  number-filter q [] = refl
  number-filter q (x ∷ xs) = ground (arith, number-filter q xs)

insert-All :
    (P : ClusterReference → Type 0) (c : ClusterReference) (ds : List ClusterReference)
    → P c
    → All P ds
    → All P (insert at_least_as_confident c ds)
insert-All P c [] h hs = (h, tt)
insert-All P c (d ∷ ds) h (k, ks) = elim (Bool-cases (at_least_as_confident c d)) [
  | inl e ↦ rw e (h, (k, ks))
  | inr e ↦ rw e (k, insert-All P c ds h ks)
]

insert-IsRanked :
    (c : ClusterReference) (ds : List ClusterReference)
    → IsRanked ds
    → IsRanked (insert at_least_as_confident c ds)
insert-IsRanked c [] ranked = (tt, tt)
insert-IsRanked c (d ∷ ds) (below, ranked) = elim (Bool-cases (at_least_as_confident c d)) [
  | inl e ↦
      let at : d.confidence_score ≤ c.confidence_score = ground (arith, e) in
      rw e ((at, All-weaken _ _ (λ x h. omega (arith, h, at)) ds below), (below, ranked))
  | inr e ↦
      let at : c.confidence_score ≤ d.confidence_score = ground (arith, e) in
      rw e (insert-All _ c ds at below, insert-IsRanked c ds ranked)
]

sort-IsRanked : (cs : List ClusterReference) → IsRanked (sort at_least_as_confident cs)
sort-IsRanked [] = tt
sort-IsRanked (c ∷ cs) = insert-IsRanked c (sort at_least_as_confident cs) (sort-IsRanked cs)

module _ (d : Decision) where
  pub alternatives_of-IsRanked : IsRanked (alternatives_of d)
  unfolding alternatives_of
  alternatives_of-IsRanked =
      sort-IsRanked
        (filter (λ c. not (c.cluster_id == d.current_placement.cluster_id)) d.candidates)

  -- The alternatives are the candidates in other clusters than the current one.
  pub number-alternatives_of :
      (p : ClusterReference → Bool)
      → number p (alternatives_of d)
        ≡ number (λ c. p c && not (c.cluster_id == d.current_placement.cluster_id)) d.candidates
  unfolding alternatives_of
  number-alternatives_of p =
      let other : ClusterReference → Bool =
        λ c. not (c.cluster_id == d.current_placement.cluster_id) in
      number-sort p at_least_as_confident (filter other d.candidates)
      ∙ number-filter p other d.candidates

  pub length-alternatives_of : (n : ℕ) → length d.candidates < n → length (alternatives_of d) < n
  unfolding alternatives_of
  length-alternatives_of n h =
      let other : ClusterReference → Bool =
        λ c. not (c.cluster_id == d.current_placement.cluster_id) in
      omega (
        arith,
        h,
        length-sort at_least_as_confident (filter other d.candidates),
        length-filter other d.candidates,
      )
