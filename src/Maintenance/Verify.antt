-- ===== src/Maintenance/Verify.antt =====
-- The verification of the sizes says whether they count the decisions.
use entity_resolution_servic.Prelude.{
  arith, ℕ, String, ◌≡◌, refl, sym, ap, ◌∙◌, subst, ◌↔◌, ◌⊎◌, inl, inr, Bool, Bool-cases, true,
  false, ◌||◌, none, some, List, [], ◌∷◌, ◌++◌, contains, eq_iff, ◌==◌, string_eq, if◌then◌else◌,
  all, All,
}
use entity_resolution_servic.Prelude.Int.{ℤ, pos}
use entity_resolution_servic.Dict.{Dict, lookup, put, lookup-put}
use entity_resolution_servic.Effects.{Action, ok, pure, ◌>>=◌, >>=-run}
use entity_resolution_servic.Backend.{Backend, IsBackend, IsHealthy, answer}
use entity_resolution_servic.Backend.Documents.{State}
use entity_resolution_servic.DecisionStore.Sizes.{Sizes, size_in}
use entity_resolution_servic.Maintenance.{
  keys, placed, Scripts, IsScripts, projected, same_ℤ, is_consistent, aggregate_cluster_counts,
  read_projection, verify,
}
use entity_resolution_servic.Maintenance.Backfill.{AreCounts, aggregate_cluster_counts-AreCounts}

same_ℤ_iff : (a b : ℤ) → (same_ℤ a b ≡ true) ↔ (a ≡ b)
same_ℤ_iff (ℤ.pos m) (ℤ.pos n) = ground arith
same_ℤ_iff (ℤ.negsuc m) (ℤ.negsuc n) = ground arith
same_ℤ_iff (ℤ.pos m) (ℤ.negsuc n) = ground arith
same_ℤ_iff (ℤ.negsuc m) (ℤ.pos n) = ground arith

-- A missing count is 0.
abbrev count_in : Dict ℕ → String → ℕ
count_in counts c = elim (lookup c counts) [ none ↦ 0 | some n ↦ n ]

abbrev size_of : Dict ℤ → String → ℤ
size_of projection c = elim (lookup c projection) [ none ↦ pos 0 | some z ↦ z ]

-- A dictionary with each key once, as a collection by its unique `_id` is.
abbrev pub HasDistinctKeys : {V : Type 0} → Dict V → Type 0
HasDistinctKeys [] = Unit
HasDistinctKeys ((k, v) ∷ rest) = (lookup k rest ≡ none) × HasDistinctKeys rest

lookup-projected :
    (sizes : Sizes) (acc : Dict ℤ) (c : String)
    → HasDistinctKeys sizes
    → lookup c (projected sizes acc) ≡ (
        if c == ""
        then lookup c acc
        else elim (lookup c sizes) [ none ↦ lookup c acc | some d ↦ some d.size ])
unfolding lookup
lookup-projected [] acc c h = ground arith
lookup-projected ((k, d) ∷ sizes) acc c (fresh, h) =
    let rest = lookup-projected sizes (if k == "" then acc else put k d.size acc) c h in
    ground (arith, rest, fresh, eq_iff k c, eq_iff c "", eq_iff k "", lookup-put k c d.size acc)

lookup_absent :
    {V : Type 0} (c : String) (d : Dict V) → contains c (keys d) ≡ false → lookup c d ≡ none
unfolding lookup
lookup_absent c [] h = refl
lookup_absent c ((k, v) ∷ d) h = ground (arith, h, eq_iff k c, eq_iff c k, lookup_absent c d)

lookup_right :
    (n : String → ℕ) (c : String) (d : Dict ℕ)
    → All (λ (k, x). x ≡ n k) d
    → contains c (keys d) ≡ true
    → lookup c d ≡ some (n c)
unfolding lookup
lookup_right n c [] h k = cc k
lookup_right n c ((j, v) ∷ d) (h, hs) k =
    ground (arith, h, k, eq_iff j c, eq_iff c j, lookup_right n c d hs)

contains-append :
    (c : String) (xs ys : List String) → contains c (xs ++ ys) ≡ (contains c xs || contains c ys)
contains-append c [] ys = refl
contains-append c (x ∷ xs) ys = ground (arith, contains-append c xs ys)

all_iff :
    (p : String → Bool) (xs : List String)
    → (all p xs ≡ true) ↔ ((c : String) → contains c xs ≡ true → p c ≡ true)
all_iff p [] = (λ h c k. cc k, λ h. refl)
all_iff p (x ∷ xs) = (
  λ h c k. ground (arith, h, k, eq_iff c x, (all_iff p xs).0 (ground (arith, h)) c),
  λ h. ground (
    arith,
    h x (ground (arith, eq_iff x x)),
    (all_iff p xs).1 (λ c k. h c (ground (arith, k, eq_iff c x))),
  ),
)

-- The size of each cluster with an id is the number of its decisions.
abbrev pub AreSizes : State → Type 0
AreSizes s =
    (c : String) → (c == "") ≡ false → size_in s.cluster_sizes c ≡ pos (placed s.decisions c)

module _ (s : State) (distinct : HasDistinctKeys s.cluster_sizes) (counts : Dict ℕ)
    (right : AreCounts s.decisions counts) where
  abbrev projection : Dict ℤ
  projection = projected s.cluster_sizes []

  abbrev consistent : String → Bool
  consistent = is_consistent counts projection

  unnamed_consistent : consistent "" ≡ true
  unfolding is_consistent lookup
  unnamed_consistent =
      ground (
        arith,
        lookup_absent "" counts right.named,
        lookup-projected s.cluster_sizes [] "" distinct,
      )

  count-named : (c : String) → (c == "") ≡ false → count_in counts c ≡ placed s.decisions c
  count-named c h = elim (Bool-cases (contains c (keys counts))) [
    | inl present ↦ ground (arith, lookup_right (placed s.decisions) c counts right.right present)
    | inr absent ↦ ground (arith, lookup_absent c counts absent, right.complete c h, absent)
  ]

  size-named : (c : String) → (c == "") ≡ false → size_of projection c ≡ size_in s.cluster_sizes c
  unfolding lookup
  size-named c h = ground (arith, h, lookup-projected s.cluster_sizes [] c distinct)

  is_consistent_iff :
      (c : String)
      → (c == "") ≡ false
      → (consistent c ≡ true) ↔ (size_in s.cluster_sizes c ≡ pos (placed s.decisions c))
  unfolding is_consistent
  is_consistent_iff c h = ground (
    arith,
    count-named c h,
    size-named c h,
    same_ℤ_iff (pos (count_in counts c)) (size_of projection c),
  )

  all-consistent_iff : (all consistent (keys counts ++ keys projection) ≡ true) ↔ AreSizes s
  all-consistent_iff = (
    λ h c named. elim (Bool-cases (contains c (keys counts ++ keys projection))) [
      | inl present ↦
          (is_consistent_iff c named).0
            ((all_iff consistent (keys counts ++ keys projection)).0 h c present)
      | inr absent ↦
          let (no_count, no_size) = neither c absent in
          size_unlisted c named no_size ∙ ap pos (sym (count_unlisted c named no_count))
    ],
    λ h.
        (all_iff consistent (keys counts ++ keys projection)).1
          (λ c _. by_name c h (Bool-cases (c == ""))),
  )
    where
      neither :
          (c : String)
          → contains c (keys counts ++ keys projection) ≡ false
          → (contains c (keys counts) ≡ false) × (contains c (keys projection) ≡ false)
      neither c absent =
          let e = contains-append c (keys counts) (keys projection) in
          (ground (arith, e, absent), ground (arith, e, absent))

      size_unlisted :
          (c : String)
          → (c == "") ≡ false
          → contains c (keys projection) ≡ false
          → size_in s.cluster_sizes c ≡ pos 0
      size_unlisted c named no_size =
          sym (size-named c named)
          ∙ ap (λ o. elim o [ none ↦ pos 0 | some z ↦ z ]) (lookup_absent c projection no_size)

      count_unlisted :
          (c : String)
          → (c == "") ≡ false
          → contains c (keys counts) ≡ false
          → placed s.decisions c ≡ 0
      count_unlisted c named no_count =
          sym (count-named c named)
          ∙ ap (λ o. elim o [ none ↦ 0 | some n ↦ n ]) (lookup_absent c counts no_count)

      by_name :
          (c : String) → AreSizes s → (c == "" ≡ true) ⊎ (c == "" ≡ false) → consistent c ≡ true
      by_name c h (inl empty) =
          subst (λ x. consistent x ≡ true) (sym ((eq_iff c "").0 empty)) unnamed_consistent
      by_name c h (inr named) = (is_consistent_iff c named).1 (h c named)

module _ (b : Backend) (healthy : IsHealthy b) (q : Scripts b) (documented : IsScripts b q)
    (laws : IsBackend b) where
  open b use {World, state}

  -- While no command on MongoDB fails, the verification leaves the store as it was, and it answers that
  -- the sizes are consistent exactly if the size of each cluster with a non-empty id is the number of its
  -- decisions.
  pub verify-AreSizes :
      (w : World)
      → HasDistinctKeys (state w).cluster_sizes
      → (answer : Bool) × ((v : World) × ((verify b q w ≡ (ok answer, v))
            × ((state v ≡ state w) × ((answer ≡ true) ↔ AreSizes (state w)))))
  unfolding verify read_projection
  verify-AreSizes w distinct =
      let (counts, (u, (e, (s, right)))) =
        aggregate_cluster_counts-AreCounts b laws healthy q documented w in
      let sizes = (state w).cluster_sizes in
      let v = (q.find_sizes u).1 in
      let compare : Dict ℕ → Dict ℤ → Action World Bool =
        λ x p. pure (all (is_consistent x p) (keys x ++ keys p)) in
      let read =
        documented.find_reply u
        ∙ ap (λ f. answer f (state u).cluster_sizes) (healthy.no_fault u)
        ∙ ap (λ x. ok x.cluster_sizes) s in
      (
        all (is_consistent counts (projected sizes [])) (keys counts ++ keys (projected sizes [])),
        (
          v,
          (
            >>=-run (aggregate_cluster_counts b q) (λ x. read_projection b q >>= compare x) w u
                  counts e
                ∙ >>=-run (read_projection b q) (compare counts) u v (projected sizes []) (
                    >>=-run q.find_sizes (λ x. pure (projected x [])) u v sizes
                      (ap (λ r. (r, v)) read)),
            (documented.find_state u ∙ s, all-consistent_iff (state w) distinct counts right),
          ),
        ),
      )
