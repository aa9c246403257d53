-- ===== src/Curation/Exclusions.antt =====
-- What a rejection excludes.
use entity_resolution_servic.Prelude.{
  String, ◌≡◌, false, List, [], ◌∷◌, map, contains, arith, eq_iff, string_eq, if◌then◌else◌,
}
use entity_resolution_servic.Domain.{Decision}
use entity_resolution_servic.Curation.{deduplicated, reject_exclusion_ids}

-- No text twice.
abbrev pub IsUnique : List String → Type 0
IsUnique [] = Unit
IsUnique (x ∷ rest) = (contains x rest ≡ false) × IsUnique rest

contains-deduplicated :
    (a : String) (seen xs : List String)
    → contains a (deduplicated seen xs) ≡ (if contains a seen then false else contains a xs)
unfolding deduplicated
contains-deduplicated a seen [] = ground arith
contains-deduplicated a seen (x ∷ rest) = ground (
  arith,
  eq_iff a x,
  eq_iff x a,
  contains-deduplicated a seen rest,
  contains-deduplicated a (x ∷ seen) rest,
)

deduplicated-IsUnique : (seen xs : List String) → IsUnique (deduplicated seen xs)
unfolding deduplicated
deduplicated-IsUnique seen [] = tt
deduplicated-IsUnique seen (x ∷ rest) = ground (
  arith,
  eq_iff x x,
  deduplicated-IsUnique seen rest,
  deduplicated-IsUnique (x ∷ seen) rest,
  contains-deduplicated x (x ∷ seen) rest,
)

-- A rejection excludes exactly the cluster of the placement and the clusters of the candidates,
-- each once.
pub reject_exclusion_ids-IsUnique :
    (d : Decision)
    → IsUnique (reject_exclusion_ids d)
      × ((c : String)
          → contains c (reject_exclusion_ids d)
            ≡ contains c (d.current_placement.cluster_id ∷ map (λ r. r.cluster_id) d.candidates))
unfolding reject_exclusion_ids
reject_exclusion_ids-IsUnique d =
    let ids = d.current_placement.cluster_id ∷ map (λ r. r.cluster_id) d.candidates in
    (deduplicated-IsUnique [] ids, λ c. contains-deduplicated c [] ids)
