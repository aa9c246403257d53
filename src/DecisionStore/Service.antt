-- ===== src/DecisionStore/Service.antt =====
-- `DecisionStoreService` of ers/resolution_decision_store/services/decision_store_service.py: the
-- write path and the read by triad. `max_candidates` is DECISION_STORE_MAX_CANDIDATES.
use entity_resolution_servic.Prelude.{ℕ, String, Option, none, some, List, take, if◌then◌else◌}
use entity_resolution_servic.Domain.{EntityMentionIdentifier, ClusterReference, Decision}
use entity_resolution_servic.Effects.{Action, pure, ◌>>=◌, ◌>>◌}
use entity_resolution_servic.Backend.{Backend}
use entity_resolution_servic.DecisionStore.Outcome.{is_same_outcome}
use entity_resolution_servic.DecisionStore.Repository.{find_by_triad, upsert_decision}
use entity_resolution_servic.DecisionStore.ClusterSizes.{ClusterSizeIndex}

-- `existing is not None and is_same_outcome(existing, current, truncated_candidates)`
unfoldable pub unchanged :
    Option Decision → ClusterReference → List ClusterReference → Option Decision
unchanged none current candidates = none
unchanged (some d) current candidates =
    if is_same_outcome d current candidates then some d else none

abbrev pub cluster_of : Option Decision → Option String
cluster_of none = none
cluster_of (some d) = some d.current_placement.cluster_id

module _ (b : Backend) (index : Option (ClusterSizeIndex b.World)) (max_candidates : ℕ) where
  open b use {World}

  unfoldable pub maintain_index : Option Decision → ClusterReference → Action World (Unit {0})
  maintain_index existing current = elim index [
    | none ↦ pure tt
    | some i ↦ i.shift (cluster_of existing) (some current.cluster_id) 1
  ]

  unfoldable pub store_decision :
      EntityMentionIdentifier → ClusterReference → List ClusterReference → ℕ → Action World Decision
  unfolding find_by_triad unchanged maintain_index
  store_decision identifier current candidates updated_at = do
    existing ← find_by_triad b identifier
    let truncated_candidates = take max_candidates candidates
    elim (unchanged existing current truncated_candidates) [
      | some d ↦ pure d
      | none ↦ do
        decision ← upsert_decision b identifier current truncated_candidates updated_at existing
        maintain_index existing current
        pure decision
    ]

  unfoldable pub get_decision_by_triad : EntityMentionIdentifier → Action World (Option Decision)
  unfolding find_by_triad
  get_decision_by_triad identifier = find_by_triad b identifier
