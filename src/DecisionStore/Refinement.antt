-- ===== src/DecisionStore/Refinement.antt =====
-- `store_decision` without a cluster size index, against `Spec`.
use entity_resolution_servic.Prelude.{
  ℕ, String, ◌≡◌, none, some, List, take, arith, Option-cases, inl, inr,
}
use entity_resolution_servic.Dict.{lookup}
use entity_resolution_servic.Domain.{EntityMentionIdentifier, ClusterReference}
use entity_resolution_servic.Backend.{Backend, IsBackend, IsHealthy}
use entity_resolution_servic.Backend.Documents.{DecisionDocument}
use entity_resolution_servic.DecisionStore.Outcome.{derive_provisional_cluster_id, from_document}
use entity_resolution_servic.DecisionStore.Service.{store_decision}
use entity_resolution_servic.DecisionStore.Spec.{upserted, stored}
use entity_resolution_servic.DecisionStore.Upsert.{
  Leaves, find_healthy, upsert_decision-upserted, upsert_hinted,
}

module _ (b : Backend) (laws : IsBackend b) (healthy : IsHealthy b) (max_candidates : ℕ) where
  open b use {World, state}

  module _ (identifier : EntityMentionIdentifier) (current : ClusterReference)
      (candidates : List ClusterReference) (t : ℕ) (w : World) where
    abbrev key : String
    key = derive_provisional_cluster_id b identifier

    abbrev after : World
    after = (b.find_decision key w).1

    store_absent :
        lookup key (state w).decisions ≡ none
        → Leaves b
            (store_decision b none max_candidates identifier current candidates t w)
            w
            (stored key identifier current (take max_candidates candidates) t (state w).decisions)
    unfolding store_decision stored upserted
    store_absent h = ground (
      arith,
      find_healthy b laws healthy key w,
      laws.find_state key w,
      upsert_decision-upserted b laws healthy identifier current (take max_candidates candidates) t
          after,
    )

    store_present :
        {d : DecisionDocument}
        → lookup key (state w).decisions ≡ some d
        → Leaves b
            (store_decision b none max_candidates identifier current candidates t w)
            w
            (stored key identifier current (take max_candidates candidates) t (state w).decisions)
    unfolding store_decision stored upserted
    store_present {d} h = ground (
      arith,
      find_healthy b laws healthy key w,
      laws.find_state key w,
      upsert_hinted b laws healthy identifier current (take max_candidates candidates) t after
          {d = d} (from_document key d) (rw (laws.find_state key w) h),
    )

    -- Without a cluster size index, storing a decision answers and writes as the specification of
    -- the store says, on every branch: insert, update, unchanged outcome, stale outcome.
    pub store_decision-stored :
        Leaves b
          (store_decision b none max_candidates identifier current candidates t w)
          w
          (stored key identifier current (take max_candidates candidates) t (state w).decisions)
    store_decision-stored = elim (Option-cases (lookup key (state w).decisions)) [
      | inl absent ↦ store_absent absent
      | inr (d, present) ↦ store_present present
    ]
