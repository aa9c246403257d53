-- ===== src/DecisionStore/Upsert.antt =====
-- `upsert_decision` does what `Spec` promises.
use entity_resolution_servic.Prelude.{
  ℕ, String, ◌≡◌, Bool, true, false, none, some, List, arith, Option-cases, inl, inr,
}
use entity_resolution_servic.Dict.{lookup}
use entity_resolution_servic.Domain.{EntityMentionIdentifier, ClusterReference, Decision}
use entity_resolution_servic.Effects.{Result, ok}
use entity_resolution_servic.Backend.{Backend, IsBackend, IsHealthy}
use entity_resolution_servic.Backend.Documents.{DecisionDocument, Filter, Update, anything}
use entity_resolution_servic.Backend.Documented.{updated}
use entity_resolution_servic.DecisionStore.Outcome.{derive_provisional_cluster_id}
use entity_resolution_servic.DecisionStore.Repository.{
  upsert_decision, build_insert_doc, build_update_doc, boundary_before,
}
use entity_resolution_servic.DecisionStore.Spec.{Contents, upserted}

module _ (b : Backend) where
  -- A run that began in the world `w` answers `r` and leaves the decisions `docs`, and nothing
  -- else changed.
  abbrev pub Leaves {ℓ} : {A : Type ℓ} → Result A × b.World → b.World → Result A × Contents → Type ℓ
  Leaves (r, v) w (r', docs) = (r ≡ r') × (b.state v ≡ record (b.state w) { decisions = docs })

module _ (b : Backend) (laws : IsBackend b) (healthy : IsHealthy b) where
  open b use {World, state}

  pub find_healthy :
      (id : String) (w : World) → (b.find_decision id w).0 ≡ ok (lookup id (state w).decisions)
  find_healthy id w = ground (arith, laws.find_reply id w, healthy.no_fault w)

  module _ (id : String) (f : Filter) (u : Update) (upsert : Bool) (w : World) where
    pub update_healthy : Leaves b (b.find_one_and_update id f u upsert w) w (
      ok (updated id f u upsert (state w).decisions).0,
      (updated id f u upsert (state w).decisions).1,
    )
    update_healthy = (
      ground (arith, laws.update_reply id f u upsert w, healthy.no_fault w),
      laws.update_state id f u upsert w (healthy.no_fault w),
    )

  module _ (identifier : EntityMentionIdentifier) (current : ClusterReference)
      (candidates : List ClusterReference) (t : ℕ) (w : World) where
    abbrev key : String
    key = derive_provisional_cluster_id b identifier

    upsert_absent :
        lookup key (state w).decisions ≡ none
        → Leaves b
            (upsert_decision b identifier current candidates t none w)
            w
            (upserted key identifier current candidates t (state w).decisions)
    unfolding upsert_decision upserted updated
    upsert_absent h =
        let w' = (b.find_decision key w).1 in
        let u = build_insert_doc identifier current candidates t in
        ground
          (arith, find_healthy key w, laws.find_state key w, update_healthy key anything u true w')

    upsert_unhinted :
        {d : DecisionDocument}
        → lookup key (state w).decisions ≡ some d
        → Leaves b
            (upsert_decision b identifier current candidates t none w)
            w
            (upserted key identifier current candidates t (state w).decisions)
    unfolding upsert_decision upserted updated
    upsert_unhinted h =
        let w' = (b.find_decision key w).1 in
        let u = build_update_doc identifier current candidates t in
        let w'' = (b.find_one_and_update key (boundary_before t) u false w').1 in
        ground (
          arith,
          find_healthy key w,
          laws.find_state key w,
          update_healthy key (boundary_before t) u false w',
          find_healthy key w'',
          laws.find_state key w'',
        )

    pub upsert_hinted :
        {d : DecisionDocument} (e : Decision)
        → lookup key (state w).decisions ≡ some d
        → Leaves b
            (upsert_decision b identifier current candidates t (some e) w)
            w
            (upserted key identifier current candidates t (state w).decisions)
    unfolding upsert_decision upserted updated
    upsert_hinted e h =
        let u = build_update_doc identifier current candidates t in
        let w' = (b.find_one_and_update key (boundary_before t) u false w).1 in
        ground (
          arith,
          update_healthy key (boundary_before t) u false w,
          find_healthy key w',
          laws.find_state key w',
        )

    -- While no command fails, the upsert of a caller without a hint answers and writes as the
    -- specification says: it inserts, moves a decision that is older, or refuses as stale.
    pub upsert_decision-upserted :
        Leaves b
          (upsert_decision b identifier current candidates t none w)
          w
          (upserted key identifier current candidates t (state w).decisions)
    upsert_decision-upserted = elim (Option-cases (lookup key (state w).decisions)) [
      | inl absent ↦ upsert_absent absent
      | inr (d, present) ↦ upsert_unhinted present
    ]
