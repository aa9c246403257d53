-- ===== src/Coordinator/Replay.antt =====
-- What `resolve_single` does for a mention that has a decision.
use entity_resolution_servic.Prelude.{ℕ, String, ◌≡◌, false, some, arith, ◌==◌, string_eq, eq_iff}
use entity_resolution_servic.Dict.{lookup}
use entity_resolution_servic.Domain.{EntityMention}
use entity_resolution_servic.Effects.{Result, ok}
use entity_resolution_servic.Backend.{Backend, IsBackend, IsHealthy}
use entity_resolution_servic.Backend.Documents.{DecisionDocument, ResolutionRequestRecord}
use entity_resolution_servic.DecisionStore.Outcome.{derive_provisional_cluster_id, from_document}
use entity_resolution_servic.DecisionStore.ClusterSizes.{mongo_cluster_size_index}
use entity_resolution_servic.DecisionStore.Service.{get_decision_by_triad}
use entity_resolution_servic.DecisionStore.Upsert.{find_healthy}
use entity_resolution_servic.Registry.{triad_id, register_resolution_request}
use entity_resolution_servic.Coordinator.{canonical, read_decision, register, resolve_single}

module _ (b : Backend) (laws : IsBackend b) (healthy : IsHealthy b) (max_candidates : ℕ)
    (mention_parser : EntityMention → Result String) (budget : ℕ) where
  open b use {World, state}

  module _ (m : EntityMention) (w : World) where
    abbrev key : String
    key = derive_provisional_cluster_id b m.identified_by

    abbrev read : World
    read = (b.requests.find_one (triad_id m.identified_by) w).1

    register_known :
        (r : ResolutionRequestRecord)
        → (m.content == "") ≡ false
        → lookup (triad_id m.identified_by) (state w).requests ≡ some r
        → r.content_hash ≡ b.sha256 m.content
        → register b (some (mongo_cluster_size_index b)) max_candidates mention_parser budget m w
          ≡ (ok tt, read)
    unfolding register register_resolution_request
    register_known r filled known same = ground (
      arith,
      filled,
      known,
      same,
      eq_iff r.content_hash (b.sha256 m.content),
      laws.requests_laws.find_reply (triad_id m.identified_by) w,
      healthy.no_fault w,
    )

    read_known :
        (d : DecisionDocument)
        → lookup key (state read).decisions ≡ some d
        → read_decision b
            (some (mongo_cluster_size_index b))
            max_candidates
            mention_parser
            budget
            m.identified_by
            read
          ≡ (ok (some (from_document key d)), (b.find_decision key read).1)
    unfolding read_decision get_decision_by_triad
    read_known d present = ground (arith, present, find_healthy b laws healthy key read)

    -- A mention that is registered with the same content and has a decision is answered with that
    -- decision as canonical, whatever the time budget; nothing is written and nothing is published.
    pub resolve_single_replay :
        (r : ResolutionRequestRecord) (d : DecisionDocument)
        → (m.content == "") ≡ false
        → lookup (triad_id m.identified_by) (state w).requests ≡ some r
        → r.content_hash ≡ b.sha256 m.content
        → lookup key (state w).decisions ≡ some d
        → let (answer, v) =
            resolve_single b
              (some (mongo_cluster_size_index b))
              max_candidates
              mention_parser
              budget
              m
              w in
          (answer ≡ ok (from_document key d, canonical)) × (state v ≡ state w)
    unfolding resolve_single
    resolve_single_replay r d filled known same present =
        let f1 = register_known r filled known same in
        let f2 : state read ≡ state w =
          laws.requests_laws.find_state (triad_id m.identified_by) w in
        let f3 = read_known d (rw f2 present) in
        let f4 = laws.find_state key read in
        (ground (arith, f1, f3), ground (arith, f1, f3, f2, f4))
