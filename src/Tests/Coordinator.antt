-- ===== src/Tests/Coordinator.antt =====
-- Runs of the coordinator.
use entity_resolution_servic.Prelude.{◌≡◌, refl, some}
use entity_resolution_servic.Effects.{ok}
use entity_resolution_servic.DecisionStore.Outcome.{from_document}
use entity_resolution_servic.DecisionStore.ClusterSizes.{mongo_cluster_size_index}
use entity_resolution_servic.Coordinator.{canonical, resolve_single}
use entity_resolution_servic.Coordinator.Answers.{IsStored, resolve_single-IsStored}
use entity_resolution_servic.Coordinator.Replay.{resolve_single_replay}
use entity_resolution_servic.Tests.Memory.{memory, memory-IsBackend, memory-IsHealthy}
use entity_resolution_servic.Tests.DecisionStore.{key_a, decision_a, present_a}
use entity_resolution_servic.Tests.Registry.{
  entity_a, parse, record_a, registered_state, registered_a,
}

-- The run of the first test.
resolve_single_replayed :
    let (answer, v) =
      resolve_single memory
        (some (mongo_cluster_size_index memory))
        3
        parse
        20
        entity_a
        registered_state in
    (answer ≡ ok (from_document key_a decision_a, canonical)) × (v ≡ registered_state)
resolve_single_replayed =
    resolve_single_replay memory memory-IsBackend memory-IsHealthy 3 parse 20 entity_a
      registered_state record_a decision_a refl registered_a refl present_a

resolve_single_replay_example :
    let (answer, v) =
      resolve_single memory
        (some (mongo_cluster_size_index memory))
        3
        parse
        20
        entity_a
        registered_state in
    (answer ≡ ok (from_document key_a decision_a, canonical)) × (v ≡ registered_state)
resolve_single_replay_example =
    resolve_single_replay memory memory-IsBackend memory-IsHealthy 3 parse 20 entity_a
      registered_state record_a decision_a refl registered_a refl present_a

resolve_single-IsStored_example :
    IsStored key_a
      (from_document key_a decision_a)
      (resolve_single memory
        (some (mongo_cluster_size_index memory))
        3
        parse
        20
        entity_a
        registered_state).1.decisions
resolve_single-IsStored_example =
    resolve_single-IsStored memory memory-IsBackend memory-IsHealthy 3 parse 20 entity_a
      registered_state (from_document key_a decision_a) canonical resolve_single_replayed.0
