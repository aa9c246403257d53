-- ===== src/Tests/Integrator.antt =====
-- Runs of the outcome integrator.
use entity_resolution_servic.Prelude.{
  List, All, ◌≡◌, refl, none, some, [], ◌∷◌, arith, true, ◌≤◌, ◌⊎◌, length,
}
use entity_resolution_servic.Dict.{lookup}
use entity_resolution_servic.Effects.{err, outcome_validation, triad_not_found}
use entity_resolution_servic.DecisionStore.Spec.{stored}
use entity_resolution_servic.Integrator.{
  EntityMentionResolutionResponse, ListenerEvent, message, disconnected, integrate_outcome,
  integrate_valid, run,
}
use entity_resolution_servic.Integrator.Outcomes.{
  absorbed, integrate, integrate_outcome-stored, integrate_outcome_atomic,
}
use entity_resolution_servic.Registry.{get_resolution_request}
use entity_resolution_servic.Integrator.Worker.{messages, factors, process_all, run-process_all}
use entity_resolution_servic.Tests.Memory.{memory, memory-IsBackend, memory-IsHealthy, empty_state}
use entity_resolution_servic.Tests.DecisionStore.{mention_a, cluster_x, key_a}
use entity_resolution_servic.Tests.Registry.{record_a, registered_state, registered_a}

abbrev response_a : EntityMentionResolutionResponse
response_a = record {
  entity_mention_id = mention_a;
  candidates = cluster_x ∷ [];
  timestamp = some (record { instant = 10; is_aware = true });
  ere_request_id = "b7e2";
}

integrate_outcome-stored_example :
    let expected = stored key_a mention_a cluster_x [] 10 registered_state.decisions in
    let (r, v) =
      integrate memory memory-IsBackend memory-IsHealthy 3 true response_a registered_state in
    (r ≡ absorbed expected.0) × (v.decisions ≡ expected.1)
integrate_outcome-stored_example =
    integrate_outcome-stored memory memory-IsBackend memory-IsHealthy 3 true response_a
      registered_state cluster_x [] 10 record_a refl refl registered_a

unknown_triad :
    (integrate memory memory-IsBackend memory-IsHealthy 3 true response_a empty_state).0
    ≡ err (triad_not_found mention_a)
unfolding integrate_outcome lookup integrate_valid get_resolution_request
unknown_triad = refl

integrate_outcome_atomic_example :
    ((triad_not_found mention_a ≡ outcome_validation)
      ⊎ (triad_not_found mention_a ≡ triad_not_found mention_a))
    × ((integrate memory memory-IsBackend memory-IsHealthy 3 true response_a empty_state).1
        ≡ empty_state)
integrate_outcome_atomic_example =
    integrate_outcome_atomic memory memory-IsBackend memory-IsHealthy 3 true response_a empty_state
      (triad_not_found mention_a) unknown_triad

abbrev events : List ListenerEvent
events = disconnected 700 ∷ message response_a ∷ disconnected 1400 ∷ []

run-process_all_example :
    let (w', pauses) = run memory none 3 true events 1 registered_state in
    (w' ≡ process_all memory none 3 true (messages events) registered_state)
    × (length pauses ≡ length (factors events))
    × All (λ p. (500 ≤ p) × (p ≤ 45000)) pauses
run-process_all_example =
    run-process_all memory none 3 true events 1 registered_state (omega arith) (omega arith)
      ((omega arith, omega arith), ((omega arith, omega arith), tt))
