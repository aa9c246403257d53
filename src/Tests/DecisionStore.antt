-- ===== src/Tests/DecisionStore.antt =====
-- Runs of the decision store.
use entity_resolution_servic.Prelude.{String, ◌≡◌, refl, some, [], ◌∷◌, arith, true, false}
use entity_resolution_servic.Domain.{Decision, EntityMentionIdentifier, ClusterReference}
use entity_resolution_servic.Backend.Documents.{State, DecisionDocument}
use entity_resolution_servic.DecisionStore.Outcome.{
  derive_provisional_cluster_id, from_document, is_same_outcome,
}
use entity_resolution_servic.DecisionStore.Service.{store_decision}
use entity_resolution_servic.DecisionStore.ClusterSizes.{shift, mongo_cluster_size_index}
use entity_resolution_servic.DecisionStore.Spec.{stored, first_document, moved_document}
use entity_resolution_servic.Backend.Documented.{updated}
use entity_resolution_servic.DecisionStore.Upsert.{Leaves}
use entity_resolution_servic.DecisionStore.Repository.{upsert_decision, record_review}
use entity_resolution_servic.DecisionStore.Review.{reviewed, record_review-reviewed}
use entity_resolution_servic.DecisionStore.Indexed.{
  IsSized, store_indexed, store_indexed-stored, store_decision-IsSized,
}
use entity_resolution_servic.DecisionStore.History.{after_store, Follows, store_decision-Follows}
use entity_resolution_servic.DecisionStore.Orders.{
  Records, after_in_order, after_out_of_order, store_decision_orders, store_decision_overtaken,
}
use entity_resolution_servic.Prelude.Int.{pos}
use entity_resolution_servic.Effects.{ok}
use entity_resolution_servic.Dict.{lookup, count}
use entity_resolution_servic.Tests.Memory.{memory, memory-IsBackend, memory-IsHealthy, empty_state}

abbrev pub mention_a : EntityMentionIdentifier
mention_a = record { source_id = "ted"; request_id = "r1"; entity_type = "ORG" }

abbrev pub key_a : String
key_a = derive_provisional_cluster_id memory mention_a

abbrev pub cluster_x : ClusterReference
cluster_x = record { cluster_id = "x"; confidence_score = 8; similarity_score = 7 }

abbrev pub cluster_y : ClusterReference
cluster_y = record { cluster_id = "y"; confidence_score = 5; similarity_score = 4 }

pub empty-IsSized : IsSized empty_state
unfolding lookup count
empty-IsSized c = refl

store_decision-IsSized_example :
    IsSized
      (store_decision memory
        (some (mongo_cluster_size_index memory))
        3
        mention_a
        cluster_x
        []
        10
        empty_state).1
store_decision-IsSized_example =
    store_decision-IsSized memory memory-IsBackend memory-IsHealthy 3 mention_a cluster_x [] 10
      empty_state empty-IsSized

store_indexed-stored_example :
    let (r, v) = store_indexed memory 3 mention_a cluster_x (cluster_y ∷ []) 10 empty_state in
    let expected =
      stored
        (derive_provisional_cluster_id memory mention_a)
        mention_a
        cluster_x
        (cluster_y ∷ [])
        10
        [] in
    (r ≡ expected.0) × (v.decisions ≡ expected.1)
store_indexed-stored_example =
    store_indexed-stored memory memory-IsBackend memory-IsHealthy 3 mention_a cluster_x
      (cluster_y ∷ []) 10 empty_state

-- A store that holds one decision, made at the instant 5.
abbrev pub decision_a : DecisionDocument
decision_a = first_document mention_a cluster_y [] 5

abbrev pub one_decision : State
one_decision = record empty_state {
  decisions = (key_a, decision_a) ∷ [];
  cluster_sizes = ("y", record { size = pos 1; updated_at = 5 }) ∷ [];
}

pub present_a : lookup key_a one_decision.decisions ≡ some decision_a
unfolding derive_provisional_cluster_id lookup
present_a = refl

store_decision-Follows_example :
    (d' : DecisionDocument) × (lookup key_a
        (after_store memory 3 mention_a cluster_x [] 10 one_decision).decisions
      ≡ some d')
    × Follows decision_a d'
store_decision-Follows_example =
    store_decision-Follows memory memory-IsBackend memory-IsHealthy 3 mention_a cluster_x [] 10
      one_decision key_a decision_a present_a

x_differs : is_same_outcome (from_document key_a decision_a) cluster_x [] ≡ false
unfolding is_same_outcome
x_differs = refl

y_repeats : is_same_outcome (from_document key_a decision_a) cluster_y [] ≡ true
unfolding is_same_outcome
y_repeats = refl

store_decision_orders_example :
    Records
      (after_in_order memory memory-IsBackend memory-IsHealthy 3 mention_a cluster_y cluster_x [] []
        10 20 one_decision decision_a present_a
        (omega arith)
        (omega arith))
      cluster_x
      []
    × Records
        (after_out_of_order memory memory-IsBackend memory-IsHealthy 3 mention_a cluster_y cluster_x
          [] [] 10 20 one_decision decision_a present_a
          (omega arith)
          (omega arith))
        cluster_x
        []
store_decision_orders_example =
    store_decision_orders memory memory-IsBackend memory-IsHealthy 3 mention_a cluster_y cluster_x
      [] [] 10 20 one_decision decision_a present_a (omega arith) (omega arith) x_differs

store_decision_overtaken_example :
    Records
      (after_in_order memory memory-IsBackend memory-IsHealthy 3 mention_a cluster_x cluster_y [] []
        10 20 one_decision decision_a present_a
        (omega arith)
        (omega arith))
      cluster_y
      []
    × Records
        (after_out_of_order memory memory-IsBackend memory-IsHealthy 3 mention_a cluster_x cluster_y
          [] [] 10 20 one_decision decision_a present_a
          (omega arith)
          (omega arith))
        cluster_x
        []
store_decision_overtaken_example =
    store_decision_overtaken memory memory-IsBackend memory-IsHealthy 3 mention_a cluster_x
      cluster_y [] [] 10 20 one_decision decision_a present_a (omega arith) (omega arith) y_repeats
      x_differs

abbrev after_x : State
after_x = after_store memory 3 mention_a cluster_x [] 10 one_decision

abbrev moved_a : Decision
moved_a = from_document key_a (moved_document decision_a mention_a cluster_x [] 10)

x_accepted : (store_indexed memory 3 mention_a cluster_x [] 10 one_decision).0 ≡ ok moved_a
unfolding store_decision shift lookup is_same_outcome upsert_decision updated
x_accepted = refl

record_review-reviewed_example :
    Leaves memory
      (record_review memory key_a 9 one_decision)
      one_decision
      (ok (reviewed key_a 9 one_decision.decisions).0, (reviewed key_a 9 one_decision.decisions).1)
record_review-reviewed_example =
    record_review-reviewed memory memory-IsBackend memory-IsHealthy key_a 9 one_decision
