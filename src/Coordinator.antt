-- ===== src/Coordinator.antt =====
-- `ResolutionCoordinatorService` of
-- ers/resolution_coordinator/services/resolution_coordinator_service.py: one mention at a time.
-- `budget` is ERS_COORDINATOR_SINGLE_REQUEST_TIME_BUDGET.
pub mod Bulk
pub mod BulkRefresh
pub mod Delivery
pub mod Replay
pub mod Answers
pub mod Waiter
use entity_resolution_servic.Prelude.{
  ℕ, String, Option, none, some, [], ◌∷◌, ◌==◌, nat_eq, if◌then◌else◌,
}
use entity_resolution_servic.Domain.{
  EntityMentionIdentifier, ClusterReference, Decision, EntityMention, triad_key,
}
use entity_resolution_servic.Effects.{
  Error, value_error, malformed_rdf, content_too_large, unsupported_entity_type,
  entity_type_mismatch, multiple_entities_found, empty_extraction, duplicate_triad,
  registry_connection, repository_connection, stale_outcome, timeout_error, redis_connection,
  channel_unavailable, parsing_failed, service_unavailable, resolution_timeout, mongodb, redis,
  channel, Result, err, Action, pure, raise, catch, ◌>>=◌, ◌>>◌,
}
use entity_resolution_servic.Backend.{Backend}
use entity_resolution_servic.DecisionStore.Outcome.{derive_provisional_cluster_id}
use entity_resolution_servic.DecisionStore.ClusterSizes.{ClusterSizeIndex}
use entity_resolution_servic.DecisionStore.Service.{store_decision, get_decision_by_triad}
use entity_resolution_servic.EreClient.{publish_request}
use entity_resolution_servic.Registry.{register_resolution_request}

pub data ResolutionOutcome : Type 0 where
  canonical provisional : ResolutionOutcome

-- The `except` clauses of the registration: `_PARSING_ERRORS`, a concurrent registration, and
-- `_MONGO_CONNECTION_ERRORS`. Any other exception passes.
unfoldable pub registration_failed : {W : Type 0} → Error → Action W (Unit {0})
registration_failed value_error = raise (parsing_failed value_error)
registration_failed malformed_rdf = raise (parsing_failed malformed_rdf)
registration_failed content_too_large = raise (parsing_failed content_too_large)
registration_failed unsupported_entity_type = raise (parsing_failed unsupported_entity_type)
registration_failed entity_type_mismatch = raise (parsing_failed entity_type_mismatch)
registration_failed multiple_entities_found = raise (parsing_failed multiple_entities_found)
registration_failed empty_extraction = raise (parsing_failed empty_extraction)
registration_failed (duplicate_triad _) = pure tt
registration_failed registry_connection = raise (service_unavailable mongodb)
registration_failed repository_connection = raise (service_unavailable mongodb)
registration_failed e = raise e

unfoldable pub store_unavailable : {W A : Type 0} → Error → Action W A
store_unavailable repository_connection = raise (service_unavailable mongodb)
store_unavailable e = raise e

module _ (b : Backend) (index : Option (ClusterSizeIndex b.World)) (max_candidates : ℕ)
    (mention_parser : EntityMention → Result String) (budget : ℕ) where
  open b use {World}

  unfoldable pub lookup_by_triad : EntityMentionIdentifier → Action World (Option Decision)
  lookup_by_triad identifier = get_decision_by_triad b index max_candidates identifier

  -- A read of the store under `except RepositoryConnectionError`.
  unfoldable pub read_decision : EntityMentionIdentifier → Action World (Option Decision)
  unfolding store_unavailable
  read_decision identifier =
      catch (get_decision_by_triad b index max_candidates identifier) store_unavailable

  unfoldable pub provisional_reference : EntityMentionIdentifier → ClusterReference
  provisional_reference identifier = record {
    cluster_id = derive_provisional_cluster_id b identifier;
    confidence_score = 0;
    similarity_score = 0;
  }

  unfoldable pub provisional_failed :
      EntityMentionIdentifier → Error → Action World (Decision × ResolutionOutcome)
  unfolding read_decision
  provisional_failed identifier (stale_outcome _) = do
    decision ← read_decision identifier
    elim decision [ none ↦ raise resolution_timeout | some d ↦ pure (d, canonical) ]
  provisional_failed identifier repository_connection = raise (service_unavailable mongodb)
  provisional_failed identifier e = raise e

  unfoldable pub issue_provisional :
      EntityMentionIdentifier → Action World (Decision × ResolutionOutcome)
  unfolding provisional_reference provisional_failed
  issue_provisional identifier w =
      let (now, w') = b.now w in
      let cluster_ref = provisional_reference identifier in
      catch
        (do
          decision ←
              store_decision b index max_candidates identifier cluster_ref (cluster_ref ∷ []) now
          pure (decision, provisional))
        (provisional_failed identifier) w'

  unfoldable pub wait_and_read : EntityMentionIdentifier → Action World (Option Decision)
  wait_and_read identifier w =
      let (rung, w') = b.wait_for (triad_key identifier) budget w in
      if rung
      then get_decision_by_triad b index max_candidates identifier w'
      else (err timeout_error, w')

  unfoldable pub waiting_failed : EntityMentionIdentifier → Error → Action World (Option Decision)
  unfolding read_decision
  waiting_failed identifier redis_connection = raise (service_unavailable redis)
  waiting_failed identifier channel_unavailable = raise (service_unavailable channel)
  waiting_failed identifier repository_connection = raise (service_unavailable mongodb)
  waiting_failed identifier timeout_error = read_decision identifier
  waiting_failed identifier e = raise e

  unfoldable pub publish_and_wait : EntityMention → Action World (Option Decision)
  unfolding wait_and_read waiting_failed
  publish_and_wait mention =
      catch
        (do
          publish_request b (record {
            entity_mention = some mention;
            ere_request_id = "";
            timestamp = none;
            proposed_cluster_ids = [];
            excluded_cluster_ids = [];
          })
          wait_and_read mention.identified_by)
        (waiting_failed mention.identified_by)

  -- The `finally` that gives the waiting event back suppresses every exception and is left out.
  unfoldable pub resolve_new : EntityMention → Action World (Decision × ResolutionOutcome)
  resolve_new mention = if budget == 0 then issue_provisional mention.identified_by else do
    decision ← publish_and_wait mention
    elim decision [ some d ↦ pure (d, canonical) | none ↦ issue_provisional mention.identified_by ]

  unfoldable pub register : EntityMention → Action World (Unit {0})
  unfolding registration_failed
  register mention =
      catch (do register_resolution_request b mention_parser mention; pure tt) registration_failed

  unfoldable pub resolve_single : EntityMention → Action World (Decision × ResolutionOutcome)
  resolve_single mention = do
    register mention
    existing ← read_decision mention.identified_by
    elim existing [ some d ↦ pure (d, canonical) | none ↦ resolve_new mention ]
