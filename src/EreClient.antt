-- ===== src/EreClient.antt =====
-- `EREPublishService` of ers/ere_contract_client/services/ere_publish_service.py, with `push_request`
-- of `RedisEREClient` in ers/commons/adapters/redis_client.py.
pub mod Publish
use entity_resolution_servic.Prelude.{
  ℕ, String, Option, none, some, ◌==◌, nat_eq, string_eq, if◌then◌else◌,
}
use entity_resolution_servic.Domain.{EntityMention}
use entity_resolution_servic.Effects.{
  Error, redis_lib_connection, connection_error, timeout_error, missing_entity_mention,
  missing_source_id, missing_request_id, missing_entity_type, serialization, channel_unavailable,
  redis_connection, Action, ok, pure, raise, catch, guard, ◌>>=◌, ◌>>◌,
}
use entity_resolution_servic.Backend.{Backend}
use entity_resolution_servic.Backend.Documents.{EntityMentionResolutionRequest}

module _ (b : Backend) where
  open b use {World}

  unfoldable pub validate_mention : Option EntityMention → Action World (Unit {0})
  validate_mention none = raise missing_entity_mention
  validate_mention (some m) =
      if m.identified_by.source_id == ""
      then raise missing_source_id
      else if m.identified_by.request_id == ""
      then raise missing_request_id
      else if m.identified_by.entity_type == ""
      then raise missing_entity_type
      else pure tt

  unfoldable pub validate_triad : EntityMentionResolutionRequest → Action World (Unit {0})
  unfolding validate_mention
  validate_triad request = validate_mention request.entity_mention

  unfoldable pub stamp :
      EntityMentionResolutionRequest → Option ℕ → World → EntityMentionResolutionRequest × World
  stamp request (some t) w = (request, w)
  stamp request none w = let (t, w') = b.now w in (record request { timestamp = some t }, w')

  unfoldable pub name_request :
      EntityMentionResolutionRequest → World → EntityMentionResolutionRequest × World
  name_request request w =
      if request.ere_request_id == ""
      then (let (u, w') = b.uuid4 w in (record request { ere_request_id = u }, w'))
      else (request, w)

  unfoldable pub enrich_metadata :
      EntityMentionResolutionRequest → Action World EntityMentionResolutionRequest
  unfolding stamp name_request
  enrich_metadata request w =
      let (named, w') = name_request request w in
      let (stamped, w'') = stamp named named.timestamp w' in (ok stamped, w'')

  unfoldable pub lpush_failed : Error → Action World ℕ
  lpush_failed redis_lib_connection = raise connection_error
  lpush_failed e = raise e

  unfoldable pub push_request : EntityMentionResolutionRequest → Action World ℕ
  unfolding lpush_failed
  push_request request = catch (b.lpush request) lpush_failed

  unfoldable pub push_failed : Error → Action World ℕ
  push_failed timeout_error = raise channel_unavailable
  push_failed connection_error = raise redis_connection
  push_failed e = raise e

  unfoldable pub publish_request : EntityMentionResolutionRequest → Action World String
  unfolding validate_triad enrich_metadata
  publish_request request = do
    validate_triad request
    enriched ← enrich_metadata request
    guard (b.serializes enriched) serialization
    pushed ← catch (push_request enriched) push_failed
    if pushed == 0 then raise channel_unavailable else pure enriched.ere_request_id
