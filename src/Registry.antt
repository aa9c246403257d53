-- ===== src/Registry.antt =====
-- `RequestRegistryService` of ers/request_registry/services/request_registry_service.py with the
-- repositories of ers/request_registry/adapters/records_repository.py.
pub mod Contexts
pub mod Reading
pub mod Requests
pub mod Snapshots
use Prim.Native.String.{◌++◌}
use entity_resolution_servic.Prelude.{
  ℕ, leb, String, Bool, not, ◌||◌, Option, none, some, ◌==◌, string_eq, if◌then◌else◌,
}
use entity_resolution_servic.Domain.{EntityMentionIdentifier, EntityMention}
use entity_resolution_servic.Effects.{
  MongoError, connection_failure, duplicate_key, Error, pymongo, value_error, duplicate_triad,
  idempotency_conflict, registry_connection, registry_operation, snapshot_regression, Result, ok,
  err, Action, pure, raise, catch, guard, ◌>>=◌, ◌>>◌,
}
use entity_resolution_servic.Backend.{Backend}
use entity_resolution_servic.Backend.Documents.{ResolutionRequestRecord, LookupRequestRecord}

unfoldable pub triad_id : EntityMentionIdentifier → String
triad_id i = i.source_id ++ ("::" ++ (i.request_id ++ ("::" ++ i.entity_type)))

-- The validator of `ResolutionRequestRecord`.
abbrev pub some_field_empty : EntityMentionIdentifier → Bool
some_field_empty i = i.source_id == "" || (i.request_id == "" || i.entity_type == "")

module _ (b : Backend) where
  open b use {World}

  unfoldable pub store_failed : EntityMentionIdentifier → Error → Action World (Unit {0})
  store_failed identifier (pymongo duplicate_key) = raise (duplicate_triad identifier)
  store_failed identifier (pymongo connection_failure) = raise registry_connection
  store_failed identifier (pymongo _) = raise registry_operation
  store_failed identifier e = raise e

  unfoldable pub store : ResolutionRequestRecord → Action World ResolutionRequestRecord
  unfolding store_failed triad_id
  store r = do
    catch (b.requests.insert_one (triad_id r.mention.identified_by) r)
        (store_failed r.mention.identified_by)
    pure r

  unfoldable pub get_resolution_request :
      EntityMentionIdentifier → Action World (Option ResolutionRequestRecord)
  unfolding triad_id
  get_resolution_request identifier = b.requests.find_one (triad_id identifier)

  -- The parser, as the JSON text of what it returns, or what it raises.
  module _ (mention_parser : EntityMention → Result String) where
    unfoldable pub register_new : EntityMention → String → Action World ResolutionRequestRecord
    unfolding store
    register_new mention content_hash w = elim (mention_parser mention) [
      | err e ↦ (err e, w)
      | ok parsed ↦
          let (received_at, w') = b.now w in
          if some_field_empty mention.identified_by
          then (err value_error, w')
          else store
              (record {
                mention = mention;
                content_hash = content_hash;
                received_at = received_at;
                parsed_representation = parsed;
              })
              w'
    ]

    unfoldable pub register_resolution_request :
        EntityMention → Action World ResolutionRequestRecord
    unfolding get_resolution_request register_new
    register_resolution_request mention = do
      guard (not (mention.content == "")) value_error
      let content_hash = b.sha256 mention.content
      existing ← get_resolution_request mention.identified_by
      elim existing [
        | some r ↦
            if r.content_hash == content_hash
            then pure r
            else raise (idempotency_conflict mention.identified_by)
        | none ↦ register_new mention content_hash
      ]

  unfoldable pub get_lookup_state : String → Action World (Option LookupRequestRecord)
  get_lookup_state source_id = b.lookup_states.find_one source_id

  -- `upsert`, which returns what it saved.
  unfoldable pub upsert : LookupRequestRecord → Action World LookupRequestRecord
  upsert s = do b.lookup_states.replace_one s.source_id s; pure s

  unfoldable pub write_snapshot : String → ℕ → Action World LookupRequestRecord
  unfolding upsert
  write_snapshot source_id snapshot_time w =
      let (now, w') = b.now w in
      upsert
        (record {
          source_id = source_id;
          last_snapshot = snapshot_time;
          updated_at = if leb snapshot_time now then now else snapshot_time;
        })
        w'

  unfoldable pub advance_snapshot : String → ℕ → Action World LookupRequestRecord
  unfolding get_lookup_state write_snapshot
  advance_snapshot source_id snapshot_time = do
    current_state ← get_lookup_state source_id
    elim current_state [
      | none ↦ write_snapshot source_id snapshot_time
      | some s ↦
          if leb snapshot_time s.last_snapshot
          then raise (snapshot_regression source_id s.last_snapshot snapshot_time)
          else write_snapshot source_id snapshot_time
    ]
