-- ===== src/Tests/Registry.antt =====
-- Runs of the request registry.
use entity_resolution_servic.Prelude.{String, ◌≡◌, refl, none, some, [], ◌∷◌, string_eq, ◌≤◌}
use entity_resolution_servic.Dict.{lookup}
use entity_resolution_servic.Domain.{EntityMention}
use entity_resolution_servic.Effects.{Result, ok, err, idempotency_conflict}
use entity_resolution_servic.Backend.Documents.{State, ResolutionRequestRecord, LookupRequestRecord}
use entity_resolution_servic.Registry.{triad_id, register_resolution_request, advance_snapshot}
use entity_resolution_servic.Registry.Requests.{register_again}
use entity_resolution_servic.Registry.Snapshots.{IsAfter, advance_snapshot_accepted}
use entity_resolution_servic.Tests.Memory.{memory, memory-IsBackend, memory-IsHealthy, empty_state}
use entity_resolution_servic.Tests.DecisionStore.{mention_a, one_decision}

abbrev pub entity_a : EntityMention
entity_a = record {
  identified_by = mention_a;
  content = "<rdf/>";
  content_type = "text/turtle";
  context = none;
}

abbrev pub entity_b : EntityMention
entity_b = record entity_a { content = "<rdf>other</rdf>" }

-- A parser that accepts every mention.
abbrev pub parse : EntityMention → Result String
parse m = ok "{}"

abbrev pub record_a : ResolutionRequestRecord
record_a = record {
  mention = entity_a;
  content_hash = "<rdf/>";
  received_at = 1000;
  parsed_representation = "{}";
}

-- A store whose one mention is registered and has a decision.
abbrev pub registered_state : State
registered_state = record one_decision { requests = ("ted::r1::ORG", record_a) ∷ [] }

pub registered_a : lookup (triad_id mention_a) registered_state.requests ≡ some record_a
unfolding lookup triad_id
registered_a = refl

register_a : (register_resolution_request memory parse entity_a empty_state).0 ≡ ok record_a
unfolding register_resolution_request lookup triad_id
register_a = refl

register_again_example :
    let w = (register_resolution_request memory parse entity_a empty_state).1 in
    let (r', v) = register_resolution_request memory parse entity_b w in
    (r' ≡ err (idempotency_conflict mention_a)) × (v ≡ w)
register_again_example =
    register_again memory memory-IsBackend memory-IsHealthy parse entity_a entity_b empty_state
      record_a register_a refl refl

abbrev marker_5 : LookupRequestRecord
marker_5 = record { source_id = "ted"; last_snapshot = 5; updated_at = 7 }

abbrev marked : State
marked = record empty_state { lookup_states = ("ted", marker_5) ∷ [] }

marked_5 : lookup "ted" marked.lookup_states ≡ some marker_5
unfolding lookup
marked_5 = refl

abbrev marker_9 : LookupRequestRecord
marker_9 = record { source_id = "ted"; last_snapshot = 9; updated_at = 1000 }

accepted_9 : (advance_snapshot memory "ted" 9 marked).0 ≡ ok marker_9
unfolding advance_snapshot lookup
accepted_9 = refl

advance_snapshot_accepted_example :
    (lookup "ted" (advance_snapshot memory "ted" 9 marked).1.lookup_states ≡ some marker_9)
    × (marker_9.last_snapshot ≡ 9)
    × (9 ≤ marker_9.updated_at)
    × IsAfter (lookup "ted" marked.lookup_states) 9
advance_snapshot_accepted_example =
    advance_snapshot_accepted memory memory-IsBackend memory-IsHealthy "ted" 9 marked marker_9
      accepted_9
