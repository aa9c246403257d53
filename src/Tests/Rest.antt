-- ===== src/Tests/Rest.antt =====
-- Runs of the REST services.
use entity_resolution_servic.Prelude.{
  ◌≡◌, ◌⊎◌, ◌↔◌, refl, Option, true, none, some, List, [], ◌∷◌, All,
}
use entity_resolution_servic.Dict.{lookup, put}
use entity_resolution_servic.Domain.{EntityMention, EntityMentionIdentifier, Decision}
use entity_resolution_servic.Effects.{Action, Result, ok}
use entity_resolution_servic.Backend.Documents.{State}
use entity_resolution_servic.DecisionStore.ClusterSizes.{mongo_cluster_size_index}
use entity_resolution_servic.Registry.{triad_id}
use entity_resolution_servic.Registry.Contexts.{
  ContextQueries, IsContextQueries, Contexts, contexts_among, get_contexts_for_triads,
}
use entity_resolution_servic.Coordinator.{canonical, provisional, resolve_single, lookup_by_triad}
use entity_resolution_servic.Coordinator.Bulk.{Resolution, EventLoop}
use entity_resolution_servic.Rest.Messages.{
  EntityMentionResolutionResult, BulkLookupResult, service_error, is_blank,
}
use entity_resolution_servic.Rest.Resolve.{bulk_status_code}
use entity_resolution_servic.Rest.Lookup.{handle_bulk_lookup}
use entity_resolution_servic.Rest.Status.{IsDone, bulk_status_code-IsDone}
use entity_resolution_servic.Rest.Lookups.{AreLookedUp, handle_bulk_lookup-AreLookedUp}
use entity_resolution_servic.Rest.Found.{AreFound, handle_bulk_lookup-AreFound}
use entity_resolution_servic.DecisionStore.Outcome.{derive_provisional_cluster_id}
use entity_resolution_servic.Tests.Memory.{memory, memory-IsBackend, memory-IsHealthy}
use entity_resolution_servic.Tests.DecisionStore.{mention_a}
use entity_resolution_servic.Tests.Registry.{parse, registered_state}

a_blank_text : is_blank " \t" ≡ true
unfolding is_blank
a_blank_text = refl

abbrev done : EntityMentionResolutionResult
done = record {
  identified_by = mention_a;
  canonical_entity_id = some "x";
  status = some canonical;
  error = none;
}

abbrev failed : EntityMentionResolutionResult
failed = record {
  identified_by = mention_a;
  canonical_entity_id = none;
  status = none;
  error = some (record { error_code = service_error });
}

bulk_status_code-IsDone_example :
    ((bulk_status_code (done ∷ failed ∷ []) ≡ 200) ↔ All (IsDone canonical) (done ∷ failed ∷ []))
    × ((bulk_status_code (done ∷ failed ∷ []) ≡ 202)
        ↔ All (IsDone provisional) (done ∷ failed ∷ []))
    × ((bulk_status_code (done ∷ failed ∷ []) ≡ 200)
        ⊎ ((bulk_status_code (done ∷ failed ∷ []) ≡ 202)
            ⊎ (bulk_status_code (done ∷ failed ∷ []) ≡ 207)))
bulk_status_code-IsDone_example = bulk_status_code-IsDone done (failed ∷ []) (refl, (refl, tt))

a_mixed_batch : bulk_status_code (done ∷ failed ∷ []) ≡ 207
unfolding bulk_status_code
a_mixed_batch = refl

-- Each task when the one before has ended.
abbrev in_turn : List (Action State Resolution) → State → List (Result Resolution) × State
in_turn [] s = ([], s)
in_turn (t ∷ ts) s = let (r, s') = t s in let (rs, s'') = in_turn ts s' in (r ∷ rs, s'')

abbrev event_loop : EventLoop State
event_loop = record {
  gather = in_turn;
  wait_for_gather = λ n ts s. (some (in_turn ts s).0, (in_turn ts s).1);
  may_end = λ t r. (u : State) × ((t u).0 ≡ r);
}

abbrev resolve : EntityMention → Action State Resolution
resolve m = resolve_single memory (some (mongo_cluster_size_index memory)) 3 parse 20 m

abbrev memory_contexts : ContextQueries memory
memory_contexts = record { find_contexts = λ ids s. (ok (contexts_among ids s.requests), s) }

memory_contexts-IsContextQueries : IsContextQueries memory memory_contexts
memory_contexts-IsContextQueries = record {
  contexts_reply = λ ids w. refl;
  contexts_state = λ ids w. refl;
}

abbrev stranger : EntityMentionIdentifier
stranger = record { source_id = "ted"; request_id = "r9"; entity_type = "ORG" }

abbrev batch_contexts : Contexts
batch_contexts = (mention_a, none) ∷ []

contexts_of_batch :
    get_contexts_for_triads memory memory_contexts (mention_a ∷ stranger ∷ []) registered_state
    ≡ (ok batch_contexts, registered_state)
unfolding get_contexts_for_triads triad_id lookup put
contexts_of_batch = refl

abbrev find : EntityMentionIdentifier → Action State (Option Decision)
find i = lookup_by_triad memory none 3 parse 20 i

handle_bulk_lookup-AreLookedUp_example :
    (xs : List BulkLookupResult) × (((handle_bulk_lookup memory memory_contexts none 3 parse 20
          (mention_a ∷ stranger ∷ [])
          registered_state).0
        ≡ ok xs)
      × AreLookedUp find batch_contexts (mention_a ∷ stranger ∷ []) xs)
handle_bulk_lookup-AreLookedUp_example =
    handle_bulk_lookup-AreLookedUp memory memory_contexts none 3 parse 20 mention_a (stranger ∷ [])
      registered_state registered_state batch_contexts contexts_of_batch

handle_bulk_lookup-AreFound_example :
    let (answer, u) =
      handle_bulk_lookup memory memory_contexts none 3 parse 20
        (mention_a ∷ stranger ∷ [])
        registered_state in
    ((xs : List BulkLookupResult) × ((answer ≡ ok xs)
        × AreFound
            (derive_provisional_cluster_id memory)
            registered_state.decisions
            (mention_a ∷ stranger ∷ [])
            xs))
    × (u ≡ registered_state)
handle_bulk_lookup-AreFound_example =
    handle_bulk_lookup-AreFound memory memory_contexts none 3 parse 20 memory-IsBackend
      memory-IsHealthy memory_contexts-IsContextQueries mention_a (stranger ∷ []) registered_state
