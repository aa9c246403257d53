-- ===== src/Rest/Lookup.antt =====
-- ers_rest_api/services/lookup_service.py and services/refresh_bulk_service.py.
use entity_resolution_servic.Prelude.{ℕ, String, Option, none, some, List, [], ◌∷◌, map}
use entity_resolution_servic.Domain.{EntityMention, EntityMentionIdentifier, Decision}
use entity_resolution_servic.Effects.{
  Error, mention_not_found, Action, Result, pure, raise, catch, ◌>>=◌,
}
use entity_resolution_servic.Backend.{Backend}
use entity_resolution_servic.Backend.Queries.{Queries}
use entity_resolution_servic.Cursor.{Codec}
use entity_resolution_servic.DecisionStore.ClusterSizes.{ClusterSizeIndex}
use entity_resolution_servic.Registry.Contexts.{
  ContextQueries, Contexts, context_for, get_contexts_for_triads,
}
use entity_resolution_servic.Coordinator.{lookup_by_triad}
use entity_resolution_servic.Coordinator.BulkRefresh.{refresh_bulk}
use entity_resolution_servic.Rest.Messages.{
  ErrorCode, mention_not_found_code, service_error, LookupResponse, BulkLookupResult,
  RefreshBulkResponse, bulk_lookup_result, nonempty_results, cursor_consistent_with_has_more,
  is_present,
}
use entity_resolution_servic.Rest.Resolve.{returned}

-- `decision.updated_at or decision.created_at`
abbrev pub last_updated_of : Decision → ℕ
last_updated_of d = elim d.updated_at [ none ↦ d.created_at | some t ↦ t ]

abbrev pub lookup_response : Contexts → EntityMentionIdentifier → Decision → LookupResponse
lookup_response contexts i d = record {
  identified_by = d.about_entity_mention;
  cluster_reference = d.current_placement;
  last_updated = last_updated_of d;
  context = context_for i contexts;
}

abbrev pub found_result : Contexts → EntityMentionIdentifier → Decision → BulkLookupResult
found_result contexts i d = record {
  identified_by = d.about_entity_mention;
  cluster_reference = some d.current_placement;
  last_updated = some (last_updated_of d);
  context = context_for i contexts;
  error = none;
}

abbrev pub failed_result : EntityMentionIdentifier → ErrorCode → BulkLookupResult
failed_result i code = record {
  identified_by = i;
  cluster_reference = none;
  last_updated = none;
  context = none;
  error = some (record { error_code = code });
}

-- The two `except` clauses of an item.
unfoldable pub item_failed :
    {W : Type 0} → EntityMentionIdentifier → Error → Action W BulkLookupResult
item_failed i mention_not_found =
    returned (bulk_lookup_result (failed_result i mention_not_found_code))
item_failed i e = returned (bulk_lookup_result (failed_result i service_error))

module _ (b : Backend) (contexts_of : ContextQueries b) (index : Option (ClusterSizeIndex b.World))
    (max_candidates : ℕ) (mention_parser : EntityMention → Result String) (budget : ℕ) where
  open b use {World}

  unfoldable pub handle_lookup : EntityMentionIdentifier → Action World LookupResponse
  unfolding lookup_by_triad context_for
  handle_lookup i = do
    decision ← lookup_by_triad b index max_candidates mention_parser budget i
    elim decision [
      | none ↦ raise mention_not_found
      | some d ↦ do
        contexts ← get_contexts_for_triads b contexts_of (i ∷ [])
        pure (lookup_response contexts i d)
    ]

  unfoldable pub lookup_item : Contexts → EntityMentionIdentifier → Action World BulkLookupResult
  unfolding lookup_by_triad item_failed bulk_lookup_result
  lookup_item contexts i =
      catch
        (do
          decision ← lookup_by_triad b index max_candidates mention_parser budget i
          elim decision [
            | none ↦ raise mention_not_found
            | some d ↦ returned (bulk_lookup_result (found_result contexts i d))
          ])
        (item_failed i)

  unfoldable pub lookup_items :
      Contexts → List EntityMentionIdentifier → Action World (List BulkLookupResult)
  unfolding lookup_item
  lookup_items contexts [] = pure []
  lookup_items contexts (i ∷ is) = do
    result ← lookup_item contexts i
    results ← lookup_items contexts is
    pure (result ∷ results)

  unfoldable pub handle_bulk_lookup :
      List EntityMentionIdentifier → Action World (List BulkLookupResult)
  unfolding lookup_items
  handle_bulk_lookup identifiers = do
    contexts ← get_contexts_for_triads b contexts_of identifiers
    results ← lookup_items contexts identifiers
    returned (nonempty_results results)

  module _ (q : Queries b) (codec : Codec) (default_size max_size : ℕ) where
    abbrev pub deltas_of : Contexts → List Decision → List LookupResponse
    deltas_of contexts decisions =
        map (λ d. lookup_response contexts d.about_entity_mention d) decisions

    unfoldable pub handle_refresh_bulk :
        String → Option String → Option ℕ → Action World RefreshBulkResponse
    unfolding refresh_bulk
    handle_refresh_bulk source_id cursor limit = do
      page ← refresh_bulk b q codec default_size max_size source_id cursor limit
      contexts ←
          get_contexts_for_triads b contexts_of (map (λ d. d.about_entity_mention) page.results)
      returned (
          cursor_consistent_with_has_more (record {
            deltas = deltas_of contexts page.results;
            has_more = is_present page.next_cursor;
            continuation_cursor = page.next_cursor;
          }))
