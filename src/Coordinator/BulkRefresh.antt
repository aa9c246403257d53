-- ===== src/Coordinator/BulkRefresh.antt =====
-- `BulkRefreshCoordinatorService` of
-- ers/resolution_coordinator/services/bulk_refresh_coordinator_service.py, with `source_has_requests`
-- of the request registry.
use entity_resolution_servic.Prelude.{ℕ, String, Bool, true, false, Option, none, some}
use entity_resolution_servic.Effects.{Action, source_not_found, pure, guard, ◌>>=◌, ◌>>◌}
use entity_resolution_servic.Backend.{Backend}
use entity_resolution_servic.Backend.Documents.{LookupRequestRecord}
use entity_resolution_servic.Backend.Queries.{Queries}
use entity_resolution_servic.Cursor.{Codec}
use entity_resolution_servic.DecisionStore.Queries.{CursorPage, query_decisions_delta}
use entity_resolution_servic.Registry.{get_lookup_state, advance_snapshot}

abbrev pub snapshot_of : Option LookupRequestRecord → Option ℕ
snapshot_of none = none
snapshot_of (some r) = some r.last_snapshot

module _ (b : Backend) (q : Queries b) where
  open b use {World}

  unfoldable pub exists_by_source : String → Action World Bool
  exists_by_source source_id = do
    doc ← q.find_request_of source_id
    pure (elim doc [ none ↦ false | some id ↦ true ])

  unfoldable pub source_has_requests : String → Action World Bool
  unfolding exists_by_source
  source_has_requests source_id = exists_by_source source_id

  -- `advance_snapshot(source_id, datetime.now(UTC))`
  unfoldable pub advance_to_now : String → Action World LookupRequestRecord
  advance_to_now source_id w = let (t, v) = b.now w in advance_snapshot b source_id t v

  module _ (codec : Codec) (default_size max_size : ℕ) where
    unfoldable pub finish_page : String → CursorPage → Action World CursorPage
    finish_page source_id page = elim page.next_cursor [
      | none ↦ advance_to_now source_id >> pure page
      | some c ↦ pure page
    ]

    unfoldable pub refresh_bulk : String → Option String → Option ℕ → Action World CursorPage
    refresh_bulk source_id cursor page_size = do
      exists ← source_has_requests source_id
      guard exists (source_not_found source_id)
      lookup_state ← get_lookup_state b source_id
      page ←
          query_decisions_delta b q codec default_size max_size source_id (snapshot_of lookup_state)
            cursor page_size
      finish_page source_id page
