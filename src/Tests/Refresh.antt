-- ===== src/Tests/Refresh.antt =====
-- A bulk refresh of a small store.
use entity_resolution_servic.Prelude.{arith, refl, true, none, some, [], ◌∷◌}
use entity_resolution_servic.Dict.{lookup}
use entity_resolution_servic.Backend.Documents.{State}
use entity_resolution_servic.Backend.Queries.{rows_of, row_before}
use entity_resolution_servic.Cursor.{updated}
use entity_resolution_servic.DecisionStore.Pages.{read_all, Collects}
use entity_resolution_servic.Paging.{filter, sort}
use entity_resolution_servic.Coordinator.BulkRefresh.{refresh_bulk}
use entity_resolution_servic.Coordinator.Delivery.{
  IsAdvanced, IsPast, is_news, refresh_bulk-Collects,
}
use entity_resolution_servic.Tests.Memory.{memory, memory-IsBackend, memory-IsHealthy}
use entity_resolution_servic.Tests.Codec.{plain_codec, plain_codec-IsCodec}
use entity_resolution_servic.Tests.Registry.{record_a}
use entity_resolution_servic.Tests.Pages.{
  three, three-HasDistinctIds, engine_of, memory_queries, memory_queries-IsQueries,
}

abbrev refreshed : State
refreshed = record three {
  requests = ("ted::r1::ORG", record_a) ∷ [];
  lookup_states = ("ted", record { source_id = "ted"; last_snapshot = 10; updated_at = 10 }) ∷ [];
}

refreshed-IsPast : IsPast memory "ted" refreshed
unfolding lookup
refreshed-IsPast v same = omega arith

refresh_bulk-Collects_example :
    Collects memory
      (λ v. IsAdvanced "ted" refreshed v)
      (some (
        sort (row_before (engine_of true) true updated) (
          filter
            (is_news "ted" (lookup "ted" refreshed.lookup_states))
            (rows_of refreshed.decisions))))
      (read_all 4
        (λ cursor.
          refresh_bulk memory (memory_queries true) plain_codec 50 100 "ted" cursor (some 1))
        none
        refreshed)
refresh_bulk-Collects_example =
    refresh_bulk-Collects memory memory-IsBackend memory-IsHealthy (memory_queries true)
      (memory_queries-IsQueries true) plain_codec plain_codec-IsCodec "ted" refreshed 50 100
      (some 1) 4 refreshed "ted::r1::ORG" refl refreshed-IsPast refl (omega arith)
      (three-HasDistinctIds true) (omega arith)
