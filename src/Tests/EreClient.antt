-- ===== src/Tests/EreClient.antt =====
-- Runs of the publication of a request.
use entity_resolution_servic.Prelude.{◌≡◌, ◌≢◌, refl, none, some, [], ◌∷◌}
use entity_resolution_servic.Effects.{ok}
use entity_resolution_servic.Backend.Documents.{EntityMentionResolutionRequest}
use entity_resolution_servic.EreClient.{push_request, publish_request}
use entity_resolution_servic.EreClient.Publish.{publish_request-appended}
use entity_resolution_servic.Tests.Memory.{memory, memory-IsBackend, empty_state}
use entity_resolution_servic.Tests.Registry.{entity_a}

abbrev request_a : EntityMentionResolutionRequest
request_a = record {
  entity_mention = some entity_a;
  ere_request_id = "";
  timestamp = none;
  proposed_cluster_ids = "x" ∷ [];
  excluded_cluster_ids = [];
}

published_a : (publish_request memory request_a empty_state).0 ≡ ok "b7e2"
unfolding publish_request push_request
published_a = refl

publish_request-appended_example :
    (r : EntityMentionResolutionRequest) × ((publish_request memory request_a
        empty_state).1.request_channel
      ≡ r ∷ [])
    × (r.ere_request_id ≡ "b7e2")
    × (r.entity_mention ≡ some entity_a)
    × (r.proposed_cluster_ids ≡ "x" ∷ [])
    × (r.excluded_cluster_ids ≡ [])
    × (r.timestamp ≢ none)
publish_request-appended_example =
    publish_request-appended memory memory-IsBackend request_a empty_state "b7e2" published_a
