-- ===== src/Tests/Canonical.antt =====
-- A client reads the alternatives of a decision, two at a time.
use entity_resolution_servic.Prelude.{
  arith, ◌≡◌, refl, true, some, List, [], ◌∷◌, map, take, Bool, not, ◌&&◌, ◌==◌, string_eq,
}
use entity_resolution_servic.Dict.{lookup}
use entity_resolution_servic.Domain.{ClusterReference}
use entity_resolution_servic.Effects.{ok}
use entity_resolution_servic.Backend.Documents.{State, DecisionDocument}
use entity_resolution_servic.DecisionStore.Outcome.{from_document}
use entity_resolution_servic.Curation.Canonical.{
  PreviewQueries, IsPreviewQueries, CanonicalEntityPreview, alternatives_of,
}
use entity_resolution_servic.Curation.Alternatives.{
  reference_of, read_alternatives, read_alternatives-IsRanked,
}
use entity_resolution_servic.Curation.Ranking.{number, IsRanked}
use entity_resolution_servic.Tests.Memory.{memory, memory-IsBackend, memory-IsHealthy}
use entity_resolution_servic.Tests.DecisionStore.{mention_a, cluster_x, cluster_y, decision_a}
use entity_resolution_servic.Tests.Registry.{registered_state}

abbrev cluster_z : ClusterReference
cluster_z = record { cluster_id = "z"; confidence_score = 9; similarity_score = 1 }

abbrev contested : DecisionDocument
contested = record decision_a {
  candidates = cluster_x ∷ cluster_y ∷ cluster_z ∷ record cluster_z { cluster_id = "u" } ∷ [];
}

abbrev contested_state : State
contested_state = record registered_state { decisions = ("d", contested) ∷ [] }

abbrev queries : PreviewQueries memory
queries = record {
  find_mentions_of = λ c n s. (ok (take n (mention_a ∷ [])), s);
  find_requests = λ ids n s. (ok (take n (map (λ (k, r). r) s.requests)), s);
  find_size = λ c s. (ok (lookup c s.cluster_sizes), s);
}

queries-IsPreviewQueries : IsPreviewQueries memory queries
queries-IsPreviewQueries = record {
  mentions_reply = λ c n w h. (_, refl);
  mentions_state = λ c n w. refl;
  requests_reply = λ ids n w h. (_, refl);
  requests_state = λ ids n w. refl;
  size_reply = λ c w. refl;
  size_state = λ c w. refl;
}

contested_present : lookup "d" contested_state.decisions ≡ some contested
unfolding lookup
contested_present = refl

three_alternatives :
    alternatives_of (from_document "d" contested)
    ≡ cluster_z ∷ record cluster_z { cluster_id = "u" } ∷ cluster_x ∷ []
unfolding alternatives_of
three_alternatives = refl

read_alternatives-IsRanked_example :
    (ps : List CanonicalEntityPreview) × ((v : State) × ((read_alternatives memory queries true "d"
            2 5 1 contested_state
          ≡ (ok ps, v))
        × (IsRanked (map reference_of ps)
            × (((p : ClusterReference → Bool)
                  → number p (map reference_of ps)
                    ≡ number
                        (λ c. p c && not (c.cluster_id == contested.current_placement.cluster_id))
                        contested.candidates)
                × (v ≡ contested_state)))))
read_alternatives-IsRanked_example =
    read_alternatives-IsRanked memory queries true "d" 2 memory-IsBackend memory-IsHealthy
      queries-IsPreviewQueries contested 5 contested_state contested_present (omega arith)
      (omega arith)
