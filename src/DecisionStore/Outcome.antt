-- ===== src/DecisionStore/Outcome.antt =====
-- ers/resolution_decision_store/domain/outcome.py, ers/commons/adapters/provisional_id.py and the
-- conversion of documents.
use entity_resolution_servic.Prelude.{String, Bool, ◌&&◌, List, ◌==◌}
use entity_resolution_servic.Domain.{
  EntityMentionIdentifier, ClusterReference, Decision, triad_key, reference_eq, references_eq,
}
use entity_resolution_servic.Backend.{Backend}
use entity_resolution_servic.Backend.Documents.{DecisionDocument}

unfoldable pub is_same_outcome : Decision → ClusterReference → List ClusterReference → Bool
is_same_outcome existing current candidates =
    existing.current_placement == current && existing.candidates == candidates

unfoldable pub derive_provisional_cluster_id : Backend → EntityMentionIdentifier → String
derive_provisional_cluster_id b identifier = b.sha256 (triad_key identifier)

-- `_from_document` drops the review fields; `_id` becomes `id`.
abbrev pub from_document : String → DecisionDocument → Decision
from_document id doc = record {
  id = id;
  about_entity_mention = doc.about_entity_mention;
  current_placement = doc.current_placement;
  candidates = doc.candidates;
  created_at = doc.created_at;
  updated_at = doc.updated_at;
}
