-- ===== src/DecisionStore/Spec.antt =====
-- What the write path promises, as a function on the contents of the collection.
use entity_resolution_servic.Prelude.{
  ℕ, ltb, String, false, Option, none, some, List, if◌then◌else◌,
}
use entity_resolution_servic.Dict.{Dict, lookup, put}
use entity_resolution_servic.Domain.{EntityMentionIdentifier, ClusterReference, Decision}
use entity_resolution_servic.Effects.{Result, ok, err, stale_outcome}
use entity_resolution_servic.Backend.Documents.{DecisionDocument}
use entity_resolution_servic.DecisionStore.Outcome.{is_same_outcome, from_document}

-- The instant of the current placement.
abbrev pub boundary : DecisionDocument → ℕ
boundary d = elim d.updated_at [ none ↦ d.created_at | some t ↦ t ]

abbrev pub first_document :
    EntityMentionIdentifier → ClusterReference → List ClusterReference → ℕ → DecisionDocument
first_document identifier current candidates t = record {
  about_entity_mention = identifier;
  current_placement = current;
  candidates = candidates;
  created_at = t;
  updated_at = none;
  previous_review_count = none;
  reviewed_since_placement = some false;
}

abbrev pub moved_document :
    DecisionDocument
    → EntityMentionIdentifier
    → ClusterReference
    → List ClusterReference
    → ℕ
    → DecisionDocument
moved_document d identifier current candidates t = record d {
  about_entity_mention = identifier;
  current_placement = current;
  candidates = candidates;
  updated_at = some t;
  reviewed_since_placement = some false;
}

abbrev pub Contents : Type 0
Contents = Dict DecisionDocument

module _ (id : String) (identifier : EntityMentionIdentifier) (current : ClusterReference)
    (candidates : List ClusterReference) (t : ℕ) where
  abbrev saved : DecisionDocument → Contents → Result Decision × Contents
  saved d docs = (ok (from_document id d), put id d docs)

  -- An insert, an update by a newer outcome, or a refusal.
  abbrev upserted_from : Option DecisionDocument → Contents → Result Decision × Contents
  upserted_from none docs = saved (first_document identifier current candidates t) docs
  upserted_from (some d) docs =
      if ltb (boundary d) t
      then saved (moved_document d identifier current candidates t) docs
      else (err (stale_outcome identifier), docs)

  unfoldable pub upserted : Contents → Result Decision × Contents
  upserted docs = upserted_from (lookup id docs) docs

  abbrev stored_from : Option DecisionDocument → Contents → Result Decision × Contents
  stored_from none docs = upserted_from none docs
  stored_from (some d) docs =
      if is_same_outcome (from_document id d) current candidates
      then (ok (from_document id d), docs)
      else upserted_from (some d) docs

  -- The same, but an unchanged outcome writes nothing.
  unfoldable pub stored : Contents → Result Decision × Contents
  stored docs = stored_from (lookup id docs) docs
