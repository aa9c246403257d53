-- ===== src/DecisionStore/Repository.antt =====
-- `MongoDecisionRepository` of ers/resolution_decision_store/adapters/decision_repository.py: the
-- reads by triad and the atomic writes.
use text.Mathlib.Text.{find?}
use entity_resolution_servic.Prelude.{
  ℕ, ltb, String, Bool, true, false, ◌&&◌, Option, none, some, List, [], ◌∷◌, ◌==◌, nat_eq,
  if◌then◌else◌,
}
use entity_resolution_servic.Domain.{EntityMentionIdentifier, ClusterReference, Decision}
use entity_resolution_servic.Effects.{
  connection_failure, duplicate_key, operation_failure, Error, pymongo, stale_outcome,
  repository_connection, repository_operation, Action, pure, raise, catch, ◌>>=◌, ◌>>◌,
}
use entity_resolution_servic.Backend.{Backend}
use entity_resolution_servic.Backend.Documents.{
  DecisionDocument, TimeField, Filter, anything, before, is_null, not_reviewed, both, either,
  Assignment, Update, set_on_insert, set, inc_reviews,
}
use entity_resolution_servic.DecisionStore.Outcome.{derive_provisional_cluster_id, from_document}

-- `updated_at` and the review counter are left out.
abbrev pub build_insert_doc :
    EntityMentionIdentifier → ClusterReference → List ClusterReference → ℕ → Update
build_insert_doc identifier current candidates created_at = set_on_insert (record {
  about_entity_mention = identifier;
  current_placement = current;
  candidates = candidates;
  created_at = created_at;
  updated_at = none;
  previous_review_count = none;
  reviewed_since_placement = some false;
})

abbrev pub build_update_doc :
    EntityMentionIdentifier → ClusterReference → List ClusterReference → ℕ → Update
build_update_doc identifier current candidates updated_at = set (
    Assignment.about_entity_mention identifier
    ∷ Assignment.current_placement current
    ∷ Assignment.candidates candidates
    ∷ Assignment.updated_at updated_at
    ∷ Assignment.reviewed_since_placement false
    ∷ [])

-- The `$or` of `_execute_update` and `record_review`: the placement boundary is before `t`.
abbrev pub boundary_before : ℕ → Filter
boundary_before t =
    either (before TimeField.updated_at t)
      (both (is_null TimeField.updated_at) (before TimeField.created_at t))

abbrev found : Option ℕ → Bool
found none = false
found (some _) = true

abbrev is_duplicate_key_operation_failure : ℕ → String → Bool
is_duplicate_key_operation_failure code text = code == 1 && found (find? text "duplicate key")

module _ (b : Backend) where
  open b use {World}

  unfoldable pub find_by_id : String → Action World (Option Decision)
  find_by_id id = do
    doc ← b.find_decision id
    pure (elim doc [ none ↦ none | some d ↦ some (from_document id d) ])

  unfoldable pub find_by_triad : EntityMentionIdentifier → Action World (Option Decision)
  unfolding find_by_id derive_provisional_cluster_id
  find_by_triad identifier = find_by_id (derive_provisional_cluster_id b identifier)

  unfoldable pub fetch_existing_and_raise_stale :
      String → EntityMentionIdentifier → Action World (Unit {0})
  fetch_existing_and_raise_stale triad_hash identifier = do
    existing ← b.find_decision triad_hash
    elim existing [ none ↦ pure tt | some _ ↦ raise (stale_outcome identifier) ]

  -- The `except` clauses that `_execute_insert` and `_execute_update` share.
  unfoldable pub write_failed :
      String → EntityMentionIdentifier → Error → Action World (Option DecisionDocument)
  unfolding fetch_existing_and_raise_stale
  write_failed triad_hash identifier (pymongo duplicate_key) = do
    fetch_existing_and_raise_stale triad_hash identifier
    raise repository_operation
  write_failed triad_hash identifier (pymongo (operation_failure code text)) =
      if is_duplicate_key_operation_failure code text
      then (do fetch_existing_and_raise_stale triad_hash identifier; raise repository_operation)
      else raise repository_operation
  write_failed triad_hash identifier (pymongo connection_failure) = raise repository_connection
  write_failed triad_hash identifier e = raise e

  module _ (triad_hash : String) (identifier : EntityMentionIdentifier) (current : ClusterReference)
      (candidates : List ClusterReference) (updated_at : ℕ) where
    unfoldable pub execute_insert : Action World (Option DecisionDocument)
    unfolding write_failed
    execute_insert =
        catch
          (b.find_one_and_update triad_hash anything
            (build_insert_doc identifier current candidates updated_at) true)
          (write_failed triad_hash identifier)

    unfoldable pub execute_update : Action World (Option DecisionDocument)
    unfolding write_failed
    execute_update =
        catch
          (b.find_one_and_update triad_hash (boundary_before updated_at)
            (build_update_doc identifier current candidates updated_at) false)
          (write_failed triad_hash identifier)

  -- The pre-read, which a caller that holds the decision spares.
  unfoldable pub doc_present : String → Option Decision → Action World Bool
  doc_present triad_hash (some _) = pure true
  doc_present triad_hash none =
      catch (do doc ← b.find_decision triad_hash; pure (elim doc [ none ↦ false | some _ ↦ true ]))
        (elim [ pymongo connection_failure ↦ raise repository_connection | e ↦ raise e ])

  unfoldable pub persisted :
      String → EntityMentionIdentifier → Option DecisionDocument → Action World Decision
  unfolding fetch_existing_and_raise_stale
  persisted triad_hash identifier (some doc) = pure (from_document triad_hash doc)
  persisted triad_hash identifier none = do
    fetch_existing_and_raise_stale triad_hash identifier
    raise repository_operation

  unfoldable pub upsert_decision :
      EntityMentionIdentifier
      → ClusterReference
      → List ClusterReference
      → ℕ
      → Option Decision
      → Action World Decision
  unfolding execute_insert execute_update doc_present persisted derive_provisional_cluster_id
  upsert_decision identifier current candidates updated_at existing =
      let triad_hash = derive_provisional_cluster_id b identifier in
      do
        present ← doc_present triad_hash existing
        result ←
            (if present
              then execute_update triad_hash identifier current candidates updated_at
              else execute_insert triad_hash identifier current candidates updated_at)
        persisted triad_hash identifier result

  -- The first write claims the slot of the placement; the second counts a late action.
  unfoldable pub record_review : String → ℕ → Action World Bool
  record_review decision_id action_created_at = do
    fresh ←
        (b.update_one decision_id (both not_reviewed (boundary_before action_created_at))
          (inc_reviews (Assignment.reviewed_since_placement true ∷ [])))
    if ltb 0 fresh
        then pure true
        else do stale ← b.update_one decision_id not_reviewed (inc_reviews []); pure (ltb 0 stale)
