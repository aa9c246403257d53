-- ===== src/Backend/Documented.antt =====
-- What MongoDB's manual says of the operators that the program uses, on the contents of a
-- collection: the answers that the laws of `Backend` ask of the server.
use entity_resolution_servic.Prelude.{
  ℕ, ◌+◌, ltb, leb, String, Bool, true, false, not, ◌&&◌, ◌||◌, Option, none, some, List, [], ◌∷◌,
  if◌then◌else◌,
}
use entity_resolution_servic.Prelude.Int.{◌+ℤ◌, pos_part}
use entity_resolution_servic.Dict.{Dict, lookup, put, erase}
use entity_resolution_servic.Backend.Documents.{
  DecisionDocument, ClusterSizeDocument, TimeField, Filter, Assignment, Update, set_on_insert, set,
  inc_reviews, SizeUpdate, anything, before, is_null, not_reviewed, both, either,
}

abbrev time_of : TimeField → DecisionDocument → Option ℕ
time_of TimeField.created_at d = some d.created_at
time_of TimeField.updated_at d = d.updated_at

-- `$lt` matches no document that lacks the field.
abbrev time_before : Option ℕ → ℕ → Bool
time_before none t = false
time_before (some u) t = ltb u t

abbrev is_absent : Option ℕ → Bool
is_absent none = true
is_absent (some _) = false

-- `{"$ne": true}` matches false, null and absent values.
abbrev is_true : Option Bool → Bool
is_true none = false
is_true (some b) = b

abbrev pub matches : Filter → DecisionDocument → Bool
matches anything d = true
matches (before f t) d = time_before (time_of f d) t
matches (is_null f) d = is_absent (time_of f d)
matches not_reviewed d = not (is_true d.reviewed_since_placement)
matches (both p q) d = matches p d && matches q d
matches (either p q) d = matches p d || matches q d

abbrev assign : Assignment → DecisionDocument → DecisionDocument
assign (Assignment.about_entity_mention i) d = record d { about_entity_mention = i }
assign (Assignment.current_placement c) d = record d { current_placement = c }
assign (Assignment.candidates cs) d = record d { candidates = cs }
assign (Assignment.updated_at t) d = record d { updated_at = some t }
assign (Assignment.reviewed_since_placement b) d = record d { reviewed_since_placement = some b }

abbrev assign_all : List Assignment → DecisionDocument → DecisionDocument
assign_all [] d = d
assign_all (a ∷ rest) d = assign_all rest (assign a d)

-- `$inc` of an absent or null-free counter sets it to the increment.
abbrev incremented : Option ℕ → ℕ
incremented none = 1
incremented (some n) = n + 1

abbrev pub apply : Update → DecisionDocument → DecisionDocument
apply (set_on_insert _) d = d
apply (set xs) d = assign_all xs d
apply (inc_reviews xs) d =
    assign_all xs (record d { previous_review_count = some (incremented d.previous_review_count) })

-- The document that an upsert inserts. The program upserts with `$setOnInsert` alone.
abbrev inserted : Update → Bool → Option DecisionDocument
inserted (set_on_insert d) true = some d
inserted _ _ = none

abbrev stored :
    String
    → Option DecisionDocument
    → Dict DecisionDocument
    → Option DecisionDocument × Dict DecisionDocument
stored id none docs = (none, docs)
stored id (some d) docs = (some d, put id d docs)

-- `find_one_and_update` with ReturnDocument.AFTER: the document written, if any, and the contents.
unfoldable pub updated :
    String
    → Filter
    → Update
    → Bool
    → Dict DecisionDocument
    → Option DecisionDocument × Dict DecisionDocument
updated id filter update upsert docs = elim (lookup id docs) [
  | none ↦ stored id (inserted update upsert) docs
  | some d ↦ stored id (if matches filter d then some (apply update d) else none) docs
]

-- `modified_count`: every update of the program with `update_one` changes what it matches.
abbrev pub modified_count : Option DecisionDocument → ℕ
modified_count none = 0
modified_count (some _) = 1

unfoldable pub resized : SizeUpdate → Dict ClusterSizeDocument → Dict ClusterSizeDocument
resized u sizes = elim (lookup u.target sizes) [
  | none ↦
      if u.upsert then put u.target (record { size = u.delta; updated_at = u.now }) sizes else sizes
  | some d ↦ put u.target (record { size = d.size +ℤ u.delta; updated_at = u.now }) sizes
]

abbrev pub resized_all : List SizeUpdate → Dict ClusterSizeDocument → Dict ClusterSizeDocument
resized_all [] sizes = sizes
resized_all (u ∷ rest) sizes = resized_all rest (resized u sizes)

-- `delete_one({"_id": cluster, "size": {"$lte": 0}})`
unfoldable pub without_empty : String → Dict ClusterSizeDocument → Dict ClusterSizeDocument
without_empty cluster sizes = elim (lookup cluster sizes) [
  | none ↦ sizes
  | some d ↦ if leb (pos_part d.size) 0 then erase cluster sizes else sizes
]
