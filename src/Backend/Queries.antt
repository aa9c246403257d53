-- ===== src/Backend/Queries.antt =====
-- The queries on the decisions collection: conditions as the code writes them, what they mean to the
-- engine, and `find`, `count_documents` and the aggregation that joins the cluster sizes.
use entity_resolution_servic.Prelude.{
  ℕ, ltb, String, ◌≡◌, Bool, true, false, ◌&&◌, ◌||◌, not, Option, none, some, List, [], ◌∷◌, map,
  take, length, ◌==◌, string_eq, nat_eq, if◌then◌else◌,
}
use entity_resolution_servic.Prelude.Int.{pos_part}
use entity_resolution_servic.Dict.{Dict, lookup}
use entity_resolution_servic.Domain.{EntityMentionIdentifier}
use entity_resolution_servic.Effects.{Action}
use entity_resolution_servic.Backend.{Backend, answer}
use entity_resolution_servic.Backend.Documents.{
  DecisionDocument, ClusterSizeDocument, ResolutionRequestRecord,
}
use entity_resolution_servic.Cursor.{
  SortField, confidence, created, updated, cluster_size, SortValue, absent, number, instant, text,
}
use entity_resolution_servic.Paging.{filter, sort}

pub data Condition : Type 0 where
  everything : Condition
  -- {field: value}, where null also matches a missing field
  field_is : SortField → SortValue → Condition
  -- {field: {$gt: value}}, or $lt
  field_beyond : Bool → SortField → SortValue → Condition
  id_beyond : Bool → String → Condition
  -- {updated_at: {$exists: true}}
  was_updated : Condition
  source_is entity_type_is cluster_is : String → Condition
  confidence_at_least confidence_at_most similarity_at_least similarity_at_most : ℕ → Condition
  mention_in : List EntityMentionIdentifier → Condition
  -- {previous_review_count: {$gt: 0}}, or {$in: [0, null]}
  ever_reviewed : Bool → Condition
  -- {reviewed_since_placement: true}, or {$in: [false, null]}
  reviewed : Bool → Condition
  both either : Condition → Condition → Condition

-- A decision document with its id, and the `cluster_size` that only the aggregation adds.
pub record Row : Type 0 where
  pub id : String
  pub document : DecisionDocument
  pub size : ℕ

-- The order of BSON types: null, numbers, texts, dates.
abbrev pub kind : SortValue → ℕ
kind absent = 0
kind (number n) = 1
kind (text s) = 2
kind (instant t) = 3

abbrev pub amount : SortValue → ℕ
amount absent = 0
amount (number n) = n
amount (text s) = 0
amount (instant t) = t

abbrev pub field_value : SortField → Row → SortValue
field_value confidence r = number r.document.current_placement.confidence_score
field_value created r = instant r.document.created_at
field_value updated r = elim r.document.updated_at [ none ↦ absent | some t ↦ instant t ]
field_value cluster_size r = number r.size

abbrev pub value_before : SortValue → SortValue → Bool
value_before v v' =
    if ltb (kind v) (kind v')
    then true
    else if ltb (kind v') (kind v)
    then false
    else ltb (amount v) (amount v')

-- Documents hold no text in a sort field, so a text equals no value of a row.
abbrev pub same_value : SortValue → SortValue → Bool
same_value v v' = kind v == kind v' && amount v == amount v'

-- Of an engine: the place of an id in its order of texts (the ids are digests of one length, so
-- the numbers that they write are in the order of the texts), and whether `$gt` and `$lt` only
-- match values of the type of their operand, as MongoDB documents.
pub record Engine : Type 0 where
  pub rank : String → ℕ
  pub brackets : Bool

module _ (e : Engine) where
  abbrev comparable : SortValue → SortValue → Bool
  comparable v v' = not e.brackets || kind v == kind v'

  abbrev pub is_beyond : Bool → SortValue → SortValue → Bool
  is_beyond ascending v v' =
      comparable v v' && (if ascending then value_before v v' else value_before v' v)

  -- The order of a listing: by the field, then by the id, both in one direction.
  abbrev pub key_before : SortValue → ℕ → SortValue → ℕ → Bool
  key_before v n v' n' =
      if value_before v v' then true else if value_before v' v then false else ltb n n'

  abbrev pub row_before : Bool → SortField → Row → Row → Bool
  row_before ascending field r r' =
      if ascending
      then key_before (field_value field r) (e.rank r.id) (field_value field r') (e.rank r'.id)
      else key_before (field_value field r') (e.rank r'.id) (field_value field r) (e.rank r.id)

  abbrev same_mention : EntityMentionIdentifier → EntityMentionIdentifier → Bool
  same_mention i j =
      i.source_id == j.source_id && (i.request_id == j.request_id && i.entity_type == j.entity_type)

  abbrev is_one_of : List EntityMentionIdentifier → EntityMentionIdentifier → Bool
  is_one_of [] j = false
  is_one_of (i ∷ is) j = same_mention i j || is_one_of is j

  abbrev count_of : Option ℕ → ℕ
  count_of none = 0
  count_of (some n) = n

  abbrev flag_of : Option Bool → Bool
  flag_of none = false
  flag_of (some f) = f

  abbrev is_set : Option ℕ → Bool
  is_set none = false
  is_set (some t) = true

  unfoldable pub holds : Condition → Row → Bool
  holds everything r = true
  holds (field_is f v) r = same_value v (field_value f r)
  holds (field_beyond ascending f v) r = is_beyond ascending v (field_value f r)
  holds (id_beyond ascending i) r =
      if ascending then ltb (e.rank i) (e.rank r.id) else ltb (e.rank r.id) (e.rank i)
  holds was_updated r = is_set r.document.updated_at
  holds (source_is s) r = r.document.about_entity_mention.source_id == s
  holds (entity_type_is t) r = r.document.about_entity_mention.entity_type == t
  holds (cluster_is c) r = r.document.current_placement.cluster_id == c
  holds (confidence_at_least n) r = not (ltb r.document.current_placement.confidence_score n)
  holds (confidence_at_most n) r = not (ltb n r.document.current_placement.confidence_score)
  holds (similarity_at_least n) r = not (ltb r.document.current_placement.similarity_score n)
  holds (similarity_at_most n) r = not (ltb n r.document.current_placement.similarity_score)
  holds (mention_in is) r = is_one_of is r.document.about_entity_mention
  holds (ever_reviewed true) r = ltb 0 (count_of r.document.previous_review_count)
  holds (ever_reviewed false) r = not (ltb 0 (count_of r.document.previous_review_count))
  holds (reviewed true) r = flag_of r.document.reviewed_since_placement
  holds (reviewed false) r = not (flag_of r.document.reviewed_since_placement)
  holds (both c c') r = holds c r && holds c' r
  holds (either c c') r = holds c r || holds c' r

  -- `find(query).sort(…).limit(n)`
  abbrev pub selected : Condition → Bool → SortField → ℕ → List Row → List Row
  selected query ascending field n rows =
      take n (sort (row_before ascending field) (filter (holds query) rows))

abbrev pub rows_of : Dict DecisionDocument → List Row
rows_of docs = map (λ (i, d). record { id = i; document = d; size = 0 }) docs

-- `$lookup`, and `$ifNull` with 0. A size is never negative: it counts decisions.
abbrev size_of : Option ClusterSizeDocument → ℕ
size_of none = 0
size_of (some d) = pos_part d.size

abbrev pub joined : Dict ClusterSizeDocument → Row → Row
joined sizes r = record r { size = size_of (lookup r.document.current_placement.cluster_id sizes) }

abbrev pub restricted : Engine → Option Condition → List Row → List Row
restricted e none rows = rows
restricted e (some c) rows = filter (holds e c) rows

-- The `_id` of a request record of the source.
abbrev pub request_of : String → Dict ResolutionRequestRecord → Option String
request_of source_id [] = none
request_of source_id ((k, r) ∷ rest) =
    if r.mention.identified_by.source_id == source_id then some k else request_of source_id rest

module _ (b : Backend) where
  pub record Queries : Type 0 where
    pub engine : Engine
    pub find : Condition → Bool → SortField → ℕ → Action b.World (List Row)
    pub count_documents : Condition → Action b.World ℕ
    -- `find_one({"identifiedBy.source_id": …}, projection={"_id": 1})`
    pub find_request_of : String → Action b.World (Option String)
    -- The pipeline: match, join the sizes, match the cursor, sort, limit.
    pub aggregate : Condition → Option Condition → Bool → ℕ → Action b.World (List Row)

  pub record IsQueries (q : Queries) : Type 0 where
    pub find_reply :
        (c : Condition) (ascending : Bool) (f : SortField) (n : ℕ) (w : b.World)
        → (q.find c ascending f n w).0
          ≡ answer (b.fault w) (selected q.engine c ascending f n (rows_of (b.state w).decisions))
    pub find_state :
        (c : Condition) (ascending : Bool) (f : SortField) (n : ℕ) (w : b.World)
        → b.state (q.find c ascending f n w).1 ≡ b.state w
    pub count_reply :
        (c : Condition) (w : b.World)
        → (q.count_documents c w).0
          ≡ answer (b.fault w) (length (filter (holds q.engine c) (rows_of (b.state w).decisions)))
    pub count_state : (c : Condition) (w : b.World) → b.state (q.count_documents c w).1 ≡ b.state w
    pub request_reply :
        (source_id : String) (w : b.World)
        → (q.find_request_of source_id w).0
          ≡ answer (b.fault w) (request_of source_id (b.state w).requests)
    pub request_state :
        (source_id : String) (w : b.World) → b.state (q.find_request_of source_id w).1 ≡ b.state w
    pub aggregate_reply :
        (c : Condition) (cursor : Option Condition) (ascending : Bool) (n : ℕ) (w : b.World)
        → (q.aggregate c cursor ascending n w).0
          ≡ answer (b.fault w) (
              take n (
                sort (row_before q.engine ascending cluster_size) (
                  restricted q.engine cursor (
                    map
                      (joined (b.state w).cluster_sizes)
                      (filter (holds q.engine c) (rows_of (b.state w).decisions))))))
    pub aggregate_state :
        (c : Condition) (cursor : Option Condition) (ascending : Bool) (n : ℕ) (w : b.World)
        → b.state (q.aggregate c cursor ascending n w).1 ≡ b.state w
