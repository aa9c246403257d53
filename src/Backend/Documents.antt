-- ===== src/Backend/Documents.antt =====
-- The documents that the service keeps in its MongoDB collections and Redis channel, and the filter
-- and update documents that the repositories build. A decision document lacks `updated_at` until its
-- placement moves; the two review fields may be missing on old documents.
use entity_resolution_servic.Prelude.{ℕ, String, Bool, Option, List}
use entity_resolution_servic.Prelude.Int.{ℤ}
use entity_resolution_servic.Dict.{Dict}
use entity_resolution_servic.Domain.{
  EntityMentionIdentifier, ClusterReference, EntityMention, UserAction,
}

pub record DecisionDocument : Type 0 where
  pub about_entity_mention : EntityMentionIdentifier
  pub current_placement : ClusterReference
  pub candidates : List ClusterReference
  pub created_at : ℕ
  pub updated_at : Option ℕ
  pub previous_review_count : Option ℕ
  pub reviewed_since_placement : Option Bool

pub record ClusterSizeDocument : Type 0 where
  pub size : ℤ
  pub updated_at : ℕ

pub record ResolutionRequestRecord : Type 0 where
  pub mention : EntityMention
  pub content_hash : String
  pub received_at : ℕ
  pub parsed_representation : String

pub record LookupRequestRecord : Type 0 where
  pub source_id : String
  pub last_snapshot : ℕ
  pub updated_at : ℕ

pub record EntityMentionResolutionRequest : Type 0 where
  pub entity_mention : Option EntityMention
  pub ere_request_id : String
  pub timestamp : Option ℕ
  pub proposed_cluster_ids : List String
  pub excluded_cluster_ids : List String

-- Everything that the service keeps outside its process.
pub record State : Type 0 where
  pub decisions : Dict DecisionDocument
  pub cluster_sizes : Dict ClusterSizeDocument
  pub user_actions : Dict UserAction
  pub requests : Dict ResolutionRequestRecord
  pub lookup_states : Dict LookupRequestRecord
  pub request_channel : List EntityMentionResolutionRequest

pub data TimeField : Type 0 where
  created_at updated_at : TimeField

-- A filter document without its `_id`, which every filter of the program pins.
pub data Filter : Type 0 where
  anything : Filter
  before : TimeField → ℕ → Filter
  is_null : TimeField → Filter
  not_reviewed : Filter
  both either : Filter → Filter → Filter

-- One entry of a `$set`.
pub data Assignment : Type 0 where
  about_entity_mention : EntityMentionIdentifier → Assignment
  current_placement : ClusterReference → Assignment
  candidates : List ClusterReference → Assignment
  updated_at : ℕ → Assignment
  reviewed_since_placement : Bool → Assignment

-- `{"$setOnInsert": …}`, `{"$set": …}`, and `{"$inc": {previous_review_count: 1}, "$set": …}`.
pub data Update : Type 0 where
  set_on_insert : DecisionDocument → Update
  set : List Assignment → Update
  inc_reviews : List Assignment → Update

-- `UpdateOne({"_id": target}, {"$inc": {size: delta}, "$set": {updated_at: now}}, upsert)`
pub record SizeUpdate : Type 0 where
  pub target : String
  pub delta : ℤ
  pub now : ℕ
  pub upsert : Bool
