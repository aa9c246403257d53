-- ===== src/Backend.antt =====
-- The services that the program calls and does not implement (MongoDB through pymongo, Redis, the
-- clock, uuid4, SHA-256), as one interface: operations, and the documented behaviour that the code
-- relies on. A command may fail in any world; `fault` says how. What a failed write has left behind
-- is not known. The laws say that nobody else writes while a command runs.
pub mod Documents
pub mod Documented
pub mod Queries
pub mod Order
use Documents.{
  DecisionDocument, LookupRequestRecord, ResolutionRequestRecord, EntityMentionResolutionRequest,
  State, Filter, Update, SizeUpdate,
}
use Documented.{updated, modified_count, resized_all, without_empty}
use entity_resolution_servic.Prelude.{
  ℕ, suc, String, ◌≡◌, Bool, Option, none, some, List, [], ◌∷◌, ◌++◌,
}
use entity_resolution_servic.Prelude.Int.{ℤ, pos}
use entity_resolution_servic.Dict.{Dict, lookup, put, erase}
use entity_resolution_servic.Domain.{UserAction}
use entity_resolution_servic.Effects.{
  MongoError, duplicate_key, Error, pymongo, Result, ok, err, Action,
}

-- A command answers, or raises the fault of its world.
abbrev pub answer {ℓ} : {A : Type ℓ} → Option MongoError → A → Result A
answer none a = ok a
answer (some e) a = err (pymongo e)

-- The commands on a collection by `_id`: `find_one`, `replace_one` with upsert, `insert_one` and
-- `delete_one`.
pub record Collection (W V : Type 0) : Type 0 where
  pub find_one : String → Action W (Option V)
  pub replace_one : String → V → Action W (Unit {0})
  pub insert_one : String → V → Action W (Unit {0})
  pub delete_one : String → Action W (Unit {0})

-- Where a collection lies in the state.
pub record Place (V : Type 0) : Type 0 where
  pub contents : State → Dict V
  pub replaced : Dict V → State → State

abbrev insert_fault {ℓ} : {V : Type ℓ} → Option MongoError → Option V → Option MongoError
insert_fault none none = none
insert_fault none (some _) = some duplicate_key
insert_fault (some e) _ = some e

module _ {W V : Type 0} (state : W → State) (fault : W → Option MongoError) (p : Place V) where
  pub record IsCollection (c : Collection W V) : Type 0 where
    pub find_reply :
        (k : String) (w : W)
        → (c.find_one k w).0 ≡ answer (fault w) (lookup k (p.contents (state w)))
    pub find_state : (k : String) (w : W) → state (c.find_one k w).1 ≡ state w
    pub replace_reply : (k : String) (v : V) (w : W) → (c.replace_one k v w).0 ≡ answer (fault w) tt
    pub replace_state :
        (k : String) (v : V) (w : W)
        → fault w ≡ none
        → state (c.replace_one k v w).1 ≡ p.replaced (put k v (p.contents (state w))) (state w)
    pub insert_reply :
        (k : String) (v : V) (w : W)
        → (c.insert_one k v w).0
          ≡ answer (insert_fault (fault w) (lookup k (p.contents (state w)))) tt
    pub insert_state :
        (k : String) (v : V) (w : W)
        → fault w ≡ none
        → lookup k (p.contents (state w)) ≡ none
        → state (c.insert_one k v w).1 ≡ p.replaced (put k v (p.contents (state w))) (state w)
    pub insert_duplicate :
        (k : String) (v old : V) (w : W)
        → lookup k (p.contents (state w)) ≡ some old
        → state (c.insert_one k v w).1 ≡ state w
    pub delete_reply : (k : String) (w : W) → (c.delete_one k w).0 ≡ answer (fault w) tt
    pub delete_state :
        (k : String) (w : W)
        → fault w ≡ none
        → state (c.delete_one k w).1 ≡ p.replaced (erase k (p.contents (state w))) (state w)

abbrev pub user_actions_place : Place UserAction
user_actions_place = record {
  contents = λ s. s.user_actions;
  replaced = λ d s. record s { user_actions = d };
}

abbrev pub requests_place : Place ResolutionRequestRecord
requests_place = record { contents = λ s. s.requests; replaced = λ d s. record s { requests = d } }

abbrev pub lookup_states_place : Place LookupRequestRecord
lookup_states_place = record {
  contents = λ s. s.lookup_states;
  replaced = λ d s. record s { lookup_states = d };
}

pub record Backend : Type 1 where
  pub World : Type 0
  pub state : World → State
  pub fault : World → Option MongoError
  -- SHA256ContentHasher.hash, datetime.now(UTC), str(uuid4())
  pub sha256 : String → String
  pub now : World → ℕ × World
  pub uuid4 : World → String × World
  -- the decisions collection
  pub find_decision : String → Action World (Option DecisionDocument)
  pub find_one_and_update : String → Filter → Update → Bool → Action World (Option DecisionDocument)
  pub update_one : String → Filter → Update → Action World ℕ
  -- the cluster_sizes collection
  pub bulk_write : List SizeUpdate → Action World (Unit {0})
  pub delete_empty : String → Action World (Unit {0})
  pub user_actions : Collection World UserAction
  pub requests : Collection World ResolutionRequestRecord
  pub lookup_states : Collection World LookupRequestRecord
  -- `model_dump_json` of the request does not raise
  pub serializes : EntityMentionResolutionRequest → Bool
  -- LPUSH of the request as JSON, which answers the length of the channel
  pub lpush : EntityMentionResolutionRequest → Action World ℕ
  -- Whether the event of the key is set within the time budget. The world moves on meanwhile: what
  -- the other tasks do is not restricted.
  pub wait_for : String → ℕ → World → Bool × World
  -- The callback that rings the coordinators of a key.
  pub on_outcome_stored : String → Action World (Unit {0})

pub record IsBackend (b : Backend) : Type 0 where
  pub now_state : (w : b.World) → b.state (b.now w).1 ≡ b.state w
  pub uuid4_state : (w : b.World) → b.state (b.uuid4 w).1 ≡ b.state w
  pub find_reply :
      (id : String) (w : b.World)
      → (b.find_decision id w).0 ≡ answer (b.fault w) (lookup id (b.state w).decisions)
  pub find_state : (id : String) (w : b.World) → b.state (b.find_decision id w).1 ≡ b.state w
  pub update_reply :
      (id : String) (f : Filter) (u : Update) (upsert : Bool) (w : b.World)
      → (b.find_one_and_update id f u upsert w).0
        ≡ answer (b.fault w) (updated id f u upsert (b.state w).decisions).0
  pub update_state :
      (id : String) (f : Filter) (u : Update) (upsert : Bool) (w : b.World)
      → b.fault w ≡ none
      → b.state (b.find_one_and_update id f u upsert w).1
        ≡ record (b.state w) { decisions = (updated id f u upsert (b.state w).decisions).1 }
  pub update_one_reply :
      (id : String) (f : Filter) (u : Update) (w : b.World)
      → (b.update_one id f u w).0
        ≡ answer (b.fault w) (modified_count (updated id f u Bool.false (b.state w).decisions).0)
  pub update_one_state :
      (id : String) (f : Filter) (u : Update) (w : b.World)
      → b.fault w ≡ none
      → b.state (b.update_one id f u w).1
        ≡ record (b.state w) { decisions = (updated id f u Bool.false (b.state w).decisions).1 }
  pub bulk_reply :
      (us : List SizeUpdate) (w : b.World) → (b.bulk_write us w).0 ≡ answer (b.fault w) tt
  pub bulk_state :
      (us : List SizeUpdate) (w : b.World)
      → b.fault w ≡ none
      → b.state (b.bulk_write us w).1
        ≡ record (b.state w) { cluster_sizes = resized_all us (b.state w).cluster_sizes }
  pub delete_reply : (c : String) (w : b.World) → (b.delete_empty c w).0 ≡ answer (b.fault w) tt
  pub delete_state :
      (c : String) (w : b.World)
      → b.fault w ≡ none
      → b.state (b.delete_empty c w).1
        ≡ record (b.state w) { cluster_sizes = without_empty c (b.state w).cluster_sizes }
  -- The request channel is a queue, the oldest request first. An answer of 0 promises nothing: it
  -- means that the channel did not accept the request.
  pub push_state :
      (r : EntityMentionResolutionRequest) (w : b.World) (n : ℕ)
      → (b.lpush r w).0 ≡ ok (suc n)
      → b.state (b.lpush r w).1
        ≡ record (b.state w) { request_channel = (b.state w).request_channel ++ r ∷ [] }
  -- Pushing writes to Redis alone, whatever it answers.
  pub push_collections :
      (r : EntityMentionResolutionRequest) (w : b.World)
      → b.state (b.lpush r w).1
        ≡ record (b.state w) { request_channel = (b.state (b.lpush r w).1).request_channel }
  -- Ringing sets an event and publishes a notification; it writes no collection.
  pub callback_state :
      (key : String) (w : b.World) → b.state (b.on_outcome_stored key w).1 ≡ b.state w
  pub user_actions_laws : IsCollection b.state b.fault user_actions_place b.user_actions
  pub requests_laws : IsCollection b.state b.fault requests_place b.requests
  pub lookup_states_laws : IsCollection b.state b.fault lookup_states_place b.lookup_states

-- A stretch of time in which no command on MongoDB fails.
pub record IsHealthy (b : Backend) : Type 0 where
  pub no_fault : (w : b.World) → b.fault w ≡ none
