-- ===== src/Tests/Memory.antt =====
-- A backend that keeps everything in memory and never fails: the laws of the interface can hold.
use entity_resolution_servic.Prelude.{
  suc, refl, false, true, Option, none, some, [], ◌∷◌, ◌++◌, length, arith,
}
use entity_resolution_servic.Dict.{lookup, put, erase}
use entity_resolution_servic.Effects.{Result, pymongo, duplicate_key, ok, err}
use entity_resolution_servic.Backend.{
  Backend, IsBackend, IsHealthy, Collection, IsCollection, Place, user_actions_place,
  requests_place, lookup_states_place,
}
use entity_resolution_servic.Backend.Documents.{State}
use entity_resolution_servic.Backend.Documented.{
  updated, modified_count, resized_all, without_empty,
}

abbrev pub inserted {ℓ} : {V : Type ℓ} → Option V → State → State → Result (Unit {0}) × State
inserted none s s' = (ok tt, s')
inserted (some _) s s' = (err (pymongo duplicate_key), s)

module _ {V : Type 0} (p : Place V) where
  abbrev pub collection : Collection State V
  collection = record {
    find_one = λ k s. (ok (lookup k (p.contents s)), s);
    replace_one = λ k v s. (ok tt, p.replaced (put k v (p.contents s)) s);
    insert_one =
        λ k v s. inserted (lookup k (p.contents s)) s (p.replaced (put k v (p.contents s)) s);
    delete_one = λ k s. (ok tt, p.replaced (erase k (p.contents s)) s);
  }

  collection-IsCollection : IsCollection (λ s. s) (λ s. none) p collection
  collection-IsCollection = record {
    find_reply = λ k w. refl;
    find_state = λ k w. refl;
    replace_reply = λ k v w. refl;
    replace_state = λ k v w h. refl;
    insert_reply = λ k v w. ground arith;
    insert_state = λ k v w h e. rw e;
    insert_duplicate = λ k v old w e. rw e;
    delete_reply = λ k w. refl;
    delete_state = λ k w h. refl;
  }

abbrev pub memory : Backend
memory = record {
  World = State;
  state = λ s. s;
  fault = λ s. none;
  sha256 = λ s. s;
  now = λ s. (1000, s);
  uuid4 = λ s. ("b7e2", s);
  find_decision = λ id s. (ok (lookup id s.decisions), s);
  find_one_and_update = λ id f u upsert s. (
    ok (updated id f u upsert s.decisions).0,
    record s { decisions = (updated id f u upsert s.decisions).1 },
  );
  update_one = λ id f u s. (
    ok (modified_count (updated id f u false s.decisions).0),
    record s { decisions = (updated id f u false s.decisions).1 },
  );
  bulk_write = λ us s. (ok tt, record s { cluster_sizes = resized_all us s.cluster_sizes });
  delete_empty = λ c s. (ok tt, record s { cluster_sizes = without_empty c s.cluster_sizes });
  user_actions = collection user_actions_place;
  requests = collection requests_place;
  lookup_states = collection lookup_states_place;
  serializes = λ r. true;
  lpush = λ r s. (
    ok (suc (length s.request_channel)),
    record s { request_channel = s.request_channel ++ r ∷ [] },
  );
  wait_for = λ key budget s. (false, s);
  on_outcome_stored = λ key s. (ok tt, s);
}

pub memory-IsBackend : IsBackend memory
memory-IsBackend = record {
  now_state = λ w. refl;
  uuid4_state = λ w. refl;
  find_reply = λ id w. refl;
  find_state = λ id w. refl;
  update_reply = λ id f u upsert w. refl;
  update_state = λ id f u upsert w h. refl;
  update_one_reply = λ id f u w. refl;
  update_one_state = λ id f u w h. refl;
  bulk_reply = λ us w. refl;
  bulk_state = λ us w h. refl;
  delete_reply = λ c w. refl;
  delete_state = λ c w h. refl;
  push_state = λ r w n h. refl;
  push_collections = λ r w. refl;
  callback_state = λ key w. refl;
  user_actions_laws = collection-IsCollection user_actions_place;
  requests_laws = collection-IsCollection requests_place;
  lookup_states_laws = collection-IsCollection lookup_states_place;
}

pub memory-IsHealthy : IsHealthy memory
memory-IsHealthy = record { no_fault = λ w. refl }

-- A collection with nothing in it.
abbrev pub empty_state : State
empty_state = record {
  decisions = [];
  cluster_sizes = [];
  user_actions = [];
  requests = [];
  lookup_states = [];
  request_channel = [];
}
