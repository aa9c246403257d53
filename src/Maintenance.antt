-- ===== src/Maintenance.antt =====
-- The maintenance of the cluster sizes: scripts/backfill_cluster_sizes.py and
-- scripts/verify_cluster_sizes.py of src, from a connected database on. A batch size below 0, which
-- writes no batch, is left out.
pub mod Overwriting
pub mod Backfill
pub mod Verify
use entity_resolution_servic.Prelude.{
  ℕ, zero, suc, ◌<◌, String, ◌≡◌, Bool, true, false, not, ◌&&◌, Option, none, some, List, [], ◌∷◌,
  ◌++◌, map, take, drop, length, contains, ◌==◌, string_eq, nat_eq, if◌then◌else◌, All, all,
}
use entity_resolution_servic.Prelude.Int.{ℤ, pos}
use entity_resolution_servic.Dict.{Dict, lookup, put, count}
use entity_resolution_servic.Effects.{
  Action, Result, ok, err, other_error, pure, raise, ◌>>=◌, ◌>>◌,
}
use entity_resolution_servic.Backend.{Backend, answer}
use entity_resolution_servic.Backend.Documents.{State, DecisionDocument, ClusterSizeDocument}
use entity_resolution_servic.DecisionStore.Indexed.{placed_in}

abbrev pub keys : {V : Type 0} → Dict V → List String
keys d = map (λ (k, v). k) d

-- `UpdateOne({"_id": target}, {"$set": {size, updated_at}}, upsert=True)`
pub record SizeSet : Type 0 where
  pub target : String
  pub size : ℕ
  pub now : ℕ

abbrev pub overwritten_all : List SizeSet → Dict ClusterSizeDocument → Dict ClusterSizeDocument
overwritten_all [] sizes = sizes
overwritten_all (o ∷ ops) sizes =
    overwritten_all ops (put o.target (record { size = pos o.size; updated_at = o.now }) sizes)

-- What `{"_id": {"$nin": live}}` does not match.
abbrev pub without_stale : List String → Dict ClusterSizeDocument → Dict ClusterSizeDocument
without_stale live [] = []
without_stale live ((k, d) ∷ rest) =
    let others = without_stale live rest in if contains k live then (k, d) ∷ others else others

abbrev pub stale : List String → Dict ClusterSizeDocument → Dict ClusterSizeDocument
stale live [] = []
stale live ((k, d) ∷ rest) =
    let others = stale live rest in if contains k live then others else (k, d) ∷ others

abbrev pub placed : Dict DecisionDocument → String → ℕ
placed decisions c = count (placed_in c) decisions

-- `$group` by the cluster with a `$sum` of 1: a row for each cluster that occurs, with the number of
-- its decisions, in no particular order.
pub record IsGrouping (decisions : Dict DecisionDocument) (rows : Dict ℕ) : Type 0 where
  pub counts : All (λ (c, n). n ≡ placed decisions c) rows
  pub occurring : (c : String) → 0 < placed decisions c → contains c (keys rows) ≡ true

-- The commands of the scripts.
pub record Scripts (b : Backend) : Type 0 where
  pub group_decisions : Action b.World (Dict ℕ)
  pub bulk_write : List SizeSet → Action b.World (Unit {0})
  pub count_stale : List String → Action b.World ℕ
  pub delete_stale : List String → Action b.World ℕ
  pub find_sizes : Action b.World (Dict ClusterSizeDocument)

pub record IsScripts (b : Backend) (q : Scripts b) : Type 0 where
  pub group_reply :
      (w : b.World)
      → b.fault w ≡ none
      → (rows : Dict ℕ) × (((q.group_decisions w).0 ≡ ok rows)
          × IsGrouping (b.state w).decisions rows)
  pub group_state : (w : b.World) → b.state (q.group_decisions w).1 ≡ b.state w
  pub bulk_reply :
      (ops : List SizeSet) (w : b.World) → (q.bulk_write ops w).0 ≡ answer (b.fault w) tt
  pub bulk_state :
      (ops : List SizeSet) (w : b.World)
      → b.fault w ≡ none
      → b.state (q.bulk_write ops w).1
        ≡ record (b.state w) { cluster_sizes = overwritten_all ops (b.state w).cluster_sizes }
  pub delete_reply :
      (live : List String) (w : b.World)
      → (q.delete_stale live w).0
        ≡ answer (b.fault w) (length (stale live (b.state w).cluster_sizes))
  pub delete_state :
      (live : List String) (w : b.World)
      → b.fault w ≡ none
      → b.state (q.delete_stale live w).1
        ≡ record (b.state w) { cluster_sizes = without_stale live (b.state w).cluster_sizes }
  pub count_reply :
      (live : List String) (w : b.World)
      → (q.count_stale live w).0
        ≡ answer (b.fault w) (length (stale live (b.state w).cluster_sizes))
  pub count_state :
      (live : List String) (w : b.World) → b.state (q.count_stale live w).1 ≡ b.state w
  pub find_reply : (w : b.World) → (q.find_sizes w).0 ≡ answer (b.fault w) (b.state w).cluster_sizes
  pub find_state : (w : b.World) → b.state (q.find_sizes w).1 ≡ b.state w

-- The loop over the rows, which skips an empty id.
abbrev pub add_counts : Dict ℕ → Dict ℕ → Dict ℕ
add_counts [] counts = counts
add_counts ((c, n) ∷ rows) counts = add_counts rows (if c == "" then counts else put c n counts)

abbrev pub build_upsert_ops : ℕ → Dict ℕ → List SizeSet
build_upsert_ops now counts = map (λ (c, n). record { target = c; size = n; now = now }) counts

-- The loop over the entries, which skips an empty id.
abbrev pub projected : Dict ClusterSizeDocument → Dict ℤ → Dict ℤ
projected [] projection = projection
projected ((c, d) ∷ rest) projection =
    projected rest (if c == "" then projection else put c d.size projection)

module _ (b : Backend) (q : Scripts b) where
  open b use {World}

  unfoldable pub aggregate_cluster_counts : Action World (Dict ℕ)
  aggregate_cluster_counts = do rows ← q.group_decisions; pure (add_counts rows [])

  unfoldable pub delete_stale_entries : List String → Bool → Action World ℕ
  delete_stale_entries live_cluster_ids dry_run =
      if dry_run then q.count_stale live_cluster_ids else q.delete_stale live_cluster_ids

  -- The loop over the batches, on fuel: each batch takes one operation at least.
  unfoldable pub write_batches : ℕ → ℕ → List SizeSet → Action World (Unit {0})
  write_batches zero batch_size ops = pure tt
  write_batches (suc fuel) batch_size [] = pure tt
  write_batches (suc fuel) batch_size (o ∷ ops) = do
    q.bulk_write (take batch_size (o ∷ ops))
    write_batches fuel batch_size (drop batch_size (o ∷ ops))

  -- The number of batches divides by the size.
  unfoldable pub write_all : ℕ → List SizeSet → Action World (Unit {0})
  unfolding write_batches
  write_all zero ops = raise other_error
  write_all (suc n) ops = write_batches (length ops) (suc n) ops

  unfoldable pub run_counted : Bool → ℕ → Dict ℕ → Action World (Unit {0})
  unfolding delete_stale_entries write_all
  run_counted dry_run batch_size [] w = (ok tt, w)
  run_counted dry_run batch_size (r ∷ rest) w =
      let (now, w') = b.now w in
      let ops = build_upsert_ops now (r ∷ rest) in
      if dry_run
      then (do delete_stale_entries (keys (r ∷ rest)) true; pure tt) w'
      else (do write_all batch_size ops; delete_stale_entries (keys (r ∷ rest)) false; pure tt) w'

  unfoldable pub run_backfill : Bool → ℕ → Action World (Unit {0})
  unfolding aggregate_cluster_counts run_counted
  run_backfill dry_run batch_size = do
    counts ← aggregate_cluster_counts
    run_counted dry_run batch_size counts

  unfoldable pub read_projection : Action World (Dict ℤ)
  read_projection = do sizes ← q.find_sizes; pure (projected sizes [])

abbrev pub same_ℤ : ℤ → ℤ → Bool
same_ℤ (ℤ.pos m) (ℤ.pos n) = m == n
same_ℤ (ℤ.negsuc m) (ℤ.negsuc n) = m == n
same_ℤ a b = false

-- `expected == actual`, where a missing count is 0.
unfoldable pub is_consistent : Dict ℕ → Dict ℤ → String → Bool
is_consistent ground_truth projection c =
    same_ℤ (elim (lookup c ground_truth) [ none ↦ pos 0 | some n ↦ pos n ])
      (elim (lookup c projection) [ none ↦ pos 0 | some z ↦ z ])

module _ (b : Backend) (q : Scripts b) where
  unfoldable pub verify : Action b.World Bool
  unfolding is_consistent aggregate_cluster_counts read_projection
  verify = do
    ground_truth ← aggregate_cluster_counts b q
    projection ← read_projection b q
    pure (all (is_consistent ground_truth projection) (keys ground_truth ++ keys projection))
