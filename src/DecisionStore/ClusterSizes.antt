-- ===== src/DecisionStore/ClusterSizes.antt =====
-- The port `ClusterSizeIndex` (ers/resolution_decision_store/domain/cluster_size_index.py) and its
-- MongoDB adapter, `MongoClusterSizeIndex`.
use entity_resolution_servic.Prelude.{
  ℕ, String, Bool, true, false, Option, none, some, List, [], ◌∷◌, ◌++◌, ◌==◌, string_eq,
  if◌then◌else◌,
}
use entity_resolution_servic.Prelude.Int.{pos, neg}
use entity_resolution_servic.Effects.{Action, ok, pure, ◌>>◌}
use entity_resolution_servic.Backend.{Backend}
use entity_resolution_servic.Backend.Documents.{SizeUpdate}

pub record ClusterSizeIndex (W : Type 0) : Type 0 where
  pub shift : Option String → Option String → ℕ → Action W (Unit {0})

-- `from_cluster is not None and from_cluster == to_cluster`
abbrev pub same_cluster : Option String → Option String → Bool
same_cluster (some a) (some c) = a == c
same_cluster _ _ = false

abbrev pub decrements : Option String → ℕ → ℕ → List SizeUpdate
decrements none by_count now = []
decrements (some a) by_count now =
    record { target = a; delta = neg by_count; now = now; upsert = false } ∷ []

abbrev pub increments : Option String → ℕ → ℕ → List SizeUpdate
increments none by_count now = []
increments (some a) by_count now =
    record { target = a; delta = pos by_count; now = now; upsert = true } ∷ []

module _ (b : Backend) where
  open b use {World}

  unfoldable pub write_ops : List SizeUpdate → Option String → Action World (Unit {0})
  write_ops [] from_cluster = pure tt
  write_ops (op ∷ ops) from_cluster = do
    b.bulk_write (op ∷ ops)
    elim from_cluster [ none ↦ pure tt | some a ↦ b.delete_empty a ]

  unfoldable pub shift : Option String → Option String → ℕ → Action World (Unit {0})
  unfolding write_ops
  shift from_cluster to_cluster by_count w =
      if same_cluster from_cluster to_cluster
      then (ok tt, w)
      else let (t, w') = b.now w in
        write_ops (decrements from_cluster by_count t ++ increments to_cluster by_count t)
          from_cluster w'

  abbrev pub mongo_cluster_size_index : ClusterSizeIndex World
  mongo_cluster_size_index = record { shift = shift }
