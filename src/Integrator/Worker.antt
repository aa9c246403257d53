-- ===== src/Integrator/Worker.antt =====
-- What the polling loop of `OutcomeIntegrationWorker` does over a stream of events.
use entity_resolution_servic.Prelude.{
  All, ℕ, zero, suc, ◌+◌, ap, length, ◌≤◌, ◌*◌, min, ◌≡◌, refl, Bool, Option, some, List, [], ◌∷◌,
  arith,
}
use entity_resolution_servic.Backend.{Backend, IsBackend, IsHealthy}
use entity_resolution_servic.DecisionStore.ClusterSizes.{ClusterSizeIndex, mongo_cluster_size_index}
use entity_resolution_servic.DecisionStore.Indexed.{IsSized}
use entity_resolution_servic.Integrator.{
  EntityMentionResolutionResponse, ListenerEvent, message, disconnected, process, run,
  backoff_initial, backoff_cap,
}
use entity_resolution_servic.Integrator.Outcomes.{integrate_outcome-IsSized}

-- The messages of a stream, in order.
abbrev pub messages : List ListenerEvent → List EntityMentionResolutionResponse
messages [] = []
messages (message m ∷ rest) = m ∷ messages rest
messages (disconnected factor ∷ rest) = messages rest

-- The random factors of the pauses, in thousandths.
abbrev pub factors : List ListenerEvent → List ℕ
factors [] = []
factors (message m ∷ rest) = factors rest
factors (disconnected factor ∷ rest) = factor ∷ factors rest

times_suc : (m n : ℕ) → suc m * n ≡ m * n + n
times_suc m n = omega arith

times_bounds : (n f : ℕ) → 500 ≤ f → f ≤ 1500 → (500 * n ≤ n * f) × (n * f ≤ 1500 * n)
times_bounds zero f low high = (omega arith, omega arith)
times_bounds (suc n) f low high =
    let (lower, upper) = times_bounds n f low high in
    (omega (arith, lower, low, times_suc n f), omega (arith, upper, high, times_suc n f))

module _ (b : Backend) (index : Option (ClusterSizeIndex b.World)) (max_candidates : ℕ)
    (has_callback : Bool) where
  open b use {World}

  -- One message after the other.
  abbrev pub process_all : List EntityMentionResolutionResponse → World → World
  process_all [] w = w
  process_all (m ∷ rest) w = process_all rest (process b index max_candidates has_callback m w)

  -- However often the connection is lost, the worker processes every message that the listener
  -- yields, once and in order, and pauses once for each loss, if the backoff that it starts with is
  -- between the initial one and its cap; and each pause is between half a second and 45 seconds if
  -- every random factor is between 0.5 and 1.5.
  pub run-process_all :
      (events : List ListenerEvent) (backoff : ℕ) (w : World)
      → backoff_initial ≤ backoff
      → backoff ≤ backoff_cap
      → All (λ f. (500 ≤ f) × (f ≤ 1500)) (factors events)
      → let (w', pauses) = run b index max_candidates has_callback events backoff w in
        (w' ≡ process_all (messages events) w)
        × (length pauses ≡ length (factors events))
        × All (λ p. (500 ≤ p) × (p ≤ 45000)) pauses
  unfolding run
  run-process_all [] backoff w low high drawn = (refl, refl, tt)
  run-process_all (message m ∷ rest) backoff w low high drawn =
      run-process_all rest backoff_initial (process b index max_candidates has_callback m w)
        (omega arith) (omega arith) drawn
  run-process_all (disconnected factor ∷ rest) backoff w low high ((least, most), drawn) =
      let (same, as_many, bounded) =
        run-process_all rest (min (backoff * 2) backoff_cap) w (omega (arith, low, high))
          (omega (arith, low, high)) drawn in
      let (lower, upper) = times_bounds backoff factor least most in
      (same, ap suc as_many, ((omega (arith, lower, low), omega (arith, upper, high)), bounded))

module _ (b : Backend) (laws : IsBackend b) (healthy : IsHealthy b) (max_candidates : ℕ)
    (has_callback : Bool) where
  open b use {World, state}

  -- Over any stream of events the worker keeps the size of every cluster equal to the number of
  -- decisions placed in it.
  pub run-IsSized :
      (events : List ListenerEvent) (backoff : ℕ) (w : World)
      → IsSized (state w)
      → IsSized (
          state
            (run b
              (some (mongo_cluster_size_index b))
              max_candidates
              has_callback
              events
              backoff
              w).0)
  unfolding run process
  run-IsSized [] backoff w sized = sized
  run-IsSized (message m ∷ rest) backoff w sized =
      run-IsSized rest backoff_initial _
        (integrate_outcome-IsSized b laws healthy max_candidates has_callback m w sized)
  run-IsSized (disconnected factor ∷ rest) backoff w sized =
      run-IsSized rest (min (backoff * 2) backoff_cap) w sized
