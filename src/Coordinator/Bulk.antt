-- ===== src/Coordinator/Bulk.antt =====
-- `resolve_bulk` of ers/resolution_coordinator/services/resolution_coordinator_service.py. `budget` is
-- ERS_COORDINATOR_BULK_REQUEST_TIME_BUDGET.
use entity_resolution_servic.Prelude.{
  ℕ, ◌≡◌, Option, none, some, List, [], ◌∷◌, map, ◌==◌, nat_eq, if◌then◌else◌,
}
use entity_resolution_servic.Domain.{EntityMention, Decision}
use entity_resolution_servic.Effects.{Action, Result, ok, err, resolution_timeout}
use entity_resolution_servic.Coordinator.{ResolutionOutcome}

abbrev pub Resolution : Type 0
Resolution = Decision × ResolutionOutcome

-- The event loop of asyncio: `gather` with return_exceptions, and the same within a time limit, which
-- has no results if the time is over. How the tasks interleave is not restricted.
pub record EventLoop (W : Type 0) : Type 1 where
  pub gather : List (Action W Resolution) → W → List (Result Resolution) × W
  pub wait_for_gather : ℕ → List (Action W Resolution) → W → Option (List (Result Resolution)) × W
  -- What a task may end with, however the others interleave with it.
  pub may_end : Action W Resolution → Result Resolution → Type 0

-- One result for each task, in their order, and each is one that its task may end with.
abbrev pub AreEnds :
    {W : Type 0} → EventLoop W → List (Action W Resolution) → List (Result Resolution) → Type 0
AreEnds l [] [] = Unit
AreEnds l (task ∷ tasks) (r ∷ rs) = l.may_end task r × AreEnds l tasks rs
AreEnds l tasks rs = ⊥

pub record IsEventLoop {W : Type 0} (l : EventLoop W) : Type 0 where
  pub gather_ends :
      (tasks : List (Action W Resolution)) (w : W) → AreEnds l tasks (l.gather tasks w).0
  pub wait_for_gather_ends :
      (n : ℕ) (tasks : List (Action W Resolution)) (w : W) (results : List (Result Resolution))
      → (l.wait_for_gather n tasks w).0 ≡ some results
      → AreEnds l tasks results

module _ {W : Type 0} (l : EventLoop W) (resolve : EntityMention → Action W Resolution)
    (budget : ℕ) where
  abbrev pub tasks_of : List EntityMention → List (Action W Resolution)
  tasks_of mentions = map resolve mentions

  -- The results within the time, or the exception.
  abbrev pub in_time : Option (List (Result Resolution)) → Result (List (Result Resolution))
  in_time none = err resolution_timeout
  in_time (some results) = ok results

  abbrev pub gathered : List (Action W Resolution) → Action W (List (Result Resolution))
  gathered tasks w =
      if budget == 0
      then (let (results, w') = l.gather tasks w in (ok results, w'))
      else let (results, w') = l.wait_for_gather budget tasks w in (in_time results, w')

  unfoldable pub resolve_bulk : List EntityMention → Action W (List (Result Resolution))
  resolve_bulk [] w = (ok [], w)
  resolve_bulk (m ∷ ms) w = gathered (tasks_of (m ∷ ms)) w
