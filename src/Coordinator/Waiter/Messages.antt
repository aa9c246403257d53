-- ===== src/Coordinator/Waiter/Messages.antt =====
-- What a message of the subscription does for the tasks that wait, whatever happens after it.
use entity_resolution_servic.Prelude.{
  arith, ℕ, suc, ◌+◌, ◌≤◌, ◌<◌, String, ◌≡◌, refl, ◌∙◌, Bool-cases, true, Option, none, some, inl,
  inr, List, [], ◌∷◌, length, All, All-weaken, ◌==◌, nat_eq, string_eq, if◌then◌else◌,
}
use entity_resolution_servic.Coordinator.Waiter.{
  Holder, Waiter, get_or_create, got, notify, rings, finish,
}
use entity_resolution_servic.Coordinator.Waiter.Shared.{Reach-IsShared}
use entity_resolution_servic.Coordinator.Waiter.Waking.{notify-Wakes}
use entity_resolution_servic.Coordinator.Waiter.Subscriber.{
  SubscriberEvent, connected, skipped, message, connection_lost, exhausted, cancelled, task_starts,
  task_ends, Subscriber, run, IsRunning, run-IsRunning,
}

-- How often the connection is lost before the worker stops.
abbrev pub losses : List SubscriberEvent → ℕ
losses [] = 0
losses (connected ∷ rest) = losses rest
losses (skipped ∷ rest) = losses rest
losses (message key ∷ rest) = losses rest
losses (connection_lost ∷ rest) = suc (losses rest)
losses (exhausted ∷ rest) = 0
losses (cancelled ∷ rest) = 0
losses (task_starts task key ∷ rest) = losses rest
losses (task_ends task ∷ rest) = losses rest

run_slept :
    (es : List SubscriberEvent) (s : Subscriber)
    → length (run es s).slept ≡ losses es + length s.slept
unfolding run
run_slept [] s = omega arith
run_slept (connected ∷ rest) s = run_slept rest _
run_slept (skipped ∷ rest) s = run_slept rest s
run_slept (message key ∷ rest) s = run_slept rest _
run_slept (connection_lost ∷ rest) s = run_slept rest _ ∙ omega arith
run_slept (exhausted ∷ rest) s = omega arith
run_slept (cancelled ∷ rest) s = omega arith
run_slept (task_starts task key ∷ rest) s = run_slept rest _
run_slept (task_ends task ∷ rest) s = run_slept rest _

-- An event that exists and is set.
abbrev IsRung : ℕ → Waiter → Type 0
IsRung e s = (s.rung e ≡ true) × (e < s.next)

got-IsRung :
    (e task : ℕ) (key : String) (s : Waiter) (o : Option ℕ)
    → IsRung e s
    → IsRung e (got task key s o).1
got-IsRung e task key s none (set, old) = (ground (arith, set, old), omega (arith, old))
got-IsRung e task key s (some x) set = set

rings-IsRung : (e : ℕ) (s : Waiter) (o : Option ℕ) → IsRung e s → IsRung e (rings s o).1
rings-IsRung e s none set = set
rings-IsRung e s (some x) (set, old) = (ground (arith, set), old)

run-IsRung :
    (e : ℕ) (es : List SubscriberEvent) (s : Subscriber)
    → IsRung e s.waiter
    → IsRung e (run es s).waiter
unfolding run notify get_or_create finish
run-IsRung e [] s set = set
run-IsRung e (connected ∷ rest) s set = run-IsRung e rest _ set
run-IsRung e (skipped ∷ rest) s set = run-IsRung e rest s set
run-IsRung e (message key ∷ rest) s set =
    run-IsRung e rest _ (rings-IsRung e s.waiter (s.waiter.events key) set)
run-IsRung e (connection_lost ∷ rest) s set = run-IsRung e rest _ set
run-IsRung e (exhausted ∷ rest) s set = set
run-IsRung e (cancelled ∷ rest) s set = set
run-IsRung e (task_starts task key ∷ rest) s set =
    run-IsRung e rest _ (got-IsRung e task key s.waiter (s.waiter.events key) set)
run-IsRung e (task_ends task ∷ rest) s set = run-IsRung e rest _ set

All-pair :
    (p q : Holder → Type 0) (hs : List Holder) → All p hs → All q hs → All (λ h. p h × q h) hs
All-pair p q [] h k = tt
All-pair p q (x ∷ hs) (h, hs') (k, ks) = ((h, k), All-pair p q hs hs' ks)

notify-next : (key : String) (s : Waiter) → (notify key s).1.next ≡ s.next
unfolding notify
notify-next key s = rings_next (s.events key)
  where
    rings_next : (o : Option ℕ) → (rings s o).1.next ≡ s.next
    rings_next none = refl
    rings_next (some e) = refl

-- From any state that the event loop can reach, with a backoff between 1 and 30 seconds: when the
-- subscription yields a message, then whatever tasks start and end and however often the connection
-- is lost afterwards, every task that was waiting on the key of the message has its event set; and
-- the worker has slept once for each loss until it stops, each time between 1 and 30 seconds.
pub run_wakes :
    (key : String) (es : List SubscriberEvent) (s : Subscriber)
    → IsRunning s
    → let t = run (message key ∷ es) s in
      All (λ h. (if key == h.key then t.waiter.rung h.event else true) ≡ true) s.waiter.holders
      × (length t.slept ≡ losses es + length s.slept)
      × All (λ n. (1 ≤ n) × (n ≤ 30)) t.slept
unfolding run
run_wakes key es s running =
    let shared = Reach-IsShared running.reached in
    let (found, woken) = notify-Wakes running.reached key in
    (
      All-weaken _ _
          (λ h (now, mine). elim (Bool-cases (key == h.key)) [
            | inl same ↦
                let old = shared.created h.key h.event mine in
                let (set, here) =
                  run-IsRung h.event es (record s { waiter = (notify key s.waiter).1 })
                    (ground (arith, now, same), omega (arith, old, notify-next key s.waiter)) in
                ground (arith, same, set)
            | inr other ↦ ground (arith, other)
          ])
          s.waiter.holders (All-pair _ _ s.waiter.holders woken shared.held),
      run_slept (message key ∷ es) s,
      (run-IsRunning (message key ∷ es) s running).bounded,
    )
