-- ===== src/Coordinator/Waiter/Subscriber.antt =====
-- `run` of ers/resolution_coordinator/entrypoints/notification_subscriber_worker.py over what happens
-- while it runs. The closing of the connection suppresses every exception and is left out.
use entity_resolution_servic.Prelude.{
  ℕ, ◌*◌, ◌≤◌, min, String, Bool, true, false, List, [], ◌∷◌, All, arith,
}
use entity_resolution_servic.Coordinator.Waiter.{
  Waiter, get_or_create, notify, finish, starts, notified, ends, Reach, later,
}

-- What the subscription yields, and what the other tasks do in between.
pub data SubscriberEvent : Type 0 where
  connected : SubscriberEvent
  -- a frame that is no message, or whose payload is no text
  skipped : SubscriberEvent
  message : String → SubscriberEvent
  connection_lost : SubscriberEvent
  exhausted cancelled : SubscriberEvent
  task_starts : ℕ → String → SubscriberEvent
  task_ends : ℕ → SubscriberEvent

-- The worker with the waiter that it notifies and the seconds that it has slept.
pub record Subscriber : Type 0 where
  pub waiter : Waiter
  pub subscribed : Bool
  pub backoff : ℕ
  pub slept : List ℕ

abbrev pub backoff_initial : ℕ
backoff_initial = 1

abbrev pub backoff_cap : ℕ
backoff_cap = 30

unfoldable pub run : List SubscriberEvent → Subscriber → Subscriber
run [] s = s
run (connected ∷ rest) s = run rest (record s { backoff = backoff_initial; subscribed = true })
run (skipped ∷ rest) s = run rest s
run (message triad_key ∷ rest) s = run rest (record s { waiter = (notify triad_key s.waiter).1 })
run (connection_lost ∷ rest) s = run rest (record s {
  subscribed = false;
  slept = s.backoff ∷ s.slept;
  backoff = min (s.backoff * 2) backoff_cap;
})
run (exhausted ∷ rest) s = s
run (cancelled ∷ rest) s = s
run (task_starts task key ∷ rest) s =
    run rest (record s { waiter = (get_or_create task key s.waiter).1 })
run (task_ends task ∷ rest) s = run rest (record s { waiter = finish task s.waiter })

-- A waiter that the event loop can reach, and waits between the two bounds.
pub record IsRunning (s : Subscriber) : Type 0 where
  pub reached : Reach s.waiter
  pub positive : 1 ≤ s.backoff
  pub capped : s.backoff ≤ 30
  pub bounded : All (λ n. (1 ≤ n) × (n ≤ 30)) s.slept

-- The worker leaves the waiter in a state that the event loop can reach, and each of its sleeps is
-- between 1 and 30 seconds.
pub run-IsRunning :
    (es : List SubscriberEvent) (s : Subscriber) → IsRunning s → IsRunning (run es s)
unfolding run
run-IsRunning [] s h = h
run-IsRunning (connected ∷ rest) s h = run-IsRunning rest _ (record {
  reached = h.reached;
  positive = omega arith;
  capped = omega arith;
  bounded = h.bounded;
})
run-IsRunning (skipped ∷ rest) s h = run-IsRunning rest s h
run-IsRunning (message triad_key ∷ rest) s h = run-IsRunning rest _ (record {
  reached = later h.reached (notified triad_key s.waiter);
  positive = h.positive;
  capped = h.capped;
  bounded = h.bounded;
})
run-IsRunning (connection_lost ∷ rest) s h = run-IsRunning rest _ (record {
  reached = h.reached;
  positive = omega (arith, h.positive);
  capped = omega arith;
  bounded = ((h.positive, h.capped), h.bounded);
})
run-IsRunning (exhausted ∷ rest) s h = h
run-IsRunning (cancelled ∷ rest) s h = h
run-IsRunning (task_starts task key ∷ rest) s h = run-IsRunning rest _ (record {
  reached = later h.reached (starts task key s.waiter);
  positive = h.positive;
  capped = h.capped;
  bounded = h.bounded;
})
run-IsRunning (task_ends task ∷ rest) s h = run-IsRunning rest _ (record {
  reached = later h.reached (ends task s.waiter);
  positive = h.positive;
  capped = h.capped;
  bounded = h.bounded;
})
