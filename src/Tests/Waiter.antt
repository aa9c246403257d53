-- ===== src/Tests/Waiter.antt =====
-- Runs of the waiter: two tasks on one key, a third on another.
use entity_resolution_servic.Prelude.{
  ◌+◌, ◌≤◌, length, arith, ◌≡◌, refl, true, false, [], ◌∷◌, ◌==◌, string_eq, nat_eq, if◌then◌else◌,
  All,
}
use entity_resolution_servic.Coordinator.Waiter.{
  Waiter, empty_waiter, get_or_create, notify, finish, Reach, start, later, starts,
}
use entity_resolution_servic.Coordinator.Waiter.Waking.{is_awaited, notify-Wakes}
use entity_resolution_servic.Coordinator.Waiter.Messages.{losses, run_wakes}
use entity_resolution_servic.Coordinator.Waiter.Subscriber.{
  Subscriber, IsRunning, run, connected, message, connection_lost, task_starts,
}

abbrev waiting : Waiter
waiting = (get_or_create 3 "b" (get_or_create 2 "a" (get_or_create 1 "a" empty_waiter).1).1).1

waiting_reached : Reach waiting
waiting_reached =
    later (later (later start (starts 1 "a" empty_waiter)) (starts 2 "a" _)) (starts 3 "b" _)

notify-Wakes_example :
    let (found, t) = notify "a" waiting in
    (found ≡ is_awaited "a" waiting.holders)
    × All
        (λ h. t.rung h.event ≡ (if "a" == h.key then true else waiting.rung h.event))
        waiting.holders
notify-Wakes_example = notify-Wakes waiting_reached "a"

two_tasks_share : (get_or_create 2 "a" (get_or_create 1 "a" empty_waiter).1).0 ≡ 0
unfolding get_or_create
two_tasks_share = refl

-- After both tasks have ended the entry is gone.
nobody_waits : (notify "a" (finish 2 (finish 1 waiting))).0 ≡ false
unfolding notify finish get_or_create
nobody_waits = refl

abbrev waiting_for_a : Subscriber
waiting_for_a = record { waiter = waiting; subscribed = true; backoff = 1; slept = [] }

waiting_for_a-IsRunning : IsRunning waiting_for_a
waiting_for_a-IsRunning = record {
  reached = waiting_reached;
  positive = omega arith;
  capped = omega arith;
  bounded = tt;
}

run_wakes_example :
    let es = connection_lost ∷ task_starts 4 "a" ∷ connection_lost ∷ connected ∷ [] in
    let t = run (message "a" ∷ es) waiting_for_a in
    All (λ h. (if "a" == h.key then t.waiter.rung h.event else true) ≡ true) waiting.holders
    × (length t.slept ≡ losses es + length waiting_for_a.slept)
    × All (λ n. (1 ≤ n) × (n ≤ 30)) t.slept
run_wakes_example =
    run_wakes "a" (connection_lost ∷ task_starts 4 "a" ∷ connection_lost ∷ connected ∷ [])
      waiting_for_a waiting_for_a-IsRunning
