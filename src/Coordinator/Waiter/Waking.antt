-- ===== src/Coordinator/Waiter/Waking.antt =====
-- A notification wakes the tasks that wait on its key, and no other.
use entity_resolution_servic.Prelude.{
  arith, ℕ, String, ◌≡◌, refl, sym, Bool, Bool-cases, inl, inr, true, false, Option, none, some,
  List, [], ◌∷◌, eq_iff, ◌==◌, nat_eq, string_eq, if◌then◌else◌, All, All-weaken,
}
use entity_resolution_servic.Coordinator.Waiter.{Holder, Waiter, notify, rings, has_holder, Reach}
use entity_resolution_servic.Coordinator.Waiter.Shared.{IsShared, Reach-IsShared}

-- Some task waits on the key.
abbrev pub is_awaited : String → List Holder → Bool
is_awaited key [] = false
is_awaited key (h ∷ hs) = if key == h.key then true else is_awaited key hs

module _ (s : Waiter) (shared : IsShared s) (key : String) where
  -- The holders of an event wait on the key of its entry.
  is_awaited_of :
      (e : ℕ)
      → s.events key ≡ some e
      → (hs : List Holder) → All (λ h. s.events h.key ≡ some h.event) hs
      → has_holder e hs ≡ true
      → is_awaited key hs ≡ true
  is_awaited_of e present [] held h = cc h
  is_awaited_of e present (x ∷ hs) (mine, held) h = elim (Bool-cases (x.event == e)) [
    | inl same ↦ ground (arith, mine, same, eq_iff key x.key, shared.distinct key x.key e present)
    | inr other ↦ ground (arith, h, other, is_awaited_of e present hs held)
  ]

  is_awaited-none :
      (hs : List Holder)
      → s.events key ≡ none
      → All (λ h. s.events h.key ≡ some h.event) hs
      → is_awaited key hs ≡ false
  is_awaited-none [] absent held = refl
  is_awaited-none (x ∷ hs) absent (mine, held) =
      ground (arith, mine, absent, eq_iff key x.key, is_awaited-none hs absent held)

  abbrev Wakes : Bool × Waiter → Type 0
  Wakes (found, t) =
      (found ≡ is_awaited key s.holders)
      × All (λ h. t.rung h.event ≡ (if key == h.key then true else s.rung h.event)) s.holders

  rings-Wakes : (o : Option ℕ) → s.events key ≡ o → Wakes (rings s o)
  rings-Wakes none absent = (
    sym (is_awaited-none s.holders absent shared.held),
    All-weaken _ _ (λ h k. ground (arith, k, absent, eq_iff key h.key)) s.holders shared.held,
  )
  rings-Wakes (some e) present = (
    sym (is_awaited_of e present s.holders shared.held (shared.owned key e present)),
    All-weaken _ _
        (λ h k. ground (arith, k, present, eq_iff key h.key, shared.distinct key h.key e present))
        s.holders shared.held,
  )

-- However the tasks of the event loop interleave, a notification answers whether some task waits on
-- its key, and sets the event of every task that waits on its key and of no other task.
pub notify-Wakes :
    {s : Waiter}
    → Reach s
    → (key : String)
    → let (found, t) = notify key s in
      (found ≡ is_awaited key s.holders)
      × All (λ h. t.rung h.event ≡ (if key == h.key then true else s.rung h.event)) s.holders
unfolding notify
notify-Wakes {s} r key = rings-Wakes s (Reach-IsShared r) key (s.events key) refl
