-- ===== src/Coordinator/Waiter.antt =====
-- `AsyncResolutionWaiter` of ers/resolution_coordinator/services/async_resolution_waiter.py. Nothing of
-- it awaits, so each call is one step of the event loop. A task that waits holds its event until it
-- ends; an entry of the weak dictionary whose event nobody holds is gone at once. `release` does
-- nothing.
pub mod Shared
pub mod Waking
pub mod Subscriber
pub mod Messages
use entity_resolution_servic.Prelude.{
  ℕ, suc, String, Bool, true, false, Option, none, some, List, [], ◌∷◌, ◌==◌, nat_eq, string_eq,
  if◌then◌else◌,
}

-- A task that waits on a key, with the event that it got.
pub record Holder : Type 0 where
  pub task : ℕ
  pub key : String
  pub event : ℕ

-- Events are numbered as they are created; `rung` says which are set.
pub record Waiter : Type 0 where
  pub next : ℕ
  pub events : String → Option ℕ
  pub rung : ℕ → Bool
  pub holders : List Holder

abbrev pub empty_waiter : Waiter
empty_waiter = record { next = 0; events = λ k. none; rung = λ e. false; holders = [] }

abbrev pub held_by : ℕ → String → ℕ → Waiter → Waiter
held_by task key event s = record s {
  holders = record { task = task; key = key; event = event } ∷ s.holders;
}

abbrev pub got : ℕ → String → Waiter → Option ℕ → ℕ × Waiter
got task triad_key s (some e) = (e, held_by task triad_key e s)
got task triad_key s none = (
  s.next,
  held_by task triad_key s.next (record s {
    next = suc s.next;
    events = λ k. if triad_key == k then some s.next else s.events k;
    rung = λ e. if e == s.next then false else s.rung e;
  }),
)

-- The event that the task gets, and the waiter after it.
unfoldable pub get_or_create : ℕ → String → Waiter → ℕ × Waiter
get_or_create task triad_key s = got task triad_key s (s.events triad_key)

abbrev pub rings : Waiter → Option ℕ → Bool × Waiter
rings s (some e) = (true, record s { rung = λ x. if x == e then true else s.rung x })
rings s none = (false, s)

unfoldable pub notify : String → Waiter → Bool × Waiter
notify triad_key s = rings s (s.events triad_key)

abbrev pub has_holder : ℕ → List Holder → Bool
has_holder e [] = false
has_holder e (h ∷ hs) = if h.event == e then true else has_holder e hs

abbrev pub without : ℕ → List Holder → List Holder
without task [] = []
without task (h ∷ hs) = let rest = without task hs in if h.task == task then rest else h ∷ rest

abbrev pub kept_entry : List Holder → Option ℕ → Option ℕ
kept_entry hs none = none
kept_entry hs (some e) = if has_holder e hs then some e else none

-- A task ends, in time or not, and drops its references.
unfoldable pub finish : ℕ → Waiter → Waiter
finish task s = record s {
  events = λ k. kept_entry (without task s.holders) (s.events k);
  holders = without task s.holders;
}

-- What the event loop may run next.
pub data Step : Waiter → Waiter → Type 0 where
  starts : (task : ℕ) (key : String) (s : Waiter) → Step s (get_or_create task key s).1
  notified : (key : String) (s : Waiter) → Step s (notify key s).1
  ends : (task : ℕ) (s : Waiter) → Step s (finish task s)

pub data Reach : Waiter → Type 0 where
  start : Reach empty_waiter
  later : {s t : Waiter} → Reach s → Step s t → Reach t
