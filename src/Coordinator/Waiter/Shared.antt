-- ===== src/Coordinator/Waiter/Shared.antt =====
-- All tasks that wait on a key share the event of its entry, and a notification wakes them all.
use entity_resolution_servic.Prelude.{
  arith, ℕ, ◌<◌, String, ◌≡◌, refl, Bool, true, false, Option, none, some, List, [], ◌∷◌, eq_iff,
  ◌==◌, nat_eq, string_eq, if◌then◌else◌, All, All-weaken,
}
use entity_resolution_servic.Coordinator.Waiter.{
  Holder, Waiter, empty_waiter, get_or_create, got, notify, rings, has_holder, without, finish,
  Step, starts, notified, ends, Reach, start, later,
}

pub record IsShared (s : Waiter) : Type 0 where
  pub held : All (λ h. s.events h.key ≡ some h.event) s.holders
  pub owned : (k : String) (e : ℕ) → s.events k ≡ some e → has_holder e s.holders ≡ true
  pub created : (k : String) (e : ℕ) → s.events k ≡ some e → e < s.next
  pub distinct : (k k' : String) (e : ℕ) → s.events k ≡ some e → s.events k' ≡ some e → k ≡ k'

empty_waiter-IsShared : IsShared empty_waiter
empty_waiter-IsShared = record {
  held = tt;
  owned = λ k e h. cc h;
  created = λ k e h. cc h;
  distinct = λ k k' e h h'. cc h;
}

rings-IsShared : (s : Waiter) (o : Option ℕ) → IsShared s → IsShared (rings s o).1
rings-IsShared s none shared = shared
rings-IsShared s (some e) shared = record {
  held = shared.held;
  owned = shared.owned;
  created = shared.created;
  distinct = shared.distinct;
}

notify-IsShared : (key : String) (s : Waiter) → IsShared s → IsShared (notify key s).1
unfolding notify
notify-IsShared key s shared = rings-IsShared s (s.events key) shared

got-IsShared :
    (task : ℕ) (key : String) (s : Waiter) (o : Option ℕ)
    → s.events key ≡ o
    → IsShared s
    → IsShared (got task key s o).1
got-IsShared task key s (some e) present shared = record {
  held = (present, shared.held);
  owned = λ k e' h. ground (arith, shared.owned k e' h);
  created = shared.created;
  distinct = shared.distinct;
}
got-IsShared task key s none absent shared = record {
  held = (
    ground (arith, eq_iff key key),
    All-weaken _ _ (λ h k. ground (arith, k, absent, eq_iff key h.key)) s.holders shared.held,
  );
  owned = λ k e h. ground (arith, h, shared.owned k e);
  created = λ k e h. ground (arith, h, shared.created k e);
  distinct = λ k k' e h h'. ground (
    arith,
    h,
    h',
    eq_iff key k,
    eq_iff key k',
    shared.distinct k k' e,
    shared.created k e,
    shared.created k' e,
  );
}

get_or_create-IsShared :
    (task : ℕ) (key : String) (s : Waiter) → IsShared s → IsShared (get_or_create task key s).1
unfolding get_or_create
get_or_create-IsShared task key s shared = got-IsShared task key s (s.events key) refl shared

All-without :
    (p : Holder → Type 0) (task : ℕ) (hs : List Holder) → All p hs → All p (without task hs)
All-without p task [] h = tt
All-without p task (x ∷ hs) (h, more) = by_task (x.task == task) (All-without p task hs more)
  where
    by_task :
        (b : Bool)
        → All p (without task hs)
        → All p (if b then without task hs else x ∷ without task hs)
    by_task true rest = rest
    by_task false rest = (h, rest)

All-has_holder : (hs : List Holder) → All (λ h. has_holder h.event hs ≡ true) hs
All-has_holder [] = tt
All-has_holder (x ∷ hs) =
    (ground arith, All-weaken _ _ (λ h k. ground (arith, k)) hs (All-has_holder hs))

All-both :
    (p q : Holder → Type 0) (hs : List Holder) → All p hs → All q hs → All (λ h. p h × q h) hs
All-both p q [] h k = tt
All-both p q (x ∷ hs) (h, hs') (k, ks) = ((h, k), All-both p q hs hs' ks)

finish-IsShared : (task : ℕ) (s : Waiter) → IsShared s → IsShared (finish task s)
unfolding finish
finish-IsShared task s shared = record {
  held =
      All-weaken _ _ (λ h (k, here). ground (arith, k, here)) (without task s.holders)
        (All-both _ _ (without task s.holders) (All-without _ task s.holders shared.held)
          (All-has_holder (without task s.holders)));
  owned = λ k e h. ground (arith, h);
  created = λ k e h. shared.created k e (ground (arith, h));
  distinct = λ k k' e h h'. shared.distinct k k' e (ground (arith, h)) (ground (arith, h'));
}

Step-IsShared : {s t : Waiter} → Step s t → IsShared s → IsShared t
Step-IsShared (starts task key s) shared = get_or_create-IsShared task key s shared
Step-IsShared (notified key s) shared = notify-IsShared key s shared
Step-IsShared (ends task s) shared = finish-IsShared task s shared

pub Reach-IsShared : {s : Waiter} → Reach s → IsShared s
Reach-IsShared start = empty_waiter-IsShared
Reach-IsShared (later r step) = Step-IsShared step (Reach-IsShared r)
