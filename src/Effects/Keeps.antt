-- ===== src/Effects/Keeps.antt =====
-- Predicates on the world that a sequence of steps keeps.
use entity_resolution_servic.Prelude.{◌≡◌, sym, subst}
use entity_resolution_servic.Effects.{Error, Result, ok, err, Action, catch, ◌>>=◌}

module _ {W A B : Type 0} (P : W → Type 0) where
  -- A step and what follows it keep a predicate.
  pub then_keeps :
      (m : Action W A) (f : A → Action W B) (w : W)
      → P (m w).1
      → ((a : A) (v : W) → P v → P (f a v).1)
      → P ((m >>= f) w).1
  then_keeps m f w kept next = finish (m w) kept
    where
      finish : (p : Result A × W) → P p.1 → P (((λ _. p) >>= f) w).1
      finish (ok a, v) h = next a v h
      finish (err e, v) h = h

  -- A step that is known to succeed.
  pub then_from :
      (m : Action W A) (f : A → Action W B) (w v : W) (a : A)
      → m w ≡ (ok a, v)
      → P (f a v).1
      → P ((m >>= f) w).1
  then_from m f w v a e h = subst (λ p. P (((λ _. p) >>= f) w).1) (sym e) h

module _ {W A B : Type 0} (P : W → Type 0) where
  -- A step that is known to fail.
  pub then_not :
      (m : Action W A) (f : A → Action W B) (w v : W) (e : Error)
      → m w ≡ (err e, v)
      → P v
      → P ((m >>= f) w).1
  then_not m f w v e failed h = subst (λ p. P (((λ _. p) >>= f) w).1) (sym failed) h

-- A `try` keeps what its body and its handlers keep.
pub catch_keeps :
    {W A : Type 0} (P : W → Type 0) (m : Action W A) (f : Error → Action W A) (w : W)
    → P (m w).1
    → ((e : Error) (v : W) → P v → P (f e v).1)
    → P (catch m f w).1
catch_keeps {W} {A} P m f w kept next = finish (m w) kept
  where
    finish : (p : Result A × W) → P p.1 → P (catch (λ _. p) f w).1
    finish (ok a, v) h = h
    finish (err e, v) h = next e v h
