-- ===== src/Effects/Answers.antt =====
-- What holds of the result of a run and of the world that it leaves.
use entity_resolution_servic.Prelude.{◌≡◌, refl, subst, Bool, true, false, arith}
use entity_resolution_servic.Effects.{Error, Result, ok, err, Action, catch, ◌>>=◌}

-- What a run returns has a property.
abbrev pub Answers : {W A : Type 0} → (A → W → Type 0) → Result A × W → Type 0
Answers Q (ok a, v) = Q a v
Answers Q (err e, v) = Unit

pub Answers->>= :
    {W A B : Type 0} (Q : B → W → Type 0) (m : Action W A) (f : A → Action W B) (w : W)
    → ((a : A) (v : W) → m w ≡ (ok a, v) → Answers Q (f a v))
    → Answers Q ((m >>= f) w)
Answers->>= {W} {A} Q m f w next = finish (m w) refl
  where
    finish : (p : Result A × W) → m w ≡ p → Answers Q (((λ _. p) >>= f) w)
    finish (ok a, v) e = next a v e
    finish (err e, v) same = tt

pub Answers-catch :
    {W A : Type 0} (Q : A → W → Type 0) (m : Action W A) (h : Error → Action W A) (w : W)
    → Answers Q (m w)
    → ((e : Error) (v : W) → Answers Q (h e v))
    → Answers Q (catch m h w)
Answers-catch {W} {A} Q m h w answered handled = finish (m w) answered
  where
    finish : (p : Result A × W) → Answers Q p → Answers Q (catch (λ _. p) h w)
    finish (ok a, v) x = x
    finish (err e, v) x = handled e v

pub Answers-run :
    {W A : Type 0} (Q : A → W → Type 0) (p : Result A × W)
    → ((a : A) → p.0 ≡ ok a → Q a p.1)
    → Answers Q p
Answers-run Q (ok a, v) h = h a refl
Answers-run Q (err e, v) h = tt

abbrev pub is_answer {ℓ} : {A : Type ℓ} → Result A → Bool
is_answer (ok a) = true
is_answer (err e) = false

pub Answers_ok :
    {W A : Type 0} (Q : A → W → Type 0) (p : Result A × W) (a : A)
    → Answers Q p
    → p.0 ≡ ok a
    → Q a p.1
Answers_ok Q (ok x, v) a held h = subst (λ y. Q y v) (ground (arith, h)) held
Answers_ok Q (err e, v) a held h = cc h

pub Answers-err :
    {W A : Type 0} (Q : A → W → Type 0) (p : Result A × W) → is_answer p.0 ≡ false → Answers Q p
Answers-err Q (ok a, v) h = cc h
Answers-err Q (err e, v) h = tt
