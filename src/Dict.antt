-- ===== src/Dict.antt =====
-- A map from text keys to values: the contents of a MongoDB collection by its unique `_id`, or a
-- Python dict. A write to a present key replaces its value in place; a new key is appended.
use entity_resolution_servic.Prelude.{
  ℕ, ◌+◌, ◌≤◌, String, ◌≡◌, refl, Bool, Option, none, some, List, [], ◌∷◌, arith, eq_iff, ◌==◌,
  string_eq, if◌then◌else◌,
}

abbrev pub Dict {ℓ} : Type ℓ → Type ℓ
Dict V = List (String × V)

module _ {ℓ} {V : Type ℓ} where
  unfoldable pub lookup : String → Dict V → Option V
  lookup k [] = none
  lookup k ((j, v) ∷ d) = if j == k then some v else lookup k d

  unfoldable pub put : String → V → Dict V → Dict V
  put k v [] = (k, v) ∷ []
  put k v ((j, w) ∷ d) = if j == k then (k, v) ∷ d else (j, w) ∷ put k v d

  unfoldable pub erase : String → Dict V → Dict V
  erase k [] = []
  erase k ((j, w) ∷ d) = let rest = erase k d in if j == k then rest else (j, w) ∷ rest

  pub lookup-put :
      (k j : String) (v : V) (d : Dict V)
      → lookup j (put k v d) ≡ (if k == j then some v else lookup j d)
  unfolding lookup put
  lookup-put k j v [] = refl
  lookup-put k j v ((i, w) ∷ d) =
      ground (arith, eq_iff k j, eq_iff i k, eq_iff i j, lookup-put k j v d)

  pub lookup-put_self : (k : String) (v : V) (d : Dict V) → lookup k (put k v d) ≡ some v
  lookup-put_self k v d = ground (arith, lookup-put k k v d, eq_iff k k)

  pub lookup-erase :
      (k j : String) (d : Dict V) → lookup j (erase k d) ≡ (if k == j then none else lookup j d)
  unfolding lookup erase
  lookup-erase k j [] = ground arith
  lookup-erase k j ((i, w) ∷ d) =
      ground (arith, eq_iff k j, eq_iff i k, eq_iff i j, lookup-erase k j d)

  erase_absent : (k : String) (d : Dict V) → lookup k d ≡ none → erase k d ≡ d
  unfolding lookup erase
  erase_absent k [] h = refl
  erase_absent k ((i, w) ∷ d) h = ground (arith, erase_absent k d)

  pub erase-put : (k : String) (v : V) (d : Dict V) → lookup k d ≡ none → erase k (put k v d) ≡ d
  unfolding lookup put erase
  erase-put k v [] h = ground (arith, eq_iff k k)
  erase-put k v ((i, w) ∷ d) h = ground (arith, eq_iff i k, erase-put k v d)

  -- How many values pass a test.
  abbrev pub weight : (V → Bool) → Option V → ℕ
  weight p none = 0
  weight p (some v) = if p v then 1 else 0

  unfoldable pub count : (V → Bool) → Dict V → ℕ
  count p [] = 0
  count p ((j, v) ∷ d) = weight p (some v) + count p d

  pub count-put :
      (p : V → Bool) (k : String) (v : V) (d : Dict V)
      → count p (put k v d) + weight p (lookup k d) ≡ count p d + weight p (some v)
  unfolding lookup put count
  count-put p k v [] = ground arith
  count-put p k v ((j, w) ∷ d) = ground (arith, eq_iff j k, count-put p k v d)

pub ruleset dict_laws = (lookup-put, lookup-put_self, lookup-erase)

pub weight-le-count {ℓ} :
    {V : Type ℓ} (p : V → Bool) (k : String) (d : Dict V) → weight p (lookup k d) ≤ count p d
unfolding lookup count
weight-le-count p k [] = omega arith
weight-le-count p k ((j, w) ∷ d) = ground (arith, weight-le-count p k d)
