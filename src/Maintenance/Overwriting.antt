-- ===== src/Maintenance/Overwriting.antt =====
-- The commands of the scripts on the sizes.
use entity_resolution_servic.Prelude.{
  arith, ℕ, zero, suc, ◌≤◌, length, take, drop, String, ◌≡◌, refl, Bool, true, false, ◌||◌, none,
  List, [], ◌∷◌, map, contains, eq_iff, ◌==◌, string_eq, if◌then◌else◌, All,
}
use entity_resolution_servic.Prelude.Int.{pos}
use entity_resolution_servic.Dict.{Dict, lookup, put}
use entity_resolution_servic.Backend.Documents.{ClusterSizeDocument}
use entity_resolution_servic.DecisionStore.Sizes.{Sizes, size_in, size-put}
use entity_resolution_servic.Maintenance.{keys, SizeSet, overwritten_all, without_stale, add_counts}

abbrev pub targets : List SizeSet → List String
targets ops = map (λ o. o.target) ops

pub size-overwritten_all :
    (n : String → ℕ) (ops : List SizeSet) (sizes : Sizes) (c : String)
    → All (λ o. o.size ≡ n o.target) ops
    → size_in (overwritten_all ops sizes) c
      ≡ (if contains c (targets ops) then pos (n c) else size_in sizes c)
size-overwritten_all n [] sizes c h = refl
size-overwritten_all n (o ∷ ops) sizes c (h, hs) =
    let d : ClusterSizeDocument = record { size = pos o.size; updated_at = o.now } in
    let rest = size-overwritten_all n ops (put o.target d sizes) c hs in
    ground (arith, rest, size-put o.target d sizes c, eq_iff o.target c, eq_iff c o.target, h)

lookup-without_stale :
    (live : List String) (sizes : Sizes) (c : String)
    → lookup c (without_stale live sizes) ≡ (if contains c live then lookup c sizes else none)
unfolding lookup
lookup-without_stale live [] c = ground arith
lookup-without_stale live ((k, d) ∷ sizes) c =
    ground (arith, lookup-without_stale live sizes c, eq_iff k c)

pub size-without_stale :
    (live : List String) (sizes : Sizes) (c : String)
    → size_in (without_stale live sizes) c ≡ (if contains c live then size_in sizes c else pos 0)
size-without_stale live sizes c = ground (arith, lookup-without_stale live sizes c)

module _ {V : Type 0} where
  pub contains-put :
      (c k : String) (v : V) (d : Dict V)
      → contains c (keys (put k v d)) ≡ (if c == k then true else contains c (keys d))
  unfolding put
  contains-put c k v [] = refl
  contains-put c k v ((j, w) ∷ d) = ground (arith, contains-put c k v d, eq_iff j k)

  pub All-put :
      (p : String × V → Type 0) (k : String) (v : V) (d : Dict V)
      → p (k, v)
      → All p d
      → All p (put k v d)
  unfolding put
  All-put p k v [] h hs = (h, tt)
  All-put p k v ((j, w) ∷ d) h (x, xs) = ground (arith, h, x, xs, All-put p k v d h xs)

pub contains-add_counts :
    (c : String) (rows counts : Dict ℕ)
    → (c == "") ≡ false
    → contains c (keys (add_counts rows counts))
      ≡ (contains c (keys rows) || contains c (keys counts))
contains-add_counts c [] counts h = refl
contains-add_counts c ((k, n) ∷ rows) counts h = ground (
  arith,
  eq_iff c k,
  h,
  contains-add_counts c rows (if k == "" then counts else put k n counts) h,
  contains-put c k n counts,
)

pub contains-add_counts_empty :
    (rows counts : Dict ℕ) → contains "" (keys (add_counts rows counts)) ≡ contains "" (keys counts)
contains-add_counts_empty [] counts = refl
contains-add_counts_empty ((k, n) ∷ rows) counts = ground (
  arith,
  eq_iff "" k,
  eq_iff k "",
  contains-add_counts_empty rows (if k == "" then counts else put k n counts),
  contains-put "" k n counts,
)

All-if :
    {A : Type 0} (p : A → Type 0) (test : Bool) (xs ys : List A)
    → All p xs
    → All p ys
    → All p (if test then xs else ys)
All-if p true xs ys h k = h
All-if p false xs ys h k = k

pub All-add_counts :
    (p : String × ℕ → Type 0) (rows counts : Dict ℕ)
    → All p rows
    → All p counts
    → All p (add_counts rows counts)
All-add_counts p [] counts h hs = hs
All-add_counts p ((k, n) ∷ rows) counts (h, more) hs =
    All-add_counts p rows (if k == "" then counts else put k n counts) more
      (All-if p (k == "") counts (put k n counts) hs (All-put p k n counts h hs))

pub overwritten_all_split :
    (n : ℕ) (ops : List SizeSet) (sizes : Sizes)
    → overwritten_all (drop n ops) (overwritten_all (take n ops) sizes) ≡ overwritten_all ops sizes
overwritten_all_split zero ops sizes = refl
overwritten_all_split (suc n) [] sizes = refl
overwritten_all_split (suc n) (o ∷ ops) sizes =
    overwritten_all_split n ops
      (put o.target (record { size = pos o.size; updated_at = o.now }) sizes)

pub length-drop : {A : Type 0} (n : ℕ) (xs : List A) → length (drop n xs) ≤ length xs
length-drop zero xs = omega arith
length-drop (suc n) [] = omega arith
length-drop (suc n) (x ∷ xs) = omega (arith, length-drop n xs)
