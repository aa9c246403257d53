-- ===== src/DecisionStore/Shift.antt =====
-- `MongoClusterSizeIndex.shift` moves one unit from a cluster to another.
use entity_resolution_servic.Prelude.{
  ℕ, suc, List, ◌++◌, String, ◌≡◌, false, true, Option, none, some, ap, arith, refl, eq_iff, ◌==◌,
  string_eq, Option-cases, Bool-cases, ◌∙◌, inl, inr, if◌then◌else◌,
}
use entity_resolution_servic.Prelude.Int.{
  ℤ, pos, neg, ◌+ℤ◌, int_laws, pos_part, neg_part, eq_of_parts, +ℤ_parts,
}
use entity_resolution_servic.Dict.{lookup}
use entity_resolution_servic.Effects.{ok}
use entity_resolution_servic.Backend.{Backend, IsBackend, IsHealthy}
use entity_resolution_servic.Backend.Documents.{SizeUpdate}
use entity_resolution_servic.Backend.Documented.{resized, without_empty}
use entity_resolution_servic.DecisionStore.ClusterSizes.{decrements, increments, shift}
use entity_resolution_servic.DecisionStore.Sizes.{
  Sizes, size_in, size-resized_absent, size-resized_present, size-without_empty,
}

abbrev decrement : String → ℕ → SizeUpdate
decrement a now = record { target = a; delta = neg 1; now = now; upsert = false }

abbrev increment : String → ℕ → SizeUpdate
increment a now = record { target = a; delta = pos 1; now = now; upsert = true }

-- What a shift by one leaves.
pub shifted : Option String → String → ℕ → Sizes → Sizes
shifted none to now sizes = resized (increment to now) sizes
shifted (some a) to now sizes =
    if a == to
    then sizes
    else without_empty a (resized (increment to now) (resized (decrement a now) sizes))

abbrev pub unit_at : String → String → ℕ
unit_at a c = if a == c then 1 else 0

abbrev pub unit_from : Option String → String → ℕ
unit_from none c = 0
unit_from (some a) c = unit_at a c

-- A decrement is due only where the entry counts at least the decision that leaves.
abbrev pub Counts : Option String → Sizes → Type 0
Counts none sizes = Unit
Counts (some a) sizes = (n : ℕ) × (size_in sizes a ≡ pos (suc n))

add-zero : (z : ℤ) → z +ℤ pos 0 ≡ z
add-zero z = omega int_laws

back : (z : ℤ) → z +ℤ neg 1 +ℤ pos 1 ≡ z
back z = omega int_laws

cancel : (z : ℤ) (n : ℕ) → z +ℤ pos 1 ≡ pos (suc n) → z ≡ pos n
cancel z n h =
    eq_of_parts z (pos n) (omega (arith, +ℤ_parts z (pos 1), ap pos_part h, ap neg_part h))

swap : (x y z : ℤ) → x +ℤ y +ℤ z ≡ x +ℤ z +ℤ y
swap x y z = omega int_laws

size-increment :
    (a : String) (now : ℕ) (sizes : Sizes) (c : String)
    → size_in (resized (increment a now) sizes) c ≡ size_in sizes c +ℤ pos (unit_at a c)
size-increment a now sizes c = elim (Option-cases (lookup a sizes)) [
  | inl absent ↦
      ground (
        arith,
        size-resized_absent (increment a now) sizes c absent refl,
        add-zero (size_in sizes c),
      )
  | inr (d, present) ↦
      ground (
        arith,
        size-resized_present (increment a now) sizes c d present,
        add-zero (size_in sizes c),
      )
]

size-decrement :
    (a : String) (now : ℕ) (sizes : Sizes) (c : String) (n : ℕ)
    → size_in sizes a ≡ pos (suc n)
    → size_in (resized (decrement a now) sizes) c +ℤ pos (unit_at a c) ≡ size_in sizes c
size-decrement a now sizes c n h = elim (Option-cases (lookup a sizes)) [
  | inl absent ↦ ground arith
  | inr (d, present) ↦ ground (
    arith,
    size-resized_present (decrement a now) sizes c d present,
    back (size_in sizes c),
    add-zero (size_in sizes c),
  )
]

size_after_decrement :
    (a : String) (now : ℕ) (sizes : Sizes) (n : ℕ)
    → size_in sizes a ≡ pos (suc n)
    → size_in (resized (decrement a now) sizes) a ≡ pos n
size_after_decrement a now sizes n h =
    cancel (size_in (resized (decrement a now) sizes) a) n
      (ground (arith, eq_iff a a, size-decrement a now sizes a n h))

module _ (a to : String) (now : ℕ) (sizes : Sizes) (n : ℕ)
    (counted : size_in sizes a ≡ pos (suc n)) where
  abbrev dec : Sizes
  dec = resized (decrement a now) sizes

  abbrev inc : Sizes
  inc = resized (increment to now) dec

  left_size : (a == to) ≡ false → size_in inc a ≡ pos n
  left_size e =
      size-increment to now dec a
      ∙ rw (size_after_decrement a now sizes n counted)
          (ground (arith, eq_iff a to, eq_iff to a, add-zero (pos n)))

  size_between :
      (a == to) ≡ false
      → (c : String)
      → size_in (without_empty a inc) c +ℤ pos (unit_at a c) ≡ size_in sizes c +ℤ pos (unit_at to c)
  size_between e c =
      ap (λ z. z +ℤ pos (unit_at a c))
        (size-without_empty a inc c n (left_size e) ∙ size-increment to now dec c)
      ∙ swap (size_in dec c) (pos (unit_at to c)) (pos (unit_at a c))
      ∙ ap (λ z. z +ℤ pos (unit_at to c)) (size-decrement a now sizes c n counted)

-- Each size moves by the unit that leaves and the unit that arrives.
pub size-shifted :
    (from : Option String) (to : String) (now : ℕ) (sizes : Sizes) (c : String)
    → Counts from sizes
    → size_in (shifted from to now sizes) c +ℤ pos (unit_from from c)
      ≡ size_in sizes c +ℤ pos (unit_at to c)
unfolding shifted
size-shifted none to now sizes c h = add-zero _ ∙ size-increment to now sizes c
size-shifted (some a) to now sizes c (n, counted) = elim (Bool-cases (a == to)) [
  | inl same ↦ rw same (rw ((eq_iff a to).0 same))
  | inr other ↦ rw other (size_between a to now sizes n counted other c)
]

module _ (b : Backend) (laws : IsBackend b) (healthy : IsHealthy b) where
  open b use {World, state}

  bulk_healthy : (us : List SizeUpdate) (w : World) → (b.bulk_write us w).0 ≡ ok tt
  bulk_healthy us w = ground (arith, laws.bulk_reply us w, healthy.no_fault w)

  delete_healthy : (c : String) (w : World) → (b.delete_empty c w).0 ≡ ok tt
  delete_healthy c w = ground (arith, laws.delete_reply c w, healthy.no_fault w)

  abbrev Shifts : Option String → String → World → Type 0
  Shifts from to w =
      let (r, v) = shift b from (some to) 1 w in
      (r ≡ ok tt)
      × (b.state v ≡ record (state w) {
        cluster_sizes = shifted from to (b.now w).0 (state w).cluster_sizes;
      })

  pub shift-shifted : (from : Option String) (to : String) (w : World) → Shifts from to w
  unfolding shift shifted
  shift-shifted none to w =
      let w' = (b.now w).1 in
      let us : List SizeUpdate = increments (some to) 1 (b.now w).0 in
      ground
        (arith, laws.now_state w, bulk_healthy us w', laws.bulk_state us w' (healthy.no_fault w'))
  shift-shifted (some a) to w =
      let w' = (b.now w).1 in
      let us : List SizeUpdate =
        decrements (some a) 1 (b.now w).0 ++ increments (some to) 1 (b.now w).0 in
      let w'' = (b.bulk_write us w').1 in
      ground (
        arith,
        laws.now_state w,
        bulk_healthy us w',
        laws.bulk_state us w' (healthy.no_fault w'),
        delete_healthy a w'',
        laws.delete_state a w'' (healthy.no_fault w''),
      )
