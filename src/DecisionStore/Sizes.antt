-- ===== src/DecisionStore/Sizes.antt =====
-- `MongoClusterSizeIndex.shift` moves one unit from a cluster to another.
use entity_resolution_servic.Prelude.{
  ℕ, String, ◌≡◌, true, none, some, arith, eq_iff, ◌==◌, string_eq, if◌then◌else◌,
}
use entity_resolution_servic.Prelude.Int.{ℤ, pos, ◌+ℤ◌, int_laws}
use entity_resolution_servic.Dict.{Dict, lookup, put, lookup-put, lookup-erase}
use entity_resolution_servic.Backend.Documents.{ClusterSizeDocument, SizeUpdate}
use entity_resolution_servic.Backend.Documented.{resized, without_empty}

abbrev pub Sizes : Type 0
Sizes = Dict ClusterSizeDocument

-- `get_size`: 0 if the cluster has no entry.
abbrev pub size_in : Sizes → String → ℤ
size_in sizes c = elim (lookup c sizes) [ none ↦ pos 0 | some d ↦ d.size ]

pub size-put :
    (k : String) (d : ClusterSizeDocument) (sizes : Sizes) (c : String)
    → size_in (put k d sizes) c ≡ (if k == c then d.size else size_in sizes c)
size-put k d sizes c = ground (arith, lookup-put k c d sizes)

zero-add : (z : ℤ) → pos 0 +ℤ z ≡ z
zero-add z = omega int_laws

module _ (u : SizeUpdate) (sizes : Sizes) (c : String) where
  abbrev pub Moves : Type 0
  Moves =
      size_in (resized u sizes) c
      ≡ (if u.target == c then size_in sizes c +ℤ u.delta else size_in sizes c)

  pub size-resized_absent : lookup u.target sizes ≡ none → u.upsert ≡ true → Moves
  unfolding resized
  size-resized_absent h e = ground (
    arith,
    eq_iff u.target c,
    zero-add u.delta,
    size-put u.target (record { size = u.delta; updated_at = u.now }) sizes c,
  )

  pub size-resized_present : (d : ClusterSizeDocument) → lookup u.target sizes ≡ some d → Moves
  unfolding resized
  size-resized_present d h = ground (
    arith,
    eq_iff u.target c,
    size-put u.target (record { size = d.size +ℤ u.delta; updated_at = u.now }) sizes c,
  )

pub size-without_empty :
    (a : String) (sizes : Sizes) (c : String) (n : ℕ)
    → size_in sizes a ≡ pos n
    → size_in (without_empty a sizes) c ≡ size_in sizes c
unfolding without_empty
size-without_empty a sizes c n h = ground (arith, eq_iff a c, lookup-erase a c sizes)
