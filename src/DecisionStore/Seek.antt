-- ===== src/DecisionStore/Seek.antt =====
-- `_build_cursor_condition`: the condition of a row's cursor selects what follows the row.
use entity_resolution_servic.Prelude.{
  arith, ℕ, String, ◌≡◌, ◌≢◌, refl, Bool, true, false, ◌⊎◌, Option, none, some,
}
use entity_resolution_servic.Cursor.{
  SortField, SortValue, confidence, created, updated, cluster_size, absent, instant, encode_cursor,
  read_cursor, Codec, IsCodec, Suits, read_cursor-encode_cursor,
}
use entity_resolution_servic.Effects.{ok}
use entity_resolution_servic.Backend.Queries.{Row, Engine, holds, kind, row_before, field_value}
use entity_resolution_servic.DecisionStore.Queries.{
  build_cursor_condition, extract_sort_value, to_decision,
}

-- The engine compares values of two types, or the row has a value.
abbrev pub IsSortable : Engine → SortField → Row → Type 0
IsSortable e field r = (e.brackets ≡ false) ⊎ (kind (field_value field r) ≢ 0)

abbrev pub place_of : SortField → Row → SortValue × String
place_of field r = (field_value field r, r.id)

module _ (e : Engine) (field : SortField) (ascending : Bool) where
  unfoldable pub after : Option (SortValue × String) → Row → Bool
  after none r = true
  after (some (v, i)) r = holds e (build_cursor_condition field v i ascending) r

pub after-row_before :
    (e : Engine) (field : SortField) (ascending : Bool) (r s : Row)
    → IsSortable e field r
    → IsSortable e field s
    → after e field ascending (some (place_of field r)) s ≡ row_before e ascending field r s
unfolding after build_cursor_condition holds
after-row_before e confidence true r s h h' = ground arith
after-row_before e confidence false r s h h' = ground arith
after-row_before e created true r s h h' = ground arith
after-row_before e created false r s h h' = ground arith
after-row_before e cluster_size true r s h h' = ground arith
after-row_before e cluster_size false r s h h' = ground arith
after-row_before e updated true r s h h' = ground (arith, h, h')
after-row_before e updated false r s h h' = ground (arith, h, h')

-- The value in the cursor is the row's, but not for the computed field.
pub extract_sort_value-field_value :
    (field : SortField) (r : Row)
    → field ≢ cluster_size
    → extract_sort_value field (to_decision r) ≡ field_value field r
extract_sort_value-field_value confidence r h = refl
extract_sort_value-field_value created r h = refl
extract_sort_value-field_value updated r h = refl
extract_sort_value-field_value cluster_size r h = absurd (h refl)

field_value-Suits : (field : SortField) (r : Row) → Suits (field_value field r) field
field_value-Suits confidence r = refl
field_value-Suits created r = refl
field_value-Suits cluster_size r = refl
field_value-Suits updated r = updated_Suits r.document.updated_at
  where
    updated_Suits : (t : Option ℕ) → Suits (elim t [ none ↦ absent | some u ↦ instant u ]) updated
    updated_Suits none = tt
    updated_Suits (some u) = refl

pub read_cursor-place_of :
    (c : Codec)
    → IsCodec c
    → (field : SortField) (r : Row)
    → read_cursor c (encode_cursor c (field_value field r) r.id) field ≡ ok (place_of field r)
read_cursor-place_of c laws field r =
    read_cursor-encode_cursor c laws (field_value field r) field r.id (field_value-Suits field r)
