-- ===== src/MentionParser/Merge.antt =====
-- The merge of the rows takes the first value of each field.
use mathlib.Core.List.{List, [], ◌∷◌, map}
use entity_resolution_servic.Prelude.{String, ◌≡◌, refl, ap, ◌∙◌, Option, none, some}
use entity_resolution_servic.MentionParser.Parse.{
  Row, value_of, kept_or, merge_row, merge_into, merge_rows,
}

-- The first value that a row has for a name.
abbrev pub first_value : String → List Row → Option String
first_value name [] = none
first_value name (row ∷ rows) = kept_or (value_of name row) (first_value name rows)

abbrev with_values : (String → Option String) → List String → Row
with_values f names = map (λ name. (name, f name)) names

with_values_ext :
    (f g : String → Option String)
    → ((name : String) → f name ≡ g name)
    → (names : List String) → with_values f names ≡ with_values g names
with_values_ext f g same [] = refl
with_values_ext f g same (name ∷ names) = rw (same name, with_values_ext f g same names)

kept_or_assoc : (a b c : Option String) → kept_or (kept_or a b) c ≡ kept_or a (kept_or b c)
kept_or_assoc none b c = refl
kept_or_assoc (some a) b c = refl

kept_or-none : (a : Option String) → kept_or a none ≡ a
kept_or-none none = refl
kept_or-none (some a) = refl

merge_row-with_values :
    (row : Row) (f : String → Option String) (names : List String)
    → merge_row row (with_values f names)
      ≡ with_values (λ name. kept_or (f name) (value_of name row)) names
merge_row-with_values row f [] = refl
merge_row-with_values row f (name ∷ names) = rw (merge_row-with_values row f names) refl

merge_into-with_values :
    (rows : List Row) (f : String → Option String) (names : List String)
    → merge_into rows (with_values f names)
      ≡ with_values (λ name. kept_or (f name) (first_value name rows)) names
merge_into-with_values [] f names = with_values_ext f _ (λ name. rw (kept_or-none (f name))) names
merge_into-with_values (row ∷ rows) f names =
    ap (merge_into rows) (merge_row-with_values row f names)
    ∙ merge_into-with_values rows (λ name. kept_or (f name) (value_of name row)) names
    ∙ with_values_ext _ _
        (λ name. kept_or_assoc (f name) (value_of name row) (first_value name rows)) names

-- The merged dictionary has the field names as its keys, in their order, each with the first value
-- that a row has for it, or null if no row has one.
pub merge_rows-first_value :
    (rows : List Row) (field_names : List String)
    → merge_rows rows field_names ≡ map (λ name. (name, first_value name rows)) field_names
unfolding merge_rows
merge_rows-first_value rows field_names = merge_into-with_values rows (λ name. none) field_names
