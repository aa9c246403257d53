-- ===== src/MentionParser/Paths.antt =====
-- The texts of the mapping configuration: property paths, prefixed names, and the regular expression
-- of a path segment.
use Prim.Native.Char.{Char, code}
use Prim.Native.String.{String, [], ◌∷◌}
use entity_resolution_servic.Prelude.{
  ℕ, leb, nat_beq, Bool, true, false, ◌&&◌, ◌||◌, Option, none, some, List, if◌then◌else◌,
}
use mathlib.Core.List.{[] as nil, ◌∷◌ as cons}

abbrev between : ℕ → ℕ → ℕ → Bool
between lo hi n = leb lo n && leb n hi

-- [a-zA-Z]
abbrev is_letter : ℕ → Bool
is_letter n = between b'a' b'z' n || between b'A' b'Z' n

-- [a-zA-Z0-9_-]
abbrev is_prefix_char : ℕ → Bool
is_prefix_char n = is_letter n || (between b'0' b'9' n || (nat_beq n b'_' || nat_beq n b'-'))

-- [a-zA-Z0-9_./-]
abbrev is_local_char : ℕ → Bool
is_local_char n = is_prefix_char n || (nat_beq n b'.' || nat_beq n b'/')

abbrev is_empty : String → Bool
is_empty [] = true
is_empty (c ∷ s) = false

-- `$` also matches before a final line feed.
abbrev local_rest : String → Bool
local_rest [] = true
local_rest (c ∷ s) =
    let rest = local_rest s in
    if is_local_char (code c) then rest else nat_beq (code c) 10 && is_empty s

abbrev local_name : String → Bool
local_name [] = false
local_name (c ∷ s) = is_letter (code c) && local_rest s

abbrev prefix_rest : String → Bool
prefix_rest [] = false
prefix_rest (c ∷ s) =
    let rest = prefix_rest s in
    if is_prefix_char (code c) then rest else nat_beq (code c) b':' && local_name s

-- `_SEGMENT_RE.match`
unfoldable pub is_segment : String → Bool
is_segment [] = false
is_segment (c ∷ s) = is_letter (code c) && prefix_rest s

abbrev onto : Char → List String → List String
onto c nil = cons (c ∷ []) nil
onto c (cons s ss) = cons (c ∷ s) ss

-- `text.split(sep)` for a separator of one character, given by its code.
unfoldable pub split : ℕ → String → List String
split sep [] = cons [] nil
split sep (c ∷ s) =
    let rest = split sep s in if nat_beq (code c) sep then cons [] rest else onto c rest

abbrev pub started : Char → Option (String × String) → Option (String × String)
started c none = none
started c (some (a, b)) = some (c ∷ a, b)

-- The two parts of `text.split(sep, 1)`, if there are two.
unfoldable pub split_once : ℕ → String → Option (String × String)
split_once sep [] = none
split_once sep (c ∷ s) =
    let rest = split_once sep s in if nat_beq (code c) sep then some ([], s) else started c rest

-- `text.split(sep)[0]`
unfoldable pub first_part : ℕ → String → String
first_part sep [] = []
first_part sep (c ∷ s) =
    let rest = first_part sep s in if nat_beq (code c) sep then [] else c ∷ rest
