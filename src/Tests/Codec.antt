-- ===== src/Tests/Codec.antt =====
-- A codec of cursors in unary numbers and marked texts: the laws of the interface can hold.
use Prim.Native.Char.{Char, char, code}
use Prim.Native.String.{String, [], ◌∷◌}
use entity_resolution_servic.Prelude.{
  ℕ, zero, suc, ◌≡◌, refl, Option, none, some, nat_beq, if◌then◌else◌,
}
use entity_resolution_servic.Cursor.{Json, json_null, json_number, json_text, Codec, IsCodec}

abbrev pub one : Char
one = char 49 tt

abbrev pub two : Char
two = char 50 tt

abbrev pub unary : ℕ → String → String
unary zero rest = two ∷ rest
unary (suc n) rest = one ∷ unary n rest

abbrev pub counted : Option (ℕ × String) → Option (ℕ × String)
counted none = none
counted (some (n, rest)) = some (suc n, rest)

abbrev pub read_unary : String → Option (ℕ × String)
read_unary [] = none
read_unary (c ∷ s) =
    let more = read_unary s in if nat_beq (code c) 49 then counted more else some (0, s)

pub read_unary-unary : (n : ℕ) (rest : String) → read_unary (unary n rest) ≡ some (n, rest)
read_unary-unary zero rest = refl
read_unary-unary (suc n) rest = rw (read_unary-unary n rest) refl

abbrev quoted : String → String → String
quoted [] rest = two ∷ rest
quoted (c ∷ s) rest = one ∷ c ∷ quoted s rest

abbrev prefixed : Char → Option (String × String) → Option (String × String)
prefixed c none = none
prefixed c (some (s, rest)) = some (c ∷ s, rest)

abbrev read_quoted : String → Option (String × String)
read_quoted [] = none
read_quoted (c ∷ []) = some ([], [])
read_quoted (c ∷ d ∷ s) =
    let more = read_quoted s in if nat_beq (code c) 49 then prefixed d more else some ([], d ∷ s)

read_quoted-quoted : (s rest : String) → read_quoted (quoted s rest) ≡ some (s, rest)
read_quoted-quoted [] [] = refl
read_quoted-quoted [] (c ∷ rest) = refl
read_quoted-quoted (c ∷ s) rest = rw (read_quoted-quoted s rest) refl

abbrev written : Json → String → String
written json_null i = unary 0 i
written (json_number n) i = unary 1 (unary n i)
written (json_text s) i = unary 2 (quoted s i)

abbrev number_of : Option (ℕ × String) → Option (Json × String)
number_of none = none
number_of (some (n, i)) = some (json_number n, i)

abbrev text_of : Option (String × String) → Option (Json × String)
text_of none = none
text_of (some (s, i)) = some (json_text s, i)

abbrev read_tagged : Option (ℕ × String) → Option (Json × String)
read_tagged none = none
read_tagged (some (zero, s)) = some (json_null, s)
read_tagged (some (suc zero, s)) = number_of (read_unary s)
read_tagged (some (suc (suc _), s)) = text_of (read_quoted s)

abbrev first_of : Option (ℕ × String) → Option ℕ
first_of none = none
first_of (some (n, rest)) = some n

abbrev pub plain_codec : Codec
plain_codec = record {
  dumps = written;
  loads = λ s. read_tagged (read_unary s);
  encode64 = λ s. s;
  decode64 = λ s. some s;
  isoformat = λ t. unary t [];
  fromisoformat = λ s. first_of (read_unary s);
}

loads-written : (j : Json) (i : String) → read_tagged (read_unary (written j i)) ≡ some (j, i)
loads-written json_null i = refl
loads-written (json_number n) i = rw (read_unary-unary n i) refl
loads-written (json_text s) i = rw (read_quoted-quoted s i) refl

pub plain_codec-IsCodec : IsCodec plain_codec
plain_codec-IsCodec = record {
  loads-dumps = loads-written;
  decode64-encode64 = λ s. refl;
  fromisoformat-isoformat = λ t. rw (read_unary-unary t []) refl;
}
