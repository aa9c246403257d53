-- ===== src/Cursor.antt =====
-- Cursors: ers/commons/domain/cursor.py, and `_parse_cursor_sort_value` of
-- ers/commons/adapters/decision_repository.py. JSON, base64 and ISO dates are the standard library's.
use entity_resolution_servic.Prelude.{arith, ℕ, String, ◌≡◌, Bool, true, false, Option, none, some}
use entity_resolution_servic.Effects.{Result, ok, err, invalid_cursor, value_error, other_error}

-- The fields that a listing is sorted by. The last one is computed for each row.
pub data SortField : Type 0 where
  confidence created updated cluster_size : SortField

-- A sort value: null, a float or an integer, a date and time. A text only comes from a cursor that
-- was not made here.
pub data SortValue : Type 0 where
  absent : SortValue
  number instant : ℕ → SortValue
  text : String → SortValue

pub data Json : Type 0 where
  json_null : Json
  json_number : ℕ → Json
  json_text : String → Json

-- `json` of {"s": …, "i": …}, `base64.urlsafe_b64…`, and `datetime`.
pub record Codec : Type 0 where
  pub dumps : Json → String → String
  pub loads : String → Option (Json × String)
  pub encode64 : String → String
  pub decode64 : String → Option String
  pub isoformat : ℕ → String
  pub fromisoformat : String → Option ℕ

pub record IsCodec (c : Codec) : Type 0 where
  pub loads-dumps : (j : Json) (i : String) → c.loads (c.dumps j i) ≡ some (j, i)
  pub decode64-encode64 : (s : String) → c.decode64 (c.encode64 s) ≡ some s
  pub fromisoformat-isoformat : (t : ℕ) → c.fromisoformat (c.isoformat t) ≡ some t

-- `sort_field in self._DATETIME_FIELDS`
abbrev pub is_datetime_field : SortField → Bool
is_datetime_field created = true
is_datetime_field updated = true
is_datetime_field confidence = false
is_datetime_field cluster_size = false

module _ (c : Codec) where
  abbrev serialized : SortValue → Json
  serialized absent = json_null
  serialized (number n) = json_number n
  serialized (instant t) = json_text (c.isoformat t)
  serialized (text s) = json_text s

  unfoldable pub encode_cursor : SortValue → String → String
  encode_cursor value last_id = c.encode64 (c.dumps (serialized value) last_id)

  unfoldable pub load_payload : String → Result (Json × String)
  load_payload raw = elim (c.loads raw) [ none ↦ err invalid_cursor | some p ↦ ok p ]

  -- Whatever fails to decode is an invalid cursor.
  unfoldable pub decode_cursor : String → Result (Json × String)
  unfolding load_payload
  decode_cursor cursor = elim (c.decode64 cursor) [
    | none ↦ err invalid_cursor
    | some raw ↦ load_payload raw
  ]

  -- `datetime.fromisoformat` raises ValueError, or TypeError on a number.
  unfoldable pub parse_datetime : Json → Result SortValue
  parse_datetime json_null = ok absent
  parse_datetime (json_number n) = err other_error
  parse_datetime (json_text s) = elim (c.fromisoformat s) [
    | none ↦ err value_error
    | some t ↦ ok (instant t)
  ]

  abbrev plain : Json → SortValue
  plain json_null = absent
  plain (json_number n) = number n
  plain (json_text s) = text s

  unfoldable pub parse_cursor_sort_value : Json → SortField → Result SortValue
  unfolding parse_datetime
  parse_cursor_sort_value value field = elim (is_datetime_field field) [
    | true ↦ parse_datetime value
    | false ↦ ok (plain value)
  ]

  -- `decode_cursor` and `_parse_cursor_sort_value`, one after the other.
  unfoldable pub read_cursor : String → SortField → Result (SortValue × String)
  unfolding decode_cursor parse_cursor_sort_value
  read_cursor cursor field = elim (decode_cursor cursor) [
    | err e ↦ err e
    | ok (value, last_id) ↦ elim (parse_cursor_sort_value value field) [
      | err e ↦ err e
      | ok v ↦ ok (v, last_id)
    ]
  ]

-- The values that a field can have.
abbrev pub Suits : SortValue → SortField → Type 0
Suits absent field = Unit
Suits (number n) field = is_datetime_field field ≡ false
Suits (instant t) field = is_datetime_field field ≡ true
Suits (text s) field = is_datetime_field field ≡ false

-- A cursor made for a row is read back as the row's sort value and id, if the value is one that the
-- sort field can have.
pub read_cursor-encode_cursor :
    (c : Codec)
    → IsCodec c
    → (value : SortValue) (field : SortField) (last_id : String) → Suits value field
    → read_cursor c (encode_cursor c value last_id) field ≡ ok (value, last_id)
unfolding read_cursor encode_cursor
read_cursor-encode_cursor c laws absent field last_id h =
    ground (
      arith,
      laws.loads-dumps json_null last_id,
      laws.decode64-encode64 (c.dumps json_null last_id),
    )
read_cursor-encode_cursor c laws (number n) field last_id h = ground (
  arith,
  laws.loads-dumps (json_number n) last_id,
  laws.decode64-encode64 (c.dumps (json_number n) last_id),
)
read_cursor-encode_cursor c laws (instant t) field last_id h = ground (
  arith,
  laws.loads-dumps (json_text (c.isoformat t)) last_id,
  laws.decode64-encode64 (c.dumps (json_text (c.isoformat t)) last_id),
  laws.fromisoformat-isoformat t,
)
read_cursor-encode_cursor c laws (text s) field last_id h = ground (
  arith,
  laws.loads-dumps (json_text s) last_id,
  laws.decode64-encode64 (c.dumps (json_text s) last_id),
)
