-- ===== src/Registry/Requests.antt =====
-- Registration is idempotent, and a stored record never changes.
use entity_resolution_servic.Prelude.{
  ℕ, String, ◌≡◌, false, Option, none, some, ap, arith, eq_iff, ◌==◌, string_eq, Option-cases, inl,
  inr, if◌then◌else◌,
}
use entity_resolution_servic.Dict.{lookup, put, lookup-put, lookup-put_self}
use entity_resolution_servic.Domain.{EntityMention}
use entity_resolution_servic.Effects.{
  Action, Result, Result-cases, ok, err, value_error, idempotency_conflict,
}
use entity_resolution_servic.Backend.{Backend, IsBackend, IsHealthy}
use entity_resolution_servic.Backend.Documents.{ResolutionRequestRecord, State}
use entity_resolution_servic.Registry.{register_resolution_request, triad_id, some_field_empty}

module _ (b : Backend) (laws : IsBackend b) (healthy : IsHealthy b)
    (mention_parser : EntityMention → Result String) (m : EntityMention) where
  open b use {World, state}

  abbrev key : String
  key = triad_id m.identified_by

  -- The record that a first registration stores, at the time that the clock shows.
  abbrev new_record : String → ℕ → ResolutionRequestRecord
  new_record parsed now = record {
    mention = m;
    content_hash = b.sha256 m.content;
    received_at = now;
    parsed_representation = parsed;
  }

  abbrev registered_new : Result String → ℕ → State → Result ResolutionRequestRecord × State
  registered_new (err e) now s = (err e, s)
  registered_new (ok parsed) now s =
      if some_field_empty m.identified_by then (err value_error, s) else (
        ok (new_record parsed now),
        record s { requests = put key (new_record parsed now) s.requests },
      )

  abbrev registered_from :
      Option ResolutionRequestRecord → ℕ → State → Result ResolutionRequestRecord × State
  registered_from none now s = registered_new (mention_parser m) now s
  registered_from (some r) now s =
      if r.content_hash == b.sha256 m.content
      then (ok r, s)
      else (err (idempotency_conflict m.identified_by), s)

  -- What a registration promises.
  unfoldable pub registered : ℕ → State → Result ResolutionRequestRecord × State
  registered now s =
      if m.content == ""
      then (err value_error, s)
      else registered_from (lookup key s.requests) now s

  module _ (w : World) where
    abbrev read : World
    read = (b.requests.find_one key w).1

    abbrev timed : World
    timed = (b.now read).1

    abbrev Runs : Type 0
    Runs =
        let (r, v) = register_resolution_request b mention_parser m w in
        let (r', s) = registered (b.now read).0 (state w) in (r ≡ r') × (state v ≡ s)

    runs_present : (r : ResolutionRequestRecord) → lookup key (state w).requests ≡ some r → Runs
    unfolding register_resolution_request registered
    runs_present r h = ground (
      arith,
      laws.requests_laws.find_reply key w,
      laws.requests_laws.find_state key w,
      healthy.no_fault w,
    )

    runs_parsed :
        lookup key (state w).requests ≡ none
        → (parsed : String) → mention_parser m ≡ ok parsed
        → Runs
    unfolding register_resolution_request registered
    runs_parsed h parsed e =
        let r : ResolutionRequestRecord = new_record parsed (b.now read).0 in
        let f1 = laws.requests_laws.find_reply key w in
        let f2 = laws.requests_laws.find_state key w in
        let f3 = laws.now_state read in
        let absent : lookup key (state timed).requests ≡ none = rw (f3, f2) h in
        ground (
          arith,
          f1,
          f2,
          f3,
          healthy.no_fault w,
          laws.requests_laws.insert_reply key r timed,
          laws.requests_laws.insert_state key r timed (healthy.no_fault timed) absent,
          healthy.no_fault timed,
        )

    runs_absent : lookup key (state w).requests ≡ none → Runs
    unfolding register_resolution_request registered
    runs_absent h = elim (Result-cases (mention_parser m)) [
      | inl (parsed, e) ↦ runs_parsed h parsed e
      | inr (x, e) ↦ ground (
        arith,
        laws.requests_laws.find_reply key w,
        laws.requests_laws.find_state key w,
        healthy.no_fault w,
        laws.now_state read,
      )
    ]

    runs : Runs
    runs = elim (Option-cases (lookup key (state w).requests)) [
      | inl absent ↦ runs_absent absent
      | inr (r, present) ↦ runs_present r present
    ]

    abbrev after : State
    after = state (register_resolution_request b mention_parser m w).1

    -- While no command fails, no registration, accepted or refused, changes or drops a record that
    -- is already stored.
    pub register_keeps_records :
        (k : String) (r : ResolutionRequestRecord)
        → lookup k (state w).requests ≡ some r
        → lookup k after.requests ≡ some r
    unfolding registered
    register_keeps_records k r h = rw runs.1 (elim (Result-cases (mention_parser m)) [
      | inl (parsed, e) ↦ ground (
        arith,
        eq_iff key k,
        lookup-put key k (new_record parsed (b.now read).0) (state w).requests,
      )
      | inr (x, e) ↦ ground arith
    ])

    stored_after_ok :
        (r : ResolutionRequestRecord)
        → (register_resolution_request b mention_parser m w).0 ≡ ok r
        → (lookup key after.requests ≡ some r) × (r.content_hash ≡ b.sha256 m.content)
    unfolding registered
    stored_after_ok r h = elim (Result-cases (mention_parser m)) [
      | inl (parsed, e) ↦
          let d : ResolutionRequestRecord = new_record parsed (b.now read).0 in
          let f1 = lookup-put_self key d (state w).requests in
          let f2 = eq_iff r.content_hash (b.sha256 m.content) in
          (rw runs.1 (ground (arith, runs.0, f1)), ground (arith, runs.0, f2))
      | inr (x, e) ↦
          let f2 = eq_iff r.content_hash (b.sha256 m.content) in
          (rw runs.1 (ground (arith, runs.0)), ground (arith, runs.0, f2))
    ]

module _ (b : Backend) (laws : IsBackend b) (healthy : IsHealthy b)
    (mention_parser : EntityMention → Result String) where
  open b use {World, state}

  abbrev register : EntityMention → Action World ResolutionRequestRecord
  register = register_resolution_request b mention_parser

  -- After a mention has been registered, a mention with the same triad is answered with the stored
  -- record if its content has the same hash, and refused if it has another; neither writes.
  pub register_again :
      (m m' : EntityMention) (w : World) (r : ResolutionRequestRecord)
      → (register m w).0 ≡ ok r
      → m'.identified_by ≡ m.identified_by
      → (m'.content == "") ≡ false
      → let (r', v) = register m' (register m w).1 in
        (r' ≡ (
          if b.sha256 m.content == b.sha256 m'.content
          then ok r
          else err (idempotency_conflict m.identified_by)))
        × (state v ≡ state (register m w).1)
  unfolding registered
  register_again m m' w r h same filled =
      let w' = (register m w).1 in
      let f1 = stored_after_ok b laws healthy mention_parser m w r h in
      let f2 = runs b laws healthy mention_parser m' w' in
      let f3 : lookup (triad_id m'.identified_by) (state w').requests ≡ some r = rw same f1.0 in
      ground (arith, f1, f2, f3, ap triad_id same)
