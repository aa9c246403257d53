-- ===== src/Registry/Snapshots.antt =====
-- The snapshot marker of a source only moves forward.
use entity_resolution_servic.Prelude.{
  ℕ, ◌<◌, ◌≤◌, leb, String, ◌≡◌, ◌⊎◌, Option, none, some, arith, eq_iff, ◌==◌, string_eq,
  Option-cases, inl, inr, if◌then◌else◌,
}
use entity_resolution_servic.Dict.{lookup, put, lookup-put, lookup-put_self}
use entity_resolution_servic.Effects.{Result, ok, err, snapshot_regression}
use entity_resolution_servic.Backend.{Backend, IsBackend, IsHealthy}
use entity_resolution_servic.Backend.Documents.{LookupRequestRecord, State}
use entity_resolution_servic.Registry.{advance_snapshot}

-- There was no marker, or a time is after it.
abbrev pub IsAfter : Option LookupRequestRecord → ℕ → Type 0
IsAfter none t = Unit
IsAfter (some old) t = old.last_snapshot < t

module _ (b : Backend) (laws : IsBackend b) (healthy : IsHealthy b) (source_id : String)
    (t : ℕ) where
  open b use {World, state}

  abbrev marker : ℕ → LookupRequestRecord
  marker now = record {
    source_id = source_id;
    last_snapshot = t;
    updated_at = if leb t now then now else t;
  }

  abbrev moved : ℕ → State → Result LookupRequestRecord × State
  moved now s =
      (ok (marker now), record s { lookup_states = put source_id (marker now) s.lookup_states })

  abbrev advanced_from : Option LookupRequestRecord → ℕ → State → Result LookupRequestRecord × State
  advanced_from none now s = moved now s
  advanced_from (some r) now s =
      if leb t r.last_snapshot
      then (err (snapshot_regression source_id r.last_snapshot t), s)
      else moved now s

  module _ (w : World) where
    abbrev read : World
    read = (b.lookup_states.find_one source_id w).1

    abbrev timed : World
    timed = (b.now read).1

    abbrev now : ℕ
    now = (b.now read).0

    abbrev Advances : Type 0
    Advances =
        let (r, v) = advance_snapshot b source_id t w in
        let (r', s) = advanced_from (lookup source_id (state w).lookup_states) now (state w) in
        (r ≡ r') × (state v ≡ s)

    advance_snapshot-advances : Advances
    unfolding advance_snapshot
    advance_snapshot-advances = ground (
      arith,
      laws.lookup_states_laws.find_reply source_id w,
      laws.lookup_states_laws.find_state source_id w,
      healthy.no_fault w,
      laws.now_state read,
      laws.lookup_states_laws.replace_reply source_id (marker now) timed,
      laws.lookup_states_laws.replace_state source_id (marker now) timed (healthy.no_fault timed),
      healthy.no_fault timed,
    )

    -- A later time is accepted.
    pub advance_snapshot_later :
        (old : Option LookupRequestRecord)
        → lookup source_id (state w).lookup_states ≡ old
        → IsAfter old t
        → let (r, v) = advance_snapshot b source_id t w in
          let (r', s) = moved now (state w) in (r ≡ r') × (state v ≡ s)
    advance_snapshot_later none found later =
        let (answered, left) = advance_snapshot-advances in ground (arith, answered, left, found)
    advance_snapshot_later (some r) found later =
        let (answered, left) = advance_snapshot-advances in
        ground (arith, answered, left, found, later)

    abbrev after : State
    after = state (advance_snapshot b source_id t w).1

    -- While no command fails, advancing a marker moves no marker backwards, whether it is accepted
    -- or refused: every source keeps its marker or gets a strictly later one.
    pub advance_snapshot_monotone :
        (j : String) (r : LookupRequestRecord)
        → lookup j (state w).lookup_states ≡ some r
        → (r' : LookupRequestRecord) × (lookup j after.lookup_states ≡ some r')
          × ((r' ≡ r) ⊎ (r.last_snapshot < r'.last_snapshot))
    advance_snapshot_monotone j r h =
        let r' : LookupRequestRecord =
          if source_id == j then (if leb t r.last_snapshot then r else marker now) else r in
        (
          r',
          rw advance_snapshot-advances.1 (
              ground (
                arith,
                eq_iff source_id j,
                lookup-put source_id j (marker now) (state w).lookup_states,
              )),
          ground arith,
        )

    -- An accepted marker is the one stored, at the time asked for, and it was later than the old one.
    pub advance_snapshot_accepted :
        (r : LookupRequestRecord)
        → (advance_snapshot b source_id t w).0 ≡ ok r
        → (lookup source_id after.lookup_states ≡ some r)
          × (r.last_snapshot ≡ t)
          × (t ≤ r.updated_at)
          × IsAfter (lookup source_id (state w).lookup_states) t
    advance_snapshot_accepted r h =
        let f1 = advance_snapshot-advances in
        let f2 = lookup-put_self source_id (marker now) (state w).lookup_states in
        (
          rw f1.1 (ground (arith, f1.0, f2)),
          ground (arith, f1.0),
          ground (arith, f1.0),
          elim (Option-cases (lookup source_id (state w).lookup_states)) [
            | inl absent ↦ rw absent tt
            | inr (old, present) ↦ rw present (ground (arith, f1.0))
          ],
        )
