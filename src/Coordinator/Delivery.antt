-- ===== src/Coordinator/Delivery.antt =====
-- What a client gets that follows the pages of a bulk refresh to the last one.
use entity_resolution_servic.Prelude.{
  arith, ℕ, String, ◌≡◌, ◌<◌, refl, sym, ap, subst, ◌∙◌, true, false, Option, none, some, List,
  length, Bool, ◌==◌, ◌&&◌, string_eq,
}
use entity_resolution_servic.Dict.{lookup, put}
use entity_resolution_servic.Effects.{
  ok, Action, pure, guard, ◌>>=◌, ◌>>◌, >>=-ok, >>=-run, source_not_found,
}
use entity_resolution_servic.Backend.{Backend, IsBackend, IsHealthy}
use entity_resolution_servic.Backend.Documents.{State, LookupRequestRecord}
use entity_resolution_servic.Backend.Queries.{
  Condition, Row, Queries, IsQueries, rows_of, row_before, request_of,
}
use entity_resolution_servic.Backend.Order.{HasDistinctIds}
use entity_resolution_servic.Cursor.{updated, Codec, IsCodec}
use entity_resolution_servic.Registry.{get_lookup_state, advance_snapshot}
use entity_resolution_servic.Registry.Snapshots.{IsAfter, advance_snapshot_later}
use entity_resolution_servic.DecisionStore.Queries.{
  CursorPage, find_delta_for_source, delta_query, query_decisions_delta, effective_size,
}
use entity_resolution_servic.DecisionStore.Pages.{
  read_all, cursor_of, rendered, docs, page_after, Serves, Leaves, Collects, find_sorted-page,
}
use entity_resolution_servic.DecisionStore.Gathering.{read_all-sort}
use entity_resolution_servic.DecisionStore.Listings.{
  has_moved_since, is_moved, delta_query_rows, is_moved-IsSortable, length-docs,
}
use entity_resolution_servic.Paging.{filter, sort}
use entity_resolution_servic.Paging.Size.{All-filter_passing}
use entity_resolution_servic.Coordinator.BulkRefresh.{
  snapshot_of, exists_by_source, source_has_requests, advance_to_now, finish_page, refresh_bulk,
}

-- A decision of the source whose placement has moved, later than the marker of the source if it
-- has one.
abbrev pub is_news : String → Option LookupRequestRecord → Row → Bool
is_news source_id none r =
    r.document.about_entity_mention.source_id == source_id
    && has_moved_since none r.document.updated_at
is_news source_id (some m) r =
    r.document.about_entity_mention.source_id == source_id
    && has_moved_since (some m.last_snapshot) r.document.updated_at

is_moved-is_news :
    (source_id : String) (m : Option LookupRequestRecord) (rows : List Row)
    → filter (is_moved source_id (snapshot_of m)) rows ≡ filter (is_news source_id m) rows
is_moved-is_news source_id none rows = refl
is_moved-is_news source_id (some m) rows = refl

-- Nothing has changed but the marker of the source, which is later than it was.
abbrev pub IsAdvanced : String → State → State → Type 0
IsAdvanced source_id s s' =
    (r : LookupRequestRecord) × (s' ≡ record s { lookup_states = put source_id r s.lookup_states })
    × IsAfter (lookup source_id s.lookup_states) r.last_snapshot

-- The clock is past the marker as long as the state is this one.
abbrev pub IsPast : (b : Backend) → String → State → Type 0
IsPast b source_id s =
    (v : b.World) → b.state v ≡ s → IsAfter (lookup source_id s.lookup_states) (b.now v).0

module _ (b : Backend) (laws : IsBackend b) (healthy : IsHealthy b) (q : Queries b)
    (queries : IsQueries b q) (codec : Codec) (codec_laws : IsCodec codec) (source_id : String)
    (s : State) where
  abbrev marked : LookupRequestRecord → State → State
  marked r u = record u { lookup_states = put source_id r u.lookup_states }

  advance-IsAdvanced :
      (t : ℕ) (v : b.World)
      → b.state v ≡ s
      → IsAfter (lookup source_id s.lookup_states) t
      → (r : LookupRequestRecord) × ((advance_snapshot b source_id t v).0 ≡ ok r)
        × IsAdvanced source_id s (b.state (advance_snapshot b source_id t v).1)
  advance-IsAdvanced t v same after =
      let (answered, left) =
        advance_snapshot_later b laws healthy source_id t v (lookup source_id s.lookup_states)
          (ap (λ u. lookup source_id u.lookup_states) same) after in
      (_, answered, (_, left ∙ ap (marked _) same, after))

  advance_to_now-IsAdvanced :
      IsPast b source_id s
      → (v : b.World) → b.state v ≡ s
      → (r : LookupRequestRecord) × ((advance_to_now b q source_id v).0 ≡ ok r)
        × IsAdvanced source_id s (b.state (advance_to_now b q source_id v).1)
  unfolding advance_to_now
  advance_to_now-IsAdvanced past v same =
      advance-IsAdvanced (b.now v).0 (b.now v).1 (laws.now_state v ∙ same) (past v same)

  abbrev Done : b.World → Type 0
  Done v = IsAdvanced source_id s (b.state v)

  module _ (default_size max_size : ℕ) where
    abbrev ending : CursorPage → Action b.World CursorPage
    ending = finish_page b q codec default_size max_size source_id

    finish_page-Leaves :
        IsPast b source_id s
        → (c : ℕ) (results : List Row) (next : Option Row) (v : b.World) → b.state v ≡ s
        → let page = rendered codec updated c (record { results = results; next = next }) in
          (u : b.World) × (ending page v ≡ (ok page, u)) × Leaves b s Done next u
    unfolding finish_page
    finish_page-Leaves past c results none v same =
        let page = rendered codec updated c (record { results = results; next = none }) in
        let (r, answered, done) = advance_to_now-IsAdvanced past v same in
        (
          (advance_to_now b q source_id v).1,
          >>=-ok (advance_to_now b q source_id) (λ x. pure {W = b.World} page) v r answered,
          done,
        )
    finish_page-Leaves past c results (some r) v same = (v, refl, same)

    source_has_requests-run :
        (id : String) (w : b.World)
        → b.state w ≡ s
        → request_of source_id s.requests ≡ some id
        → (v : b.World) × (source_has_requests b q source_id w ≡ (ok true, v)) × (b.state v ≡ s)
    unfolding source_has_requests exists_by_source
    source_has_requests-run id w same known =
        let reply : (q.find_request_of source_id w).0 ≡ ok (some id) =
          rw (queries.request_reply source_id w, healthy.no_fault w, same, known) refl in
        (
          (q.find_request_of source_id w).1,
          >>=-ok (q.find_request_of source_id)
              (λ doc. pure {W = b.World} (elim doc [ none ↦ false | some i ↦ true ])) w (some id)
              reply,
          queries.request_state source_id w ∙ same,
        )

    get_lookup_state-run :
        (w : b.World)
        → b.state w ≡ s
        → (v : b.World) × (get_lookup_state b source_id w
            ≡ (ok (lookup source_id s.lookup_states), v))
          × (b.state v ≡ s)
    unfolding get_lookup_state
    get_lookup_state-run w same =
        let found = laws.lookup_states_laws.find_reply source_id w in
        (
          (b.lookup_states.find_one source_id w).1,
          ground (arith, found, healthy.no_fault w, same),
          laws.lookup_states_laws.find_state source_id w ∙ same,
        )

    module _ (page_size : Option ℕ) where
      abbrev refresh : Option String → Action b.World CursorPage
      refresh cursor = refresh_bulk b q codec default_size max_size source_id cursor page_size

      abbrev query : Condition
      query = delta_query source_id (snapshot_of (lookup source_id s.lookup_states))

      abbrev limit : ℕ
      limit = effective_size b q codec default_size max_size page_size

      refresh_bulk-Serves :
          IsPast b source_id s
          → (id : String) → request_of source_id s.requests ≡ some id
          → Serves b q codec query updated true limit s Done refresh
      unfolding refresh_bulk query_decisions_delta find_delta_for_source
      refresh_bulk-Serves past id known o w same =
          let marker = lookup source_id s.lookup_states in
          let cursor = cursor_of codec updated o in
          let delta : Option LookupRequestRecord → Action b.World CursorPage = λ m.
            query_decisions_delta b q codec default_size max_size source_id (snapshot_of m) cursor
              page_size
            >>= ending in
          let state_then : Action b.World CursorPage = get_lookup_state b source_id >>= delta in
          let (v1, run1, same1) = source_has_requests-run id w same known in
          let (v2, run2, same2) = get_lookup_state-run v1 same1 in
          let (v3, run3, kept) =
            find_sorted-page b laws healthy q queries codec codec_laws query updated true
              (λ h. cc h) limit 0 o v2 in
          let p = page_after q.engine updated true limit (docs q query s) o in
          let page_run =
            run3
            ∙ ap
                (λ t. (
                  ok (
                      rendered codec updated 0
                        (page_after q.engine updated true limit (docs q query t) o)),
                  v3,
                ))
                same2 in
          let (u, run4, leaves) = finish_page-Leaves past 0 p.results p.next v3 (kept ∙ same2) in
          (
            0,
            u,
            >>=-run (source_has_requests b q source_id)
                  (λ exists. guard exists (source_not_found source_id) >> state_then) w v1 true run1
                ∙ >>=-run (get_lookup_state b source_id) delta v1 v2 marker run2
                ∙ >>=-run
                    (query_decisions_delta b q codec default_size max_size source_id
                      (snapshot_of marker) cursor page_size)
                    ending v2 v3 (rendered codec updated 0 p) page_run
                ∙ run4,
            leaves,
          )

      -- On a store that nobody writes to meanwhile, whose commands do not fail, and with a clock
      -- past the source's marker: a client of a source with requests that calls `refresh_bulk` with
      -- cursor after cursor, at most as often as the store has decisions and once more, gets each
      -- decision of the source that moved since the marker exactly once, in the order of their
      -- updates; then the marker, and nothing else, has changed, to a later time. A page must have
      -- room for one decision, and the ids must be distinct.
      pub refresh_bulk-Collects :
          (n : ℕ) (w : b.World) (id : String)
          → b.state w ≡ s
          → IsPast b source_id s
          → request_of source_id s.requests ≡ some id
          → 0 < effective_size b q codec default_size max_size page_size
          → HasDistinctIds q.engine (rows_of s.decisions)
          → length s.decisions < n
          → Collects b
              (λ v. IsAdvanced source_id s (b.state v))
              (some (
                sort (row_before q.engine true updated) (
                  filter
                    (is_news source_id (lookup source_id s.lookup_states))
                    (rows_of s.decisions))))
              (read_all n
                (λ cursor. refresh_bulk b q codec default_size max_size source_id cursor page_size)
                none
                w)
      refresh_bulk-Collects n w id same past known positive distinct enough =
          let since = snapshot_of (lookup source_id s.lookup_states) in
          subst
            (λ found.
              Collects b Done (some (sort (row_before q.engine true updated) found))
                (read_all n refresh none w))
            (delta_query_rows q.engine source_id since (rows_of s.decisions)
              ∙ is_moved-is_news source_id (lookup source_id s.lookup_states) (rows_of s.decisions))
            (read_all-sort b q codec query updated true limit s Done refresh
              (refresh_bulk-Serves past id known) n w same positive
              (All-filter_passing _ _ (is_moved-IsSortable q.engine source_id since)
                (rows_of s.decisions))
              distinct
              (subst (λ u. length (sort (row_before q.engine true updated) (docs q query u)) < n)
                same
                (length-docs b laws healthy q queries codec codec_laws
                  (row_before q.engine true updated) query n w
                  (subst (λ u. length u.decisions < n) (sym same) enough))))
