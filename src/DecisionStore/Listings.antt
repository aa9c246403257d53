-- ===== src/DecisionStore/Listings.antt =====
-- What `query_decisions_delta`, `query_decisions_paginated` and `find_with_filters` deliver.
use entity_resolution_servic.Prelude.{
  arith, ℕ, suc, ltb, String, ◌≡◌, ◌≢◌, ◌<◌, refl, sym, ap, subst, ◌∙◌, Bool, true, false, Option,
  none, some, List, [], ◌∷◌, length, All, ◌&&◌, ◌==◌, string_eq,
}
use entity_resolution_servic.Dict.{Dict}
use entity_resolution_servic.Backend.Documents.{State, DecisionDocument}
use entity_resolution_servic.Domain.{EntityMentionIdentifier}
use entity_resolution_servic.Effects.{ok, Action, >>=-ok}
use entity_resolution_servic.Backend.{Backend, IsBackend, IsHealthy}
use entity_resolution_servic.Backend.Queries.{
  Condition, everything, Row, Queries, IsQueries, Engine, holds, rows_of, row_before,
}
use entity_resolution_servic.Backend.Order.{HasDistinctIds}
use entity_resolution_servic.Cursor.{SortField, updated, cluster_size, Codec, IsCodec}
use entity_resolution_servic.DecisionStore.Queries.{
  CursorPage, DecisionFilters, find_sorted, find_delta_for_source, delta_query, find_with_filters,
  query_decisions_delta, query_decisions_paginated, effective_size, build_query,
  augment_query_with_curation_filters, get_sort_info,
}
use entity_resolution_servic.DecisionStore.Pages.{
  read_all, cursor_of, rendered, docs, page_after, Serves, Gathers, find_sorted-page, Leaves,
}
use entity_resolution_servic.DecisionStore.Gathering.{read_all-sort}
use entity_resolution_servic.DecisionStore.Seek.{IsSortable}
use entity_resolution_servic.Paging.{filter, sort}
use entity_resolution_servic.Paging.Walk.{filter_ext, filter_keeps}
use entity_resolution_servic.Paging.Size.{length-sort, length-filter, All-filter_passing}

pub All-always : {A : Type 0} (P : A → Type 0) → ((x : A) → P x) → (xs : List A) → All P xs
All-always P f [] = tt
All-always P f (x ∷ xs) = (f x, All-always P f xs)

-- A decision of the source whose placement has moved, later than the time if there is one.
abbrev pub has_moved_since : Option ℕ → Option ℕ → Bool
has_moved_since since none = false
has_moved_since none (some t) = true
has_moved_since (some u) (some t) = ltb u t

abbrev pub is_moved : String → Option ℕ → Row → Bool
is_moved source_id since r =
    r.document.about_entity_mention.source_id == source_id
    && has_moved_since since r.document.updated_at

delta_query-is_moved :
    (e : Engine) (source_id : String) (since : Option ℕ) (r : Row)
    → holds e (delta_query source_id since) r ≡ is_moved source_id since r
unfolding holds delta_query
delta_query-is_moved e source_id none r = ground arith
delta_query-is_moved e source_id (some t) r = ground arith

pub delta_query_rows :
    (e : Engine) (source_id : String) (since : Option ℕ) (rows : List Row)
    → filter (holds e (delta_query source_id since)) rows ≡ filter (is_moved source_id since) rows
delta_query_rows e source_id since rows =
    filter_ext _ (is_moved source_id since) rows
      (All-always _ (λ r. delta_query-is_moved e source_id since r) rows)

pub is_moved-IsSortable :
    (e : Engine) (source_id : String) (since : Option ℕ) (r : Row)
    → holds e (delta_query source_id since) r ≡ true
    → IsSortable e updated r
unfolding holds delta_query
is_moved-IsSortable e source_id none r h = ground (arith, h)
is_moved-IsSortable e source_id (some t) r h = ground (arith, h)

length-rows_of : (docs : Dict DecisionDocument) → length (rows_of docs) ≡ length docs
length-rows_of [] = refl
length-rows_of (x ∷ xs) = ap suc (length-rows_of xs)

module _ (b : Backend) (laws : IsBackend b) (healthy : IsHealthy b) (q : Queries b)
    (queries : IsQueries b q) (codec : Codec) (codec_laws : IsCodec codec) where
  pub length-docs :
      (lt : Row → Row → Bool) (query : Condition) (n : ℕ) (w : b.World)
      → length (b.state w).decisions < n
      → length (sort lt (docs q query (b.state w))) < n
  length-docs lt query n w h = omega (
    arith,
    h,
    length-sort lt (docs q query (b.state w)),
    length-filter (holds q.engine query) (rows_of (b.state w).decisions),
    length-rows_of (b.state w).decisions,
  )

  kept-Leaves :
      (s : State) (next : Option Row) (v : b.World)
      → b.state v ≡ s
      → Leaves b s (λ u. b.state u ≡ s) next v
  kept-Leaves s none v kept = kept
  kept-Leaves s (some r) v kept = kept

  find_sorted-Serves :
      (query : Condition) (field : SortField) (ascending : Bool)
      → field ≢ cluster_size
      → (limit count : ℕ) (s : State)
      → Serves b q codec query field ascending limit s
          (λ u. b.state u ≡ s)
          (λ cursor.
            find_sorted b q codec query field ascending count
              (record { cursor = cursor; limit = limit }))
  find_sorted-Serves query field ascending stored limit count s o w same =
      let (v, run, kept) =
        find_sorted-page b laws healthy q queries codec codec_laws query field ascending stored
          limit count o w in
      (
        count,
        v,
        run
            ∙ ap
                (λ t. (
                  ok (
                      rendered codec field count
                        (page_after q.engine field ascending limit (docs q query t) o)),
                  v,
                ))
                same,
        kept-Leaves s _ v (kept ∙ same),
      )

  module _ (default_size max_size : ℕ) (page_size : Option ℕ) (n : ℕ) (w : b.World) where
    -- On a store that nobody writes to meanwhile, whose commands do not fail, a client that calls
    -- `query_decisions_delta` with cursor after cursor, at most as often as the store has decisions and
    -- once more, gets each decision of the source that moved since the given time exactly once, in the
    -- order of their updates; the store stays as it was. A page must have room for one decision, and
    -- the ids must be distinct.
    pub query_decisions_delta-Gathers :
        (source_id : String) (since : Option ℕ)
        → 0 < effective_size b q codec default_size max_size page_size
        → HasDistinctIds q.engine (rows_of (b.state w).decisions)
        → length (b.state w).decisions < n
        → Gathers b
            (sort
              (row_before q.engine true updated)
              (filter (is_moved source_id since) (rows_of (b.state w).decisions)))
            w
            (read_all n
              (λ cursor.
                query_decisions_delta b q codec default_size max_size source_id since cursor
                  page_size)
              none
              w)
    unfolding query_decisions_delta find_delta_for_source
    query_decisions_delta-Gathers source_id since positive distinct enough =
        let limit = effective_size b q codec default_size max_size page_size in
        let query = delta_query source_id since in
        let rows = rows_of (b.state w).decisions in
        subst
          (λ found. Gathers b (sort (row_before q.engine true updated) found) w (
            read_all n
              (λ cursor.
                query_decisions_delta b q codec default_size max_size source_id since cursor
                  page_size)
              none w))
          (delta_query_rows q.engine source_id since rows)
          (read_all-sort b q codec query updated true limit (b.state w) _ _
            (find_sorted-Serves query updated true (λ h. cc h) limit 0 (b.state w)) n w refl
            positive (All-filter_passing _ _ (is_moved-IsSortable q.engine source_id since) rows)
            distinct (length-docs _ query n w enough))

    -- On a store that nobody writes to meanwhile, whose commands do not fail, a client that calls
    -- `query_decisions_paginated` with cursor after cursor, at most as often as the store has
    -- decisions and once more, gets every decision exactly once, in the order of their updates, if the
    -- engine compares null with dates or every decision has moved; the store stays as it was. A page
    -- must have room for one decision, and the ids must be distinct.
    pub query_decisions_paginated-Gathers :
        0 < effective_size b q codec default_size max_size page_size
        → All (IsSortable q.engine updated) (rows_of (b.state w).decisions)
        → HasDistinctIds q.engine (rows_of (b.state w).decisions)
        → length (b.state w).decisions < n
        → Gathers b (sort (row_before q.engine true updated) (rows_of (b.state w).decisions)) w (
            read_all n
              (λ cursor. query_decisions_paginated b q codec default_size max_size cursor page_size)
              none
              w)
    unfolding query_decisions_paginated find_with_filters holds
    query_decisions_paginated-Gathers positive sortable distinct enough =
        let limit = effective_size b q codec default_size max_size page_size in
        let rows = rows_of (b.state w).decisions in
        let all = filter_keeps (holds q.engine everything) (λ r. refl) rows in
        subst
          (λ found. Gathers b (sort (row_before q.engine true updated) found) w (
            read_all n
              (λ cursor. query_decisions_paginated b q codec default_size max_size cursor page_size)
              none w))
          all
          (read_all-sort b q codec everything updated true limit (b.state w) _ _
            (find_sorted-Serves everything updated true (λ h. cc h) limit 0 (b.state w)) n w refl
            positive (subst (All _) (sym all) sortable) distinct
            (length-docs _ everything n w enough))

  module _ (filters : DecisionFilters) (mentions : Option (List EntityMentionIdentifier))
      (is_ever_reviewed is_reviewed : Option Bool) (limit n : ℕ) (w : b.World) where
    abbrev curation_query : Condition
    curation_query =
        augment_query_with_curation_filters (build_query filters) mentions is_ever_reviewed
          is_reviewed

    abbrev find_filtered : Option String → Action b.World CursorPage
    find_filtered cursor =
        find_with_filters b q codec (some filters) (record { cursor = cursor; limit = limit })
          mentions is_ever_reviewed is_reviewed

    find_filtered-Serves :
        (get_sort_info filters.ordering).0 ≢ cluster_size
        → (s : State)
        → Serves b q codec curation_query
            (get_sort_info filters.ordering).0
            (get_sort_info filters.ordering).1
            limit
            s
            (λ u. b.state u ≡ s)
            find_filtered
    unfolding find_with_filters
    find_filtered-Serves stored s o v here =
        let (field, ascending) = get_sort_info filters.ordering in
        let count = length (docs q curation_query (b.state v)) in
        let counted : (q.count_documents curation_query v).0 ≡ ok count =
          rw (queries.count_reply curation_query v, healthy.no_fault v) refl in
        let u = (q.count_documents curation_query v).1 in
        let same : b.state u ≡ b.state v = queries.count_state curation_query v in
        let (c, v', run, leaves) =
          find_sorted-Serves curation_query field ascending stored limit count s o u
            (same ∙ here) in
        (
          c,
          v',
          >>=-ok (q.count_documents curation_query)
                (λ found.
                  find_sorted b q codec curation_query field ascending found
                    (record { cursor = cursor_of codec field o; limit = limit }))
                v count counted
              ∙ run,
          leaves,
        )

    -- The rows that the engine selects, in its order.
    pub find_filtered-Gathers :
        (get_sort_info filters.ordering).0 ≢ cluster_size
        → 0 < limit
        → All
            (IsSortable q.engine (get_sort_info filters.ordering).0)
            (docs q curation_query (b.state w))
        → HasDistinctIds q.engine (rows_of (b.state w).decisions)
        → length (b.state w).decisions < n
        → Gathers b
            (sort
              (row_before q.engine
                (get_sort_info filters.ordering).1
                (get_sort_info filters.ordering).0)
              (docs q curation_query (b.state w)))
            w
            (read_all n find_filtered none w)
    find_filtered-Gathers stored positive sortable distinct enough =
        let (field, ascending) = get_sort_info filters.ordering in
        read_all-sort b q codec curation_query field ascending limit (b.state w) _ find_filtered
          (find_filtered-Serves stored (b.state w)) n w refl positive sortable distinct
          (length-docs _ curation_query n w enough)
