-- ===== src/DecisionStore/Queries.antt =====
-- The reads of many decisions: `find_with_filters` and `find_delta_for_source` of
-- `MongoDecisionRepository`, their parts, and the two queries of `DecisionStoreService`.
-- `default_size` and `max_size` are DECISION_STORE_DEFAULT_PAGE_SIZE and DECISION_STORE_MAX_PAGE_SIZE.
use entity_resolution_servic.Prelude.{
  ℕ, suc, min, ltb, String, Bool, true, false, Option, none, some, List, map, take, length,
  if◌then◌else◌,
}
use entity_resolution_servic.Domain.{EntityMentionIdentifier, Decision}
use entity_resolution_servic.Effects.{Result, ok, err, Action, pure, ◌>>=◌}
use entity_resolution_servic.Backend.{Backend}
use entity_resolution_servic.Backend.Queries.{
  Condition, everything, field_is, field_beyond, id_beyond, was_updated, source_is, entity_type_is,
  confidence_at_least, confidence_at_most, similarity_at_least, similarity_at_most, mention_in,
  ever_reviewed, reviewed, both, either, Row, Queries,
}
use entity_resolution_servic.Cursor.{
  SortField, confidence, created, updated, cluster_size, SortValue, absent, number, instant, Codec,
  encode_cursor, read_cursor,
}
use entity_resolution_servic.DecisionStore.Outcome.{from_document}
use entity_resolution_servic.Paging.{last}

pub data DecisionOrdering : Type 0 where
  confidence_asc confidence_desc created_at_asc created_at_desc : DecisionOrdering
  updated_at_asc updated_at_desc cluster_size_asc cluster_size_desc : DecisionOrdering

pub record DecisionFilters : Type 0 where
  pub source_id : Option String
  pub updated_since : Option ℕ
  pub entity_type : Option String
  pub confidence_min : Option ℕ
  pub confidence_max : Option ℕ
  pub similarity_min : Option ℕ
  pub similarity_max : Option ℕ
  pub ordering : Option DecisionOrdering

-- Pydantic refuses a limit below 1, so the theorems on pages ask for a positive one.
pub record CursorParams : Type 0 where
  pub cursor : Option String
  pub limit : ℕ

pub record CursorPage : Type 0 where
  pub results : List Decision
  pub count : ℕ
  pub next_cursor : Option String

abbrev pub sort_field_map : DecisionOrdering → SortField × Bool
sort_field_map confidence_asc = (confidence, true)
sort_field_map confidence_desc = (confidence, false)
sort_field_map created_at_asc = (created, true)
sort_field_map created_at_desc = (created, false)
sort_field_map updated_at_asc = (updated, true)
sort_field_map updated_at_desc = (updated, false)
sort_field_map cluster_size_asc = (cluster_size, true)
sort_field_map cluster_size_desc = (cluster_size, false)

abbrev pub get_sort_info : Option DecisionOrdering → SortField × Bool
get_sort_info none = (created, false)
get_sort_info (some o) = sort_field_map o

-- `ordering in self._AGGREGATION_ORDERINGS`
abbrev pub is_cluster_size : SortField → Bool
is_cluster_size cluster_size = true
is_cluster_size confidence = false
is_cluster_size created = false
is_cluster_size updated = false

-- One entry of the query, if its filter is given.
abbrev pub with_filter {ℓ} : {A : Type ℓ} → Option A → (A → Condition) → Condition → Condition
with_filter none f query = query
with_filter (some a) f query = both query (f a)

unfoldable pub build_query : DecisionFilters → Condition
build_query filters = with_filter filters.similarity_max similarity_at_most (
    with_filter filters.similarity_min similarity_at_least (
      with_filter filters.confidence_max confidence_at_most (
        with_filter filters.confidence_min confidence_at_least (
          with_filter filters.entity_type entity_type_is (
            with_filter filters.updated_since (λ t. field_beyond true updated (instant t))
              (with_filter filters.source_id source_is everything))))))

unfoldable pub augment_query_with_curation_filters :
    Condition → Option (List EntityMentionIdentifier) → Option Bool → Option Bool → Condition
augment_query_with_curation_filters query mentions is_ever_reviewed is_reviewed =
    with_filter is_reviewed reviewed
      (with_filter is_ever_reviewed ever_reviewed (with_filter mentions mention_in query))

unfoldable pub build_cursor_condition : SortField → SortValue → String → Bool → Condition
build_cursor_condition field absent last_id true =
    either (both (field_is field absent) (id_beyond true last_id)) (field_beyond true field absent)
build_cursor_condition field absent last_id false =
    both (field_is field absent) (id_beyond false last_id)
build_cursor_condition field value last_id ascending =
    either (field_beyond ascending field value)
      (both (field_is field value) (id_beyond ascending last_id))

-- For a derived field there is none: the caller takes it from the raw document.
abbrev pub extract_sort_value : SortField → Decision → SortValue
extract_sort_value confidence d = number d.current_placement.confidence_score
extract_sort_value created d = instant d.created_at
extract_sort_value updated d = elim d.updated_at [ none ↦ absent | some t ↦ instant t ]
extract_sort_value cluster_size d = absent

abbrev pub to_decision : Row → Decision
to_decision r = from_document r.id r.document

abbrev pub lifted : {W A : Type 0} → Result A → Action W A
lifted r w = (r, w)

-- The `cluster_size` of the last raw document.
abbrev pub last_size : List Row → SortValue
last_size rows = elim (last rows) [ none ↦ absent | some r ↦ number r.size ]

-- Only decisions that have moved, later than a time if there is one.
unfoldable pub delta_query : String → Option ℕ → Condition
delta_query source_id none = both (source_is source_id) was_updated
delta_query source_id (some t) = both (source_is source_id) (field_beyond true updated (instant t))

module _ (b : Backend) (q : Queries b) (codec : Codec) where
  open b use {World}

  -- The query of the first stage, and the condition that waits for the join.
  unfoldable pub apply_cursor_condition :
      Condition → Option String → SortField → Bool → Result (Condition × Option Condition)
  unfolding build_cursor_condition
  apply_cursor_condition query none field ascending = ok (query, none)
  apply_cursor_condition query (some cursor) field ascending =
      elim (read_cursor codec cursor field) [
        | err e ↦ err e
        | ok (value, last_id) ↦
            let condition = build_cursor_condition field value last_id ascending in
            if is_cluster_size field
            then ok (query, some condition)
            else ok (both query condition, none)
      ]

  unfoldable pub fetch_page :
      Condition → Option Condition → SortField → Bool → ℕ → Action World (List Row)
  fetch_page query condition field ascending fetch_limit =
      if is_cluster_size field
      then q.aggregate query condition ascending fetch_limit
      else q.find query ascending field fetch_limit

  -- The end of `find_with_filters` and of `find_delta_for_source`: the rows of the page, and the
  -- cursor of its last row with a sort value of the rows that were fetched.
  unfoldable pub paginate : ℕ → (List Row → Decision → SortValue) → ℕ → List Row → CursorPage
  paginate limit sort_value count rows =
      if ltb limit (length rows)
      then record {
        results = map to_decision (take limit rows);
        count = count;
        next_cursor = elim (last (take limit rows)) [
          | none ↦ none
          | some r ↦ some (encode_cursor codec (sort_value rows (to_decision r)) r.id)
        ];
      }
      else record { results = map to_decision rows; count = count; next_cursor = none }

  unfoldable pub sort_value_of : SortField → List Row → Decision → SortValue
  sort_value_of field rows d =
      if is_cluster_size field then last_size rows else extract_sort_value field d

  unfoldable pub find_sorted :
      Condition → SortField → Bool → ℕ → CursorParams → Action World CursorPage
  unfolding apply_cursor_condition fetch_page paginate sort_value_of
  find_sorted query field ascending count params = do
    found ← lifted (apply_cursor_condition query params.cursor field ascending)
    rows ← fetch_page found.0 found.1 field ascending (suc params.limit)
    pure (paginate params.limit (sort_value_of field) count rows)

  -- Without filters: the traversal of the whole store.
  unfoldable pub find_with_filters :
      Option DecisionFilters
      → CursorParams
      → Option (List EntityMentionIdentifier)
      → Option Bool
      → Option Bool
      → Action World CursorPage
  unfolding find_sorted
  find_with_filters none params mentions is_ever_reviewed is_reviewed =
      find_sorted everything updated true 0 params
  find_with_filters (some filters) params mentions is_ever_reviewed is_reviewed =
      let query =
        augment_query_with_curation_filters (build_query filters) mentions is_ever_reviewed
          is_reviewed in
      let (field, ascending) = get_sort_info filters.ordering in
      do count ← q.count_documents query; find_sorted query field ascending count params

  unfoldable pub find_delta_for_source : String → Option ℕ → CursorParams → Action World CursorPage
  unfolding delta_query find_sorted
  find_delta_for_source source_id updated_since params =
      find_sorted (delta_query source_id updated_since) updated true 0 params

  module _ (default_size max_size : ℕ) where
    abbrev pub effective_size : Option ℕ → ℕ
    effective_size none = min default_size max_size
    effective_size (some n) = min n max_size

    unfoldable pub query_decisions_paginated : Option String → Option ℕ → Action World CursorPage
    unfolding find_with_filters
    query_decisions_paginated cursor page_size =
        find_with_filters none (record { cursor = cursor; limit = effective_size page_size }) none
          none none

    unfoldable pub query_decisions_delta :
        String → Option ℕ → Option String → Option ℕ → Action World CursorPage
    unfolding find_delta_for_source
    query_decisions_delta source_id updated_since cursor page_size =
        find_delta_for_source source_id updated_since
          (record { cursor = cursor; limit = effective_size page_size })
