-- ===== src/DecisionStore/Filtering.antt =====
-- What `find_with_filters` delivers, with its filters and orderings described on the documents.
use entity_resolution_servic.Prelude.{
  arith, ℕ, ltb, leb, String, ◌≡◌, ◌≢◌, ◌<◌, ◌⊎◌, inl, inr, refl, sym, ap, subst, Bool, true, false,
  not, ◌&&◌, ◌||◌, ◌==◌, string_eq, Option, none, some, Option-cases, List, [], ◌∷◌, length, All,
}
use entity_resolution_servic.Backend.Documents.{DecisionDocument}
use entity_resolution_servic.Domain.{EntityMentionIdentifier}
use entity_resolution_servic.Effects.{Action}
use entity_resolution_servic.Backend.{Backend, IsBackend, IsHealthy}
use entity_resolution_servic.Backend.Queries.{
  Condition, everything, field_beyond, source_is, entity_type_is, confidence_at_least,
  confidence_at_most, similarity_at_least, similarity_at_most, mention_in, ever_reviewed, reviewed,
  Row, Queries, IsQueries, Engine, holds, rows_of, row_before,
}
use entity_resolution_servic.Backend.Order.{HasDistinctIds}
use entity_resolution_servic.Cursor.{
  confidence, created, updated, cluster_size, instant, Codec, IsCodec,
}
use entity_resolution_servic.DecisionStore.Queries.{
  CursorPage, DecisionFilters, DecisionOrdering, confidence_asc, confidence_desc, created_at_asc,
  created_at_desc, updated_at_asc, updated_at_desc, cluster_size_asc, cluster_size_desc,
  with_filter, build_query, augment_query_with_curation_filters, get_sort_info, find_with_filters,
}
use entity_resolution_servic.DecisionStore.Pages.{read_all, docs, Gathers}
use entity_resolution_servic.DecisionStore.Listings.{
  has_moved_since, All-always, find_filtered-Gathers,
}
use entity_resolution_servic.DecisionStore.Seek.{IsSortable}
use entity_resolution_servic.Paging.{filter, sort}
use entity_resolution_servic.Paging.Order.{All-map}
use entity_resolution_servic.Paging.Walk.{filter_ext}

-- A filter that is not given lets everything pass.
abbrev pub passes {ℓ} : {A : Type ℓ} → Option A → (A → Bool) → Bool
passes none p = true
passes (some a) p = p a

abbrev pub is_among : List EntityMentionIdentifier → EntityMentionIdentifier → Bool
is_among [] j = false
is_among (i ∷ is) j =
    (i.source_id == j.source_id && (i.request_id == j.request_id && i.entity_type == j.entity_type))
    || is_among is j

abbrev pub has_reviews : Option ℕ → Bool
has_reviews none = false
has_reviews (some n) = ltb 0 n

abbrev pub is_flagged : Option Bool → Bool
is_flagged none = false
is_flagged (some f) = f

abbrev pub agrees : Bool → Bool → Bool
agrees true b = b
agrees false b = not b

-- The decisions that the filters select.
abbrev pub is_selected :
    DecisionFilters
    → Option (List EntityMentionIdentifier)
    → Option Bool
    → Option Bool
    → DecisionDocument
    → Bool
is_selected f mentions is_ever_reviewed is_reviewed d =
    ((((((((passes f.source_id (λ s. d.about_entity_mention.source_id == s)
                    && passes f.updated_since (λ t. has_moved_since (some t) d.updated_at))
                  && passes f.entity_type (λ t. d.about_entity_mention.entity_type == t))
                && passes f.confidence_min (λ n. leb n d.current_placement.confidence_score))
              && passes f.confidence_max (λ n. leb d.current_placement.confidence_score n))
            && passes f.similarity_min (λ n. leb n d.current_placement.similarity_score))
          && passes f.similarity_max (λ n. leb d.current_placement.similarity_score n))
        && passes mentions (λ is. is_among is d.about_entity_mention))
      && passes is_ever_reviewed (λ b. agrees b (has_reviews d.previous_review_count)))
    && passes is_reviewed (λ b. agrees b (is_flagged d.reviewed_since_placement))

-- The order of the listing: the newest decision first if no ordering is asked for.
abbrev pub order_of : Engine → Option DecisionOrdering → Row → Row → Bool
order_of e none = row_before e false created
order_of e (some confidence_asc) = row_before e true confidence
order_of e (some confidence_desc) = row_before e false confidence
order_of e (some created_at_asc) = row_before e true created
order_of e (some created_at_desc) = row_before e false created
order_of e (some updated_at_asc) = row_before e true updated
order_of e (some updated_at_desc) = row_before e false updated
order_of e (some cluster_size_asc) = row_before e true cluster_size
order_of e (some cluster_size_desc) = row_before e false cluster_size

-- The orderings by a field of the document.
abbrev pub IsStored : Option DecisionOrdering → Type 0
IsStored (some cluster_size_asc) = ⊥
IsStored (some cluster_size_desc) = ⊥
IsStored o = Unit

-- A decision with a place in the ordering: by updates, one that has moved, unless the engine compares
-- null with dates.
abbrev pub IsPlaced : Engine → Option DecisionOrdering → Row → Type 0
IsPlaced e (some updated_at_asc) r = (e.brackets ≡ false) ⊎ (r.document.updated_at ≢ none)
IsPlaced e (some updated_at_desc) r = (e.brackets ≡ false) ⊎ (r.document.updated_at ≢ none)
IsPlaced e o r = Unit

module _ (e : Engine) where
  order_of-row_before :
      (o : Option DecisionOrdering)
      → row_before e (get_sort_info o).1 (get_sort_info o).0 ≡ order_of e o
  order_of-row_before none = refl
  order_of-row_before (some confidence_asc) = refl
  order_of-row_before (some confidence_desc) = refl
  order_of-row_before (some created_at_asc) = refl
  order_of-row_before (some created_at_desc) = refl
  order_of-row_before (some updated_at_asc) = refl
  order_of-row_before (some updated_at_desc) = refl
  order_of-row_before (some cluster_size_asc) = refl
  order_of-row_before (some cluster_size_desc) = refl

  IsStored-cluster_size :
      (o : Option DecisionOrdering) → IsStored o → (get_sort_info o).0 ≢ cluster_size
  IsStored-cluster_size none stored = λ h. cc h
  IsStored-cluster_size (some confidence_asc) stored = λ h. cc h
  IsStored-cluster_size (some confidence_desc) stored = λ h. cc h
  IsStored-cluster_size (some created_at_asc) stored = λ h. cc h
  IsStored-cluster_size (some created_at_desc) stored = λ h. cc h
  IsStored-cluster_size (some updated_at_asc) stored = λ h. cc h
  IsStored-cluster_size (some updated_at_desc) stored = λ h. cc h
  IsStored-cluster_size (some cluster_size_asc) stored = absurd stored
  IsStored-cluster_size (some cluster_size_desc) stored = absurd stored

  moved-IsSortable :
      (r : Row) → (e.brackets ≡ false) ⊎ (r.document.updated_at ≢ none) → IsSortable e updated r
  moved-IsSortable r (inl compares) = inl compares
  moved-IsSortable r (inr moved) = elim (Option-cases r.document.updated_at) [
    | inl still ↦ absurd (moved still)
    | inr (t, at) ↦ inr (ground (arith, at))
  ]

  IsPlaced-IsSortable :
      (o : Option DecisionOrdering) (r : Row) → IsPlaced e o r → IsSortable e (get_sort_info o).0 r
  IsPlaced-IsSortable none r placed = inr (λ h. omega (arith, h))
  IsPlaced-IsSortable (some confidence_asc) r placed = inr (λ h. omega (arith, h))
  IsPlaced-IsSortable (some confidence_desc) r placed = inr (λ h. omega (arith, h))
  IsPlaced-IsSortable (some created_at_asc) r placed = inr (λ h. omega (arith, h))
  IsPlaced-IsSortable (some created_at_desc) r placed = inr (λ h. omega (arith, h))
  IsPlaced-IsSortable (some updated_at_asc) r placed = moved-IsSortable r placed
  IsPlaced-IsSortable (some updated_at_desc) r placed = moved-IsSortable r placed
  IsPlaced-IsSortable (some cluster_size_asc) r placed = inr (λ h. omega (arith, h))
  IsPlaced-IsSortable (some cluster_size_desc) r placed = inr (λ h. omega (arith, h))

  module _ (r : Row) where
    with_filter-passes :
        {A : Type 0} (o : Option A) (f : A → Condition) (p : A → Bool) (query : Condition)
        (found : Bool)
        → holds e query r ≡ found
        → ((a : A) → holds e (f a) r ≡ p a)
        → holds e (with_filter o f query) r ≡ found && passes o p
    unfolding holds
    with_filter-passes none f p query found h each = ground (arith, h)
    with_filter-passes (some a) f p query found h each = ground (arith, h, each a)

    mention_in-is_among :
        (is : List EntityMentionIdentifier)
        → holds e (mention_in is) r ≡ is_among is r.document.about_entity_mention
    unfolding holds
    mention_in-is_among [] = refl
    mention_in-is_among (i ∷ is) =
        let j = r.document.about_entity_mention in
        ap
          (λ x.
            (i.source_id == j.source_id
              && (i.request_id == j.request_id && i.entity_type == j.entity_type))
            || x)
          (mention_in-is_among is)

    ever_reviewed-agrees :
        (b : Bool)
        → holds e (ever_reviewed b) r ≡ agrees b (has_reviews r.document.previous_review_count)
    unfolding holds
    ever_reviewed-agrees true = ground arith
    ever_reviewed-agrees false = ground arith

    reviewed-agrees :
        (b : Bool)
        → holds e (reviewed b) r ≡ agrees b (is_flagged r.document.reviewed_since_placement)
    unfolding holds
    reviewed-agrees true = ground arith
    reviewed-agrees false = ground arith

    since-has_moved_since :
        (t : ℕ)
        → holds e (field_beyond true updated (instant t)) r
          ≡ has_moved_since (some t) r.document.updated_at
    unfolding holds
    since-has_moved_since t = elim (Option-cases r.document.updated_at) [
      | inl still ↦ ground (arith, still)
      | inr (u, at) ↦ ground (arith, at)
    ]

    everything-holds : holds e everything r ≡ true
    unfolding holds
    everything-holds = refl

    source_holds :
        (x : String) → holds e (source_is x) r ≡ (r.document.about_entity_mention.source_id == x)
    unfolding holds
    source_holds x = refl

    type_holds :
        (x : String)
        → holds e (entity_type_is x) r ≡ (r.document.about_entity_mention.entity_type == x)
    unfolding holds
    type_holds x = refl

    bounds_hold :
        (n : ℕ)
        → let p = r.document.current_placement in
          (holds e (confidence_at_least n) r ≡ leb n p.confidence_score)
          × (holds e (confidence_at_most n) r ≡ leb p.confidence_score n)
          × (holds e (similarity_at_least n) r ≡ leb n p.similarity_score)
          × (holds e (similarity_at_most n) r ≡ leb p.similarity_score n)
    unfolding holds
    bounds_hold n = (ground arith, ground arith, ground arith, ground arith)

    curation_query-is_selected :
        (f : DecisionFilters) (mentions : Option (List EntityMentionIdentifier))
        (is_ever_reviewed is_reviewed : Option Bool)
        → holds e
            (augment_query_with_curation_filters
              (build_query f)
              mentions
              is_ever_reviewed
              is_reviewed)
            r
          ≡ is_selected f mentions is_ever_reviewed is_reviewed r.document
    unfolding build_query augment_query_with_curation_filters
    curation_query-is_selected f mentions is_ever_reviewed is_reviewed =
        let d = r.document in
        with_filter-passes is_reviewed reviewed _ _ _
          (with_filter-passes is_ever_reviewed ever_reviewed _ _ _
            (with_filter-passes mentions mention_in _ _ _
              (with_filter-passes f.similarity_max similarity_at_most _ _ _
                (with_filter-passes f.similarity_min similarity_at_least _ _ _
                  (with_filter-passes f.confidence_max confidence_at_most _ _ _
                    (with_filter-passes f.confidence_min confidence_at_least _ _ _
                      (with_filter-passes f.entity_type entity_type_is _ _ _
                        (with_filter-passes f.updated_since
                          (λ t. field_beyond true updated (instant t)) _ _ _
                          (with_filter-passes f.source_id source_is
                            (λ s. d.about_entity_mention.source_id == s) everything true
                            everything-holds source_holds)
                          since-has_moved_since)
                        type_holds)
                      (λ n. (bounds_hold n).0))
                    (λ n. (bounds_hold n).1))
                  (λ n. (bounds_hold n).2))
                (λ n. (bounds_hold n).3))
              mention_in-is_among)
            ever_reviewed-agrees)
          reviewed-agrees

  selected_rows :
      (f : DecisionFilters) (mentions : Option (List EntityMentionIdentifier))
      (is_ever_reviewed is_reviewed : Option Bool) (rows : List Row)
      → filter
          (holds e (
            augment_query_with_curation_filters
              (build_query f)
              mentions
              is_ever_reviewed
              is_reviewed))
          rows
        ≡ filter (λ r. is_selected f mentions is_ever_reviewed is_reviewed r.document) rows
  selected_rows f mentions is_ever_reviewed is_reviewed rows =
      filter_ext _ (λ r. is_selected f mentions is_ever_reviewed is_reviewed r.document) rows
        (All-always _ (λ r. curation_query-is_selected r f mentions is_ever_reviewed is_reviewed)
          rows)

module _ (b : Backend) (laws : IsBackend b) (healthy : IsHealthy b) (q : Queries b)
    (queries : IsQueries b q) (codec : Codec) (codec_laws : IsCodec codec)
    (filters : DecisionFilters) (mentions : Option (List EntityMentionIdentifier))
    (is_ever_reviewed is_reviewed : Option Bool) (limit n : ℕ) (w : b.World) where
  -- The selected decisions of the store.
  abbrev pub chosen : List Row
  chosen =
      filter (λ r. is_selected filters mentions is_ever_reviewed is_reviewed r.document)
        (rows_of (b.state w).decisions)

  -- On a store that nobody writes to meanwhile, whose commands do not fail, a client that follows
  -- the cursors of `find_with_filters`, under any filters and any ordering by a stored field, at
  -- most as often as the store has decisions and once more, gets each decision that the filters
  -- select exactly once, in the order of that field and direction, or from the newest on if no
  -- ordering is given; if it is an ordering by updates, each selected decision must have moved or the
  -- engine compare null with dates. The store stays as it was. A page must have room for one
  -- decision, and the ids must be distinct.
  pub find_with_filters-Gathers :
      IsStored filters.ordering
      → 0 < limit
      → All (IsPlaced q.engine filters.ordering) (
          filter
            (λ r. is_selected filters mentions is_ever_reviewed is_reviewed r.document)
            (rows_of (b.state w).decisions))
      → HasDistinctIds q.engine (rows_of (b.state w).decisions)
      → length (b.state w).decisions < n
      → Gathers b
          (sort (order_of q.engine filters.ordering) (
            filter
              (λ r. is_selected filters mentions is_ever_reviewed is_reviewed r.document)
              (rows_of (b.state w).decisions)))
          w
          (read_all n
            (λ cursor.
              find_with_filters b q codec
                (some filters)
                (record { cursor = cursor; limit = limit })
                mentions
                is_ever_reviewed
                is_reviewed)
            none
            w)
  find_with_filters-Gathers stored positive placed distinct enough =
      let query : Condition =
        augment_query_with_curation_filters (build_query filters) mentions is_ever_reviewed
          is_reviewed in
      let read : Option String → Action b.World CursorPage = λ cursor.
        find_with_filters b q codec (some filters) (record { cursor = cursor; limit = limit })
          mentions is_ever_reviewed is_reviewed in
      let rows = rows_of (b.state w).decisions in
      let same : docs q query (b.state w) ≡ chosen =
        selected_rows q.engine filters mentions is_ever_reviewed is_reviewed rows in
      let sortable : All (IsSortable q.engine (get_sort_info filters.ordering).0) chosen =
        All-map _ _ (IsPlaced-IsSortable q.engine filters.ordering) chosen placed in
      subst (λ lt. Gathers b (sort lt chosen) w (read_all n read none w))
        (order_of-row_before q.engine filters.ordering)
        (subst
          (λ found.
            Gathers b
              (sort
                (row_before q.engine (get_sort_info filters.ordering).1
                  (get_sort_info filters.ordering).0)
                found)
              w (read_all n read none w))
          same
          (find_filtered-Gathers b laws healthy q queries codec codec_laws filters mentions
            is_ever_reviewed is_reviewed limit n w
            (IsStored-cluster_size q.engine filters.ordering stored) positive
            (subst (All _) (sym same) sortable) distinct enough))
