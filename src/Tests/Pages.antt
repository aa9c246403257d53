-- ===== src/Tests/Pages.antt =====
-- Listings of a small store.
use entity_resolution_servic.Prelude.{
  arith, ℕ, String, ◌≡◌, refl, Bool, true, false, inl, Option, none, some, [], ◌∷◌, map, take,
  length, ◌==◌, string_eq, if◌then◌else◌, All,
}
use entity_resolution_servic.Prelude.Int.{pos}
use entity_resolution_servic.Effects.{ok}
use entity_resolution_servic.Effects.Answers.{Answers}
use entity_resolution_servic.Dict.{lookup}
use entity_resolution_servic.Backend.Documents.{State, DecisionDocument}
use entity_resolution_servic.Backend.Queries.{
  Row, Engine, Queries, IsQueries, selected, rows_of, joined, restricted, request_of, holds,
  row_before,
}
use entity_resolution_servic.Backend.Order.{HasDistinctIds}
use entity_resolution_servic.Cursor.{
  updated, cluster_size, instant, encode_cursor, read_cursor, decode_cursor, load_payload,
  parse_cursor_sort_value, read_cursor-encode_cursor,
}
use entity_resolution_servic.DecisionStore.Queries.{
  created_at_asc, CursorPage, query_decisions_delta, query_decisions_paginated, find_with_filters,
  DecisionFilters, cluster_size_asc, to_decision, find_sorted, apply_cursor_condition, fetch_page,
  paginate, sort_value_of, build_cursor_condition, build_query, augment_query_with_curation_filters,
}
use entity_resolution_servic.DecisionStore.Pages.{read_all, Gathers, cursor_of}
use entity_resolution_servic.DecisionStore.Filtering.{
  order_of, is_selected, find_with_filters-Gathers,
}
use entity_resolution_servic.DecisionStore.Listings.{
  is_moved, query_decisions_delta-Gathers, query_decisions_paginated-Gathers,
}
use entity_resolution_servic.DecisionStore.PageLimits.{
  IsWithin, query_decisions-IsWithin, IsUnmoved, query_decisions_paginated-IsUnmoved,
}
use entity_resolution_servic.Paging.{filter, sort}
use entity_resolution_servic.Tests.Memory.{memory, memory-IsBackend, memory-IsHealthy, empty_state}
use entity_resolution_servic.Tests.Codec.{plain_codec, plain_codec-IsCodec}

-- The ids of these tests in their order.
abbrev rank : String → ℕ
rank i = if i == "a" then 1 else if i == "b" then 2 else if i == "c" then 3 else 0

module _ (brackets : Bool) where
  abbrev pub engine_of : Engine
  engine_of = record { rank = rank; brackets = brackets }

  abbrev pub memory_queries : Queries memory
  memory_queries = record {
    engine = engine_of;
    find = λ c ascending f n s. (ok (selected engine_of c ascending f n (rows_of s.decisions)), s);
    count_documents = λ c s. (ok (length (filter (holds engine_of c) (rows_of s.decisions))), s);
    find_request_of = λ source_id s. (ok (request_of source_id s.requests), s);
    aggregate = λ c cursor ascending n s. (
      ok (
          take n (
            sort (row_before engine_of ascending cluster_size) (
              restricted engine_of cursor (
                map (joined s.cluster_sizes) (filter (holds engine_of c) (rows_of s.decisions)))))),
      s,
    );
  }

  pub memory_queries-IsQueries : IsQueries memory memory_queries
  memory_queries-IsQueries = record {
    find_reply = λ c ascending f n w. refl;
    find_state = λ c ascending f n w. refl;
    count_reply = λ c w. refl;
    count_state = λ c w. refl;
    request_reply = λ source_id w. refl;
    request_state = λ source_id w. refl;
    aggregate_reply = λ c cursor ascending n w. refl;
    aggregate_state = λ c cursor ascending n w. refl;
  }

abbrev pub document : String → Option ℕ → DecisionDocument
document cluster_id updated_at = record {
  about_entity_mention = record { source_id = "ted"; request_id = "r"; entity_type = "ORG" };
  current_placement = record {
    cluster_id = cluster_id;
    confidence_score = 5;
    similarity_score = 5;
  };
  candidates = [];
  created_at = 1;
  updated_at = updated_at;
  previous_review_count = none;
  reviewed_since_placement = none;
}

abbrev pub three : State
three = record empty_state {
  decisions =
      ("a", document "x" (some 30)) ∷ ("b", document "x" none) ∷ ("c", document "y" (some 20)) ∷ [];
}

pub three-HasDistinctIds :
    (brackets : Bool) → HasDistinctIds (engine_of brackets) (rows_of three.decisions)
three-HasDistinctIds brackets =
    ((λ h. omega (arith, h), (λ h. omega (arith, h), tt)), ((λ h. omega (arith, h), tt), (tt, tt)))

-- Two pages of one decision each.
query_decisions_delta-Gathers_example :
    Gathers memory
      (sort
        (row_before (engine_of true) true updated)
        (filter (is_moved "ted" (some 10)) (rows_of three.decisions)))
      three
      (read_all 4
        (λ cursor.
          query_decisions_delta memory
            (memory_queries true)
            plain_codec
            50
            1
            "ted"
            (some 10)
            cursor
            none)
        none
        three)
query_decisions_delta-Gathers_example =
    query_decisions_delta-Gathers memory memory-IsBackend memory-IsHealthy (memory_queries true)
      (memory_queries-IsQueries true) plain_codec plain_codec-IsCodec 50 1 none 4 three "ted"
      (some 10) (omega arith) (three-HasDistinctIds true) (omega arith)

query_decisions_paginated-Gathers_example :
    Gathers memory
      (sort (row_before (engine_of false) true updated) (rows_of three.decisions))
      three
      (read_all 4
        (λ cursor.
          query_decisions_paginated memory
            (memory_queries false)
            plain_codec
            50
            100
            cursor
            (some 2))
        none
        three)
query_decisions_paginated-Gathers_example =
    query_decisions_paginated-Gathers memory memory-IsBackend memory-IsHealthy
      (memory_queries false) (memory_queries-IsQueries false) plain_codec plain_codec-IsCodec 50 100
      (some 2) 4 three (omega arith) (inl refl, (inl refl, (inl refl, tt)))
      (three-HasDistinctIds false) (omega arith)

abbrev by_source : DecisionFilters
by_source = record {
  source_id = some "ted";
  updated_since = none;
  entity_type = none;
  confidence_min = some 3;
  confidence_max = none;
  similarity_min = none;
  similarity_max = none;
  ordering = none;
}

-- The oldest first.
abbrev by_age : DecisionFilters
by_age = record by_source { ordering = some created_at_asc }

find_with_filters-Gathers_example :
    Gathers memory
      (sort (order_of (engine_of true) (some created_at_asc)) (
        filter
          (λ r. is_selected by_age none none (some false) r.document)
          (rows_of three.decisions)))
      three
      (read_all 4
        (λ cursor.
          find_with_filters memory
            (memory_queries true)
            plain_codec
            (some by_age)
            (record { cursor = cursor; limit = 2 })
            none
            none
            (some false))
        none
        three)
find_with_filters-Gathers_example =
    find_with_filters-Gathers memory memory-IsBackend memory-IsHealthy (memory_queries true)
      (memory_queries-IsQueries true) plain_codec plain_codec-IsCodec by_age none none (some false)
      2 4 three tt (omega arith) (tt, (tt, (tt, tt))) (three-HasDistinctIds true) (omega arith)

query_decisions-IsWithin_example :
    Answers
      (λ p v. IsWithin 2 p)
      (query_decisions_paginated memory (memory_queries true) plain_codec 50 2 none (some 7) three)
    × Answers
        (λ p v. IsWithin 2 p)
        (query_decisions_delta memory
          (memory_queries true)
          plain_codec
          50
          2
          "ted"
          none
          none
          (some 7)
          three)
query_decisions-IsWithin_example =
    query_decisions-IsWithin memory (memory_queries true) plain_codec 50 2 (some 7) "ted" none none
      three

abbrev unmoved : Row
unmoved = record { id = "b"; document = document "x" none; size = 0 }

query_decisions_paginated-IsUnmoved_example :
    (p : CursorPage) × (v : State) × (query_decisions_paginated memory
        (memory_queries true)
        plain_codec
        50
        100
        (cursor_of plain_codec updated (some unmoved))
        (some 1)
        three
      ≡ (ok p, v))
    × All IsUnmoved p.results
query_decisions_paginated-IsUnmoved_example =
    query_decisions_paginated-IsUnmoved memory memory-IsBackend memory-IsHealthy
      (memory_queries true) (memory_queries-IsQueries true) plain_codec plain_codec-IsCodec 50 100
      (some 1) unmoved three refl refl

read_cursor-encode_cursor_example :
    read_cursor plain_codec (encode_cursor plain_codec (instant 7) "ab") updated
    ≡ ok (instant 7, "ab")
read_cursor-encode_cursor_example =
    read_cursor-encode_cursor plain_codec plain_codec-IsCodec (instant 7) updated "ab" refl

abbrev by_cluster_size : DecisionFilters
by_cluster_size = record by_source { ordering = some cluster_size_asc }

abbrev row_of_c : Row
row_of_c = record { id = "c"; document = document "x" none; size = 0 }

abbrev two_clusters : State
two_clusters = record empty_state {
  decisions = ("a", document "y" none) ∷ ("c", document "x" none) ∷ [];
  cluster_sizes =
      ("x", record { size = pos 5; updated_at = 1 })
      ∷ ("y", record { size = pos 7; updated_at = 1 })
      ∷ [];
}

-- Sorted by cluster size, one decision to a page: the first page ends on `c` of size 5, but its
-- cursor holds the size 7 of the row after it, so the second page is empty and `a` is never shown.
cluster_size_skips :
    (read_all 3
      (λ cursor.
        find_with_filters memory
          (memory_queries true)
          plain_codec
          (some by_cluster_size)
          (record { cursor = cursor; limit = 1 })
          none
          none
          none)
      none
      two_clusters).0
    ≡ ok (to_decision row_of_c ∷ [])
unfolding read_all find_with_filters find_sorted apply_cursor_condition fetch_page paginate
    sort_value_of build_query augment_query_with_curation_filters build_cursor_condition holds
    read_cursor decode_cursor load_payload parse_cursor_sort_value encode_cursor lookup
cluster_size_skips = refl
