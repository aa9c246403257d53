-- ===== src/Rest/Resolve.antt =====
-- ers_rest_api/services/resolve_service.py and the routes of entrypoints/api/v1/resolution.py.
use entity_resolution_servic.Prelude.{
  ℕ, leb, Bool, true, false, ◌||◌, Option, none, some, List, [], ◌∷◌, length, if◌then◌else◌,
}
use entity_resolution_servic.Domain.{EntityMention, EntityMentionIdentifier}
use entity_resolution_servic.Effects.{
  Error, other_error, service_unavailable, Action, Result, ok, err, ◌>>?◌, ◌>>=◌,
}
use entity_resolution_servic.Coordinator.{ResolutionOutcome, canonical, provisional}
use entity_resolution_servic.Coordinator.Bulk.{Resolution}
use entity_resolution_servic.Rest.Messages.{
  ErrorCode, service_error, service_unavailable_code, EntityMentionResolutionResult,
  resolution_result, nonempty_results, is_present,
}

unfoldable pub map_decision : Resolution → Result EntityMentionResolutionResult
map_decision (decision, outcome) = resolution_result (record {
  identified_by = decision.about_entity_mention;
  canonical_entity_id = some decision.current_placement.cluster_id;
  status = some outcome;
  error = none;
})

unfoldable pub error_code_for : Error → ErrorCode
error_code_for (service_unavailable b) = service_unavailable_code
error_code_for e = service_error

unfoldable pub map_error : EntityMentionIdentifier → Error → Result EntityMentionResolutionResult
unfolding error_code_for
map_error identifier e = resolution_result (record {
  identified_by = identifier;
  canonical_entity_id = none;
  status = none;
  error = some (record { error_code = error_code_for e });
})

abbrev pub map_result :
    Option EntityMention → Result Resolution → Result EntityMentionResolutionResult
map_result m (ok r) = map_decision r
map_result none (err e) = err other_error
map_result (some m) (err e) = map_error m.identified_by e

abbrev first : List EntityMention → Option EntityMention
first [] = none
first (m ∷ ms) = some m

abbrev rest : List EntityMention → List EntityMention
rest [] = []
rest (m ∷ ms) = ms

-- The loop over `enumerate(results)`, with `mentions[i]` for an exception.
unfoldable pub map_results :
    List EntityMention → List (Result Resolution) → Result (List EntityMentionResolutionResult)
map_results mentions [] = ok []
map_results mentions (r ∷ rs) =
    let others = map_results (rest mentions) rs in
    map_result (first mentions) r >>? λ x. others >>? λ xs. ok (x ∷ xs)

-- Computed without input or output.
abbrev pub returned : {W A : Type 0} → Result A → Action W A
returned r w = (r, w)

module _ {W : Type 0} where
  unfoldable pub handle_resolve :
      (EntityMention → Action W Resolution) → EntityMention → Action W EntityMentionResolutionResult
  unfolding map_decision
  handle_resolve resolve mention = do
    resolution ← resolve mention
    returned (map_decision resolution)

  unfoldable pub handle_bulk_resolve :
      (List EntityMention → Action W (List (Result Resolution)))
      → List EntityMention
      → Action W (List EntityMentionResolutionResult)
  unfolding map_results
  handle_bulk_resolve resolve_bulk mentions = do
    results ← resolve_bulk mentions
    returned (map_results mentions results >>? λ mapped. nonempty_results mapped)

-- The routes answer 200 unless they set another code.
unfoldable pub resolve_status_code : EntityMentionResolutionResult → ℕ
resolve_status_code r = elim r.status [
  | none ↦ 200
  | some o ↦ elim o [ canonical ↦ 200 | provisional ↦ 202 ]
]

abbrev pub same_status : Option ResolutionOutcome → Option ResolutionOutcome → Bool
same_status none none = true
same_status (some canonical) (some canonical) = true
same_status (some provisional) (some provisional) = true
same_status s s' = false

abbrev among : Option ResolutionOutcome → List (Option ResolutionOutcome) → Bool
among s [] = false
among s (x ∷ xs) = same_status s x || among s xs

abbrev pub add_status :
    Option ResolutionOutcome → List (Option ResolutionOutcome) → List (Option ResolutionOutcome)
add_status s ss = if among s ss then ss else s ∷ ss

-- The set of the statuses.
abbrev pub statuses : List EntityMentionResolutionResult → List (Option ResolutionOutcome)
statuses [] = []
statuses (r ∷ rs) = add_status r.status (statuses rs)

abbrev pub has_errors : List EntityMentionResolutionResult → Bool
has_errors [] = false
has_errors (r ∷ rs) = is_present r.error || has_errors rs

abbrev pub is_provisional : List (Option ResolutionOutcome) → Bool
is_provisional (some provisional ∷ []) = true
is_provisional ss = false

unfoldable pub bulk_status_code : List EntityMentionResolutionResult → ℕ
bulk_status_code results =
    if has_errors results || leb 2 (length (statuses results))
    then 207
    else if is_provisional (statuses results)
    then 202
    else 200
