-- ===== src/Rest/Messages.antt =====
-- The messages of ers_rest_api/domain with their validators. What pydantic raises is a ValueError. The
-- messages of errors are left out.
use Prim.Native.Char.{code}
use Prim.Native.String.{[] as nil, ◌∷◌ as cons}
use entity_resolution_servic.Prelude.{
  ℕ, leb, nat_beq, String, Bool, true, false, not, ◌&&◌, ◌||◌, Option, none, some, List, [], ◌∷◌,
}
use entity_resolution_servic.Domain.{EntityMentionIdentifier, ClusterReference}
use entity_resolution_servic.Effects.{value_error, Result, ok, err, ◌>>?◌, require}
use entity_resolution_servic.Coordinator.{ResolutionOutcome}

pub data ErrorCode : Type 0 where
  validation_error idempotency_conflict_code parsing_failed_code mention_not_found_code : ErrorCode
  source_not_found_code service_error service_timeout application_error_code : ErrorCode
  service_unavailable_code : ErrorCode

pub record ErrorResponse : Type 0 where
  pub error_code : ErrorCode

pub record EntityMentionResolutionResult : Type 0 where
  pub identified_by : EntityMentionIdentifier
  pub canonical_entity_id : Option String
  pub status : Option ResolutionOutcome
  pub error : Option ErrorResponse

pub record LookupResponse : Type 0 where
  pub identified_by : EntityMentionIdentifier
  pub cluster_reference : ClusterReference
  pub last_updated : ℕ
  pub context : Option String

pub record BulkLookupResult : Type 0 where
  pub identified_by : EntityMentionIdentifier
  pub cluster_reference : Option ClusterReference
  pub last_updated : Option ℕ
  pub context : Option String
  pub error : Option ErrorResponse

pub record RefreshBulkResponse : Type 0 where
  pub deltas : List LookupResponse
  pub has_more : Bool
  pub continuation_cursor : Option String

abbrev pub is_present {ℓ} : {A : Type ℓ} → Option A → Bool
is_present none = false
is_present (some a) = true

abbrev pub xor : Bool → Bool → Bool
xor true b = not b
xor false b = b

abbrev pub has_success_xor_error : EntityMentionResolutionResult → Bool
has_success_xor_error r =
    xor (is_present r.canonical_entity_id && is_present r.status) (is_present r.error)

-- `EntityMentionResolutionResult(…)`
unfoldable pub resolution_result :
    EntityMentionResolutionResult → Result EntityMentionResolutionResult
resolution_result r = require (has_success_xor_error r) value_error >>? λ _. ok r

abbrev pub is_found_xor_error : BulkLookupResult → Bool
is_found_xor_error r =
    xor (is_present r.cluster_reference && is_present r.last_updated) (is_present r.error)

-- `BulkLookupResult(…)`
unfoldable pub bulk_lookup_result : BulkLookupResult → Result BulkLookupResult
bulk_lookup_result r = require (is_found_xor_error r) value_error >>? λ _. ok r

-- `BulkResolveResponse(results=…)` and `BulkLookupResponse(results=…)`
unfoldable pub nonempty_results : {A : Type 0} → List A → Result (List A)
nonempty_results [] = err value_error
nonempty_results (x ∷ xs) = ok (x ∷ xs)

unfoldable pub cursor_consistent_with_has_more : RefreshBulkResponse → Result RefreshBulkResponse
cursor_consistent_with_has_more r =
    require (not (r.has_more && not (is_present r.continuation_cursor))) value_error >>? λ _.
    require (not (not r.has_more && is_present r.continuation_cursor)) value_error >>? λ _. ok r

abbrev between : ℕ → ℕ → ℕ → Bool
between lo hi n = leb lo n && leb n hi

-- `str.isspace` of one character, by its code
abbrev is_space : ℕ → Bool
is_space n =
    between 9 13 n
    || (between 28 32 n
        || (nat_beq n 133
            || (nat_beq n 160
                || (nat_beq n 5760
                    || (between 8192 8202 n
                        || (between 8232 8233 n
                            || (nat_beq n 8239 || (nat_beq n 8287 || nat_beq n 12288))))))))

-- `not value.strip()`
unfoldable pub is_blank : String → Bool
is_blank nil = true
is_blank (cons c s) = is_space (code c) && is_blank s

unfoldable pub identifier_fields_not_blank : EntityMentionIdentifier → Result (Unit {0})
unfolding is_blank
identifier_fields_not_blank i = require (not (is_blank i.source_id)) value_error >>? λ _.
    require (not (is_blank i.request_id)) value_error >>? λ _.
    require (not (is_blank i.entity_type)) value_error
