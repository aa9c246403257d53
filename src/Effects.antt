-- ===== src/Effects.antt =====
-- Coroutines that read and write the world and may raise. What was written before a raise stays
-- written, so the world comes back beside the exception too.
pub mod Keeps
pub mod Answers
use entity_resolution_servic.Prelude.{
  arith, ℕ, String, ◌≡◌, refl, ap, ◌∙◌, ◌⊎◌, inl, inr, Bool, true, false,
}
use entity_resolution_servic.Domain.{EntityMentionIdentifier}

-- What pymongo raises: `OperationFailure` with its code and text, and its two subclasses that the
-- code tells apart.
pub data MongoError : Type 0 where
  connection_failure duplicate_key : MongoError
  operation_failure : ℕ → String → MongoError

pub data Backing : Type 0 where
  mongodb redis channel : Backing

-- The exceptions of the program, without their message texts.
pub data Error : Type 0 where
  -- raised by pymongo, by redis-py (its own ConnectionError) and by the Redis adapter
  pymongo : MongoError → Error
  redis_lib_connection : Error
  connection_error timeout_error value_error : Error
  -- resolution_decision_store
  stale_outcome : EntityMentionIdentifier → Error
  repository_connection repository_operation : Error
  -- request_registry
  duplicate_triad idempotency_conflict : EntityMentionIdentifier → Error
  registry_connection registry_operation : Error
  snapshot_regression : String → ℕ → ℕ → Error
  -- rdf_mention_parser
  malformed_rdf content_too_large unsupported_entity_type unsupported_content_type : Error
  entity_type_mismatch multiple_entities_found empty_extraction : Error
  -- resolution_coordinator
  parsing_failed : Error → Error
  service_unavailable : Backing → Error
  resolution_timeout : Error
  source_not_found : String → Error
  -- commons
  invalid_cursor : Error
  -- ere_contract_client
  missing_entity_mention missing_source_id missing_request_id missing_entity_type : Error
  serialization channel_unavailable redis_connection : Error
  -- ere_result_integrator
  outcome_validation : Error
  triad_not_found : EntityMentionIdentifier → Error
  -- curation
  not_found : String → Error
  already_curated : String → Error
  invalid_cluster : String → String → Error
  -- ers_rest_api
  mention_not_found : Error
  -- users
  authentication_error user_deactivated last_admin application_error : Error
  -- any other exception
  other_error : Error

pub data Result {ℓ} (A : Type ℓ) : Type ℓ where
  ok : A → Result A
  err : Error → Result A

pub Result-cases {ℓ} :
    {A : Type ℓ} (r : Result A) → ((a : A) × (r ≡ ok a)) ⊎ ((e : Error) × (r ≡ err e))
Result-cases (ok a) = inl (a, refl)
Result-cases (err e) = inr (e, refl)

-- What does no input or output and may raise.
infixl 5 ◌>>?◌
abbrev pub ◌>>?◌ {ℓ} : {A B : Type ℓ} → Result A → (A → Result B) → Result B
ok a >>? f = f a
err e >>? f = err e

abbrev pub require : Bool → Error → Result (Unit {0})
require true e = ok tt
require false e = err e

abbrev pub Action : Type 0 → Type 0 → Type 0
Action W A = W → Result A × W

module _ {W A : Type 0} where
  abbrev pub pure : A → Action W A
  pure a w = (ok a, w)

  abbrev pub raise : Error → Action W A
  raise e w = (err e, w)

  -- `try` with its handlers, which run in the world that the body left.
  abbrev pub catch : Action W A → (Error → Action W A) → Action W A
  catch m handler w = let (r, w') = m w in elim r [ ok a ↦ (ok a, w') | err e ↦ handler e w' ]

infixl 5 ◌>>=◌ ◌>>◌
abbrev pub ◌>>=◌ : {W A B : Type 0} → Action W A → (A → Action W B) → Action W B
◌>>=◌ m f w = let (r, w') = m w in elim r [ ok a ↦ f a w' | err e ↦ (err e, w') ]

abbrev pub ◌>>◌ : {W A B : Type 0} → Action W A → Action W B → Action W B
m >> k = m >>= λ _. k

-- A test that raises when it fails.
abbrev pub guard : {W : Type 0} → Bool → Error → Action W (Unit {0})
guard true e w = (ok tt, w)
guard false e w = (err e, w)

-- What is known of a run that returned.
pub >>=-eq-ok :
    {W A B : Type 0} (m : Action W A) (f : A → Action W B) (w : W) {b : B} {v : W}
    → (m >>= f) w ≡ (ok b, v)
    → (a : A) × (u : W) × (m w ≡ (ok a, u)) × (f a u ≡ (ok b, v))
>>=-eq-ok {W} {A} {B} m f w {b} {v} h = inspect (m w) refl h
  where
    inspect :
        (p : Result A × W)
        → m w ≡ p
        → (let (r, w') = p in elim r [ ok a ↦ f a w' | err e ↦ (err e, w') ]) ≡ (ok b, v)
        → (a : A) × (u : W) × (m w ≡ (ok a, u)) × (f a u ≡ (ok b, v))
    inspect (ok a, u) e k = (a, u, e, k)
    inspect (err x, u) e k = cc k

-- A step that returns hands its result and its world to the next one.
pub >>=-ok :
    {W A B : Type 0} (m : Action W A) (f : A → Action W B) (w : W) (a : A)
    → (m w).0 ≡ ok a
    → (m >>= f) w ≡ f a (m w).1
>>=-ok {W} {A} {B} m f w a h = finish (m w) h
  where
    finish :
        (p : Result A × W)
        → p.0 ≡ ok a
        → (let (r, w') = p in elim r [ ok x ↦ f x w' | err e ↦ (err e, w') ]) ≡ f a p.1
    finish (ok x, u) k = ground (arith, k)
    finish (err e, u) k = cc k

pub >>=-run :
    {W A B : Type 0} (m : Action W A) (f : A → Action W B) (w v : W) (a : A)
    → m w ≡ (ok a, v)
    → (m >>= f) w ≡ f a v
>>=-run m f w v a h = >>=-ok m f w a (ap (λ r. r.0) h) ∙ ap (λ r. f a r.1) h
