-- ===== src/Integrator.antt =====
-- `OutcomeIntegrationService` and `OutcomeIntegrationWorker` of ers/ere_result_integrator.
pub mod Outcomes
pub mod Worker
use entity_resolution_servic.Prelude.{
  ℕ, ◌*◌, min, String, Bool, true, false, not, Option, none, some, List, [], ◌∷◌,
}
use entity_resolution_servic.Domain.{EntityMentionIdentifier, ClusterReference, Decision, triad_key}
use entity_resolution_servic.Effects.{
  Error, stale_outcome, outcome_validation, triad_not_found, Result, ok, err, Action, pure, raise,
  catch, guard, ◌>>=◌, ◌>>◌,
}
use entity_resolution_servic.Backend.{Backend}
use entity_resolution_servic.Backend.Documents.{ResolutionRequestRecord}
use entity_resolution_servic.DecisionStore.ClusterSizes.{ClusterSizeIndex}
use entity_resolution_servic.DecisionStore.Service.{store_decision}
use entity_resolution_servic.Registry.{get_resolution_request}

-- A datetime with or without a time zone.
pub record Timestamp : Type 0 where
  pub instant : ℕ
  pub is_aware : Bool

pub record EntityMentionResolutionResponse : Type 0 where
  pub entity_mention_id : EntityMentionIdentifier
  pub candidates : List ClusterReference
  pub timestamp : Option Timestamp
  pub ere_request_id : String

-- What the listener yields: a message, or a loss of the Redis connection, with the factor, in
-- thousandths, that `random` draws for the pause after it.
pub data ListenerEvent : Type 0 where
  message : EntityMentionResolutionResponse → ListenerEvent
  disconnected : ℕ → ListenerEvent

abbrev pub backoff_initial : ℕ
backoff_initial = 1

abbrev pub backoff_cap : ℕ
backoff_cap = 30

-- A pause of some seconds by a factor in thousandths, in milliseconds.
abbrev pub jittered : ℕ → ℕ → ℕ
jittered base factor = base * factor

module _ (b : Backend) (index : Option (ClusterSizeIndex b.World)) (max_candidates : ℕ)
    (has_callback : Bool) where
  open b use {World}

  unfoldable pub store_outcome :
      EntityMentionIdentifier
      → ClusterReference
      → List ClusterReference
      → ℕ
      → Action World (Option Decision)
  store_outcome identifier current candidates updated_at =
      catch
        (do
          decision ← store_decision b index max_candidates identifier current candidates updated_at
          pure (some decision))
        (elim [ stale_outcome _ ↦ pure none | e ↦ raise e ])

  -- What the callback raises is logged and dropped.
  unfoldable pub notify : EntityMentionIdentifier → Action World (Unit {0})
  notify identifier = elim has_callback [
    | false ↦ pure tt
    | true ↦ catch (b.on_outcome_stored (triad_key identifier)) (λ e. pure tt)
  ]

  unfoldable pub integrate_valid :
      EntityMentionIdentifier
      → ClusterReference
      → List ClusterReference
      → ℕ
      → Action World (Option Decision)
  unfolding store_outcome notify
  integrate_valid identifier current candidates updated_at = do
    found ← get_resolution_request b identifier
    elim found [
      | none ↦ raise (triad_not_found identifier)
      | some r ↦ do
        decision ← store_outcome identifier current candidates updated_at
        notify identifier
        pure decision
    ]

  -- The first candidate is the placement, the others are the alternatives.
  unfoldable pub integrate_candidates :
      EntityMentionIdentifier → List ClusterReference → ℕ → Action World (Option Decision)
  integrate_candidates identifier [] updated_at = raise outcome_validation
  integrate_candidates identifier (current ∷ candidates) updated_at =
      integrate_valid identifier current candidates updated_at

  unfoldable pub integrate_timed :
      EntityMentionResolutionResponse → Option Timestamp → Action World (Option Decision)
  unfolding integrate_candidates
  integrate_timed response none = raise outcome_validation
  integrate_timed response (some t) = do
    guard t.is_aware outcome_validation
    integrate_candidates response.entity_mention_id response.candidates t.instant

  unfoldable pub integrate_outcome :
      EntityMentionResolutionResponse → Action World (Option Decision)
  unfolding integrate_timed
  integrate_outcome response = integrate_timed response response.timestamp

  -- Every exception of a message is logged and dropped.
  unfoldable pub process : EntityMentionResolutionResponse → World → World
  process response w = (integrate_outcome response w).1

  -- The polling loop on the events that the listener still has for it: the world at the end, and
  -- the pauses made, in milliseconds.
  unfoldable pub run : List ListenerEvent → ℕ → World → World × List ℕ
  unfolding process
  run [] backoff w = (w, [])
  run (message m ∷ rest) backoff w = run rest backoff_initial (process m w)
  run (disconnected factor ∷ rest) backoff w =
      let (w', pauses) = run rest (min (backoff * 2) backoff_cap) w in
      (w', jittered backoff factor ∷ pauses)
