-- ===== src/Integrator/Outcomes.antt =====
-- What one ERE outcome does to the stores.
use entity_resolution_servic.Prelude.{
  ℕ, ◌≡◌, refl, Bool, Bool-cases, true, Option, none, some, List, [], ◌∷◌, take, ap, ◌∙◌, arith,
  Option-cases, inl, inr, ◌⊎◌,
}
use entity_resolution_servic.Dict.{lookup}
use entity_resolution_servic.Domain.{EntityMentionIdentifier, ClusterReference, Decision, triad_key}
use entity_resolution_servic.Effects.{
  Error, Result, Result-cases, ok, err, stale_outcome, outcome_validation, triad_not_found,
}
use entity_resolution_servic.Backend.{Backend, IsBackend, IsHealthy}
use entity_resolution_servic.Backend.Documents.{ResolutionRequestRecord, State}
use entity_resolution_servic.Registry.{get_resolution_request, triad_id}
use entity_resolution_servic.DecisionStore.Outcome.{derive_provisional_cluster_id}
use entity_resolution_servic.DecisionStore.ClusterSizes.{mongo_cluster_size_index}
use entity_resolution_servic.DecisionStore.Spec.{Contents, stored, upserted}
use entity_resolution_servic.DecisionStore.Indexed.{
  IsSized, store_indexed, store_indexed-stored, store_decision-IsSized,
}
use entity_resolution_servic.Integrator.{
  integrate_candidates, integrate_timed, EntityMentionResolutionResponse, Timestamp,
  integrate_outcome, integrate_valid,
}

-- A stale outcome is no error.
abbrev pub absorbed : Result Decision → Result (Option Decision)
absorbed (ok d) = ok (some d)
absorbed (err (stale_outcome _)) = ok none
absorbed (err e) = err e

module _ (b : Backend) (laws : IsBackend b) (healthy : IsHealthy b) (max_candidates : ℕ)
    (has_callback : Bool) where
  open b use {World, state}

  abbrev pub integrate : EntityMentionResolutionResponse → World → Result (Option Decision) × World
  integrate = integrate_outcome b (some (mongo_cluster_size_index b)) max_candidates has_callback

  abbrev valid :
      EntityMentionIdentifier
      → ClusterReference
      → List ClusterReference
      → ℕ
      → World
      → Result (Option Decision) × World
  valid = integrate_valid b (some (mongo_cluster_size_index b)) max_candidates has_callback

  module _ (i : EntityMentionIdentifier) (c : ClusterReference) (k : List ClusterReference) (t : ℕ)
      (w : World) where
    abbrev read : World
    read = (b.requests.find_one (triad_id i) w).1

    abbrev run : Result Decision × World
    run = store_indexed b max_candidates i c k t read

    valid_unknown :
        lookup (triad_id i) (state w).requests ≡ none
        → ((valid i c k t w).0 ≡ err (triad_not_found i)) × (state (valid i c k t w).1 ≡ state w)
    unfolding integrate_valid get_resolution_request
    valid_unknown h = ground (
      arith,
      laws.requests_laws.find_reply (triad_id i) w,
      laws.requests_laws.find_state (triad_id i) w,
      healthy.no_fault w,
    )

    -- A known triad: the store decides, and the callback changes no collection.
    valid_known :
        (r : ResolutionRequestRecord)
        → lookup (triad_id i) (state w).requests ≡ some r
        → (state (valid i c k t w).1 ≡ state run.1)
    unfolding integrate_valid get_resolution_request
    valid_known r h = ground (
      arith,
      laws.requests_laws.find_reply (triad_id i) w,
      laws.requests_laws.find_state (triad_id i) w,
      healthy.no_fault w,
      laws.callback_state (triad_key i) run.1,
    )

    valid_reply :
        (r : ResolutionRequestRecord)
        → lookup (triad_id i) (state w).requests ≡ some r
        → (valid i c k t w).0 ≡ absorbed run.0
    unfolding integrate_valid get_resolution_request
    valid_reply r h = elim (Result-cases run.0) [
      | inl (d, e) ↦
          ground (arith, e, laws.requests_laws.find_reply (triad_id i) w, healthy.no_fault w)
      | inr (x, e) ↦
          ground (arith, e, laws.requests_laws.find_reply (triad_id i) w, healthy.no_fault w)
    ]

    read_state : state read ≡ state w
    read_state = laws.requests_laws.find_state (triad_id i) w

    valid-IsSized : IsSized (state w) → IsSized (state (valid i c k t w).1)
    valid-IsSized sized = elim (Option-cases (lookup (triad_id i) (state w).requests)) [
      | inl absent ↦ let (e, same) = valid_unknown absent in rw same sized
      | inr (r, present) ↦
          rw (valid_known r present) (
            store_decision-IsSized b laws healthy max_candidates i c k t read (rw read_state sized))
    ]

    abbrev expected : State → Result Decision × Contents
    expected s =
        stored (derive_provisional_cluster_id b i) i c (take max_candidates k) t s.decisions

    valid_stored :
        (r : ResolutionRequestRecord)
        → lookup (triad_id i) (state w).requests ≡ some r
        → ((valid i c k t w).0 ≡ absorbed (expected (state w)).0)
          × ((state (valid i c k t w).1).decisions ≡ (expected (state w)).1)
    valid_stored r present =
        let (answered, left) = store_indexed-stored b laws healthy max_candidates i c k t read in
        (
          valid_reply r present ∙ ap absorbed (answered ∙ ap (λ s. (expected s).0) read_state),
          ap (λ s. s.decisions) (valid_known r present)
              ∙ left
              ∙ ap (λ s. (expected s).1) read_state,
        )

    -- Nothing is written when an error is raised.
    valid_error :
        (e : Error)
        → (valid i c k t w).0 ≡ err e
        → (e ≡ triad_not_found i) × (state (valid i c k t w).1 ≡ state w)
    unfolding stored upserted
    valid_error e h = elim (Option-cases (lookup (triad_id i) (state w).requests)) [
      | inl absent ↦ let (raised, same) = valid_unknown absent in (ground (arith, raised, h), same)
      | inr (r, present) ↦
          let (answered, left) = valid_stored r present in
          let key = derive_provisional_cluster_id b i in
          elim (Option-cases (lookup key (state w).decisions)) [
            | inl new ↦ ground (arith, answered, h, new)
            | inr (d, old) ↦ ground (arith, answered, h, old)
          ]
    ]

  module _ (response : EntityMentionResolutionResponse) (w : World) where
    abbrev i : EntityMentionIdentifier
    i = response.entity_mention_id

    -- An outcome that names at least one candidate, bears a zoned timestamp and belongs to a
    -- registered triad is stored as the specification of the store says, its first candidate as
    -- the placement and the others as the alternatives; a stale one is reported as none.
    pub integrate_outcome-stored :
        (c : ClusterReference) (k : List ClusterReference) (t : ℕ) (r : ResolutionRequestRecord)
        → response.candidates ≡ c ∷ k
        → response.timestamp ≡ some (record { instant = t; is_aware = true })
        → lookup (triad_id i) (state w).requests ≡ some r
        → let expected =
            stored
              (derive_provisional_cluster_id b i)
              i
              c
              (take max_candidates k)
              t
              (state w).decisions in
          ((integrate response w).0 ≡ absorbed expected.0)
          × ((state (integrate response w).1).decisions ≡ expected.1)
    unfolding integrate_outcome
    integrate_outcome-stored c k t r listed timed present =
        rw (listed, timed) (valid_stored i c k t w r present)

  -- What one response leads to, by the shape of its timestamp and of its candidates.
  module _ (P : Result (Option Decision) × World → Type 0)
      (response : EntityMentionResolutionResponse) (w : World) where
    abbrev Accepted : Type 0
    Accepted =
        (c : ClusterReference) (k : List ClusterReference) (t : ℕ)
        → P (valid response.entity_mention_id c k t w)

    candidates_by :
        (cs : List ClusterReference) (t : ℕ)
        → P (err outcome_validation, w)
        → Accepted
        → P (
            integrate_candidates b
              (some (mongo_cluster_size_index b))
              max_candidates
              has_callback
              response.entity_mention_id
              cs
              t
              w)
    unfolding integrate_candidates
    candidates_by [] t refused accepted = refused
    candidates_by (c ∷ k) t refused accepted = accepted c k t

    timed_by :
        (ts : Option Timestamp)
        → P (err outcome_validation, w)
        → Accepted
        → P (
            integrate_timed b
              (some (mongo_cluster_size_index b))
              max_candidates
              has_callback
              response
              ts
              w)
    unfolding integrate_timed
    timed_by none refused accepted = refused
    timed_by (some ts) refused accepted = elim (Bool-cases ts.is_aware) [
      | inl aware ↦ rw aware (candidates_by response.candidates ts.instant refused accepted)
      | inr naive ↦ rw naive refused
    ]

    integrate_by : P (err outcome_validation, w) → Accepted → P (integrate response w)
    unfolding integrate_outcome
    integrate_by refused accepted = timed_by response.timestamp refused accepted

  -- While no command on MongoDB fails, integrating an outcome raises only that the outcome is
  -- malformed or that its triad is not registered, and whenever it raises, no collection has
  -- changed.
  pub integrate_outcome_atomic :
      (response : EntityMentionResolutionResponse) (w : World) (e : Error)
      → (integrate response w).0 ≡ err e
      → ((e ≡ outcome_validation) ⊎ (e ≡ triad_not_found response.entity_mention_id))
        × (state (integrate response w).1 ≡ state w)
  integrate_outcome_atomic response w e =
      integrate_by
        (λ (r, v).
          r ≡ err e
          → ((e ≡ outcome_validation) ⊎ (e ≡ triad_not_found response.entity_mention_id))
            × (state v ≡ state w))
        response w (λ h. (inl (ground (arith, h)), refl))
        (λ c k t h.
          let (raised, same) = valid_error response.entity_mention_id c k t w e h in
          (inr raised, same))

  -- Whatever outcome arrives, integrating it keeps the size of every cluster equal to the number
  -- of decisions placed in it.
  pub integrate_outcome-IsSized :
      (response : EntityMentionResolutionResponse) (w : World)
      → IsSized (state w)
      → IsSized (state (integrate response w).1)
  integrate_outcome-IsSized response w sized =
      integrate_by (λ (r, v). IsSized (state v)) response w sized
        (λ c k t. valid-IsSized response.entity_mention_id c k t w sized)
