-- ===== src/EreClient/Publish.antt =====
-- What publishing a request does to the channel and to the collections.
use entity_resolution_servic.Prelude.{
  ℕ, zero, suc, String, ◌≡◌, ◌≢◌, refl, Bool, true, false, Option, none, some, [], ◌∷◌, ◌++◌, arith,
  inl, inr, ◌⊎◌, Bool-cases, ap, ◌∙◌, string_eq, nat_eq,
}
use entity_resolution_servic.Domain.{EntityMention}
use entity_resolution_servic.Effects.{Error, Result, Result-cases, ok, err}
use entity_resolution_servic.Backend.{Backend, IsBackend}
use entity_resolution_servic.Backend.Documents.{State, EntityMentionResolutionRequest}
use entity_resolution_servic.EreClient.{
  validate_mention, validate_triad, stamp, name_request, enrich_metadata, lpush_failed,
  push_request, push_failed, publish_request,
}

-- Two states with the same collections.
abbrev pub IsSameCollections : State → State → Type 0
IsSameCollections s s' =
    (s.decisions ≡ s'.decisions)
    × (s.cluster_sizes ≡ s'.cluster_sizes)
    × (s.user_actions ≡ s'.user_actions)
    × (s.requests ≡ s'.requests)
    × (s.lookup_states ≡ s'.lookup_states)

abbrev is_answer {ℓ} : {A : Type ℓ} → Result A → Bool
is_answer (ok a) = true
is_answer (err e) = false

same_of_push :
    (s s' s'' : State)
    → s' ≡ s
    → s'' ≡ record s' { request_channel = s''.request_channel }
    → IsSameCollections s'' s
same_of_push s s' s'' e f = (
  ap (λ x. x.decisions) f ∙ ap (λ x. x.decisions) e,
  ap (λ x. x.cluster_sizes) f ∙ ap (λ x. x.cluster_sizes) e,
  ap (λ x. x.user_actions) f ∙ ap (λ x. x.user_actions) e,
  ap (λ x. x.requests) f ∙ ap (λ x. x.requests) e,
  ap (λ x. x.lookup_states) f ∙ ap (λ x. x.lookup_states) e,
)

module _ (b : Backend) (laws : IsBackend b) where
  open b use {World, state}

  module _ (request : EntityMentionResolutionRequest) (w : World) where
    abbrev enriched : EntityMentionResolutionRequest
    enriched = let (named, w') = name_request b request w in (stamp b named named.timestamp w').0

    abbrev ready : World
    ready = let (named, w') = name_request b request w in (stamp b named named.timestamp w').1

    name_request_state : state (name_request b request w).1 ≡ state w
    unfolding name_request
    name_request_state = ground (arith, laws.uuid4_state w)

    stamp_state : (t : Option ℕ) → state (stamp b request t w).1 ≡ state w
    unfolding stamp
    stamp_state none = laws.now_state w
    stamp_state (some t) = refl

  ready_state :
      (request : EntityMentionResolutionRequest) (w : World) → state (ready request w) ≡ state w
  ready_state request w =
      let (named, w') = name_request b request w in
      stamp_state named w' named.timestamp ∙ name_request_state request w

  validate_mention_world : (m : Option EntityMention) (w : World) → (validate_mention b m w).1 ≡ w
  unfolding validate_mention
  validate_mention_world none w = refl
  validate_mention_world (some m) w = ground arith

  push_failed_world : (e : Error) (w : World) → (push_failed b e w).1 ≡ w
  unfolding push_failed
  push_failed_world e w = ground arith

  push_failed_raises : (e : Error) (w : World) → is_answer (push_failed b e w).0 ≡ false
  unfolding push_failed
  push_failed_raises e w = ground arith

  lpush_failed-raises :
      (e : Error) (w : World)
      → ((lpush_failed b e w).1 ≡ w) × (is_answer (lpush_failed b e w).0 ≡ false)
  unfolding lpush_failed
  lpush_failed-raises e w = (ground arith, ground arith)

  push_request_world :
      (r : EntityMentionResolutionRequest) (w : World) → (push_request b r w).1 ≡ (b.lpush r w).1
  unfolding push_request
  push_request_world r w = elim (Result-cases (b.lpush r w).0) [
    | inl (n, pushed) ↦ ground (arith, pushed)
    | inr (e, failed) ↦ ground (arith, failed, (lpush_failed-raises e (b.lpush r w).1).0)
  ]

  push_request_ok :
      (r : EntityMentionResolutionRequest) (w : World) (n : ℕ)
      → (push_request b r w).0 ≡ ok n
      → (b.lpush r w).0 ≡ ok n
  unfolding push_request
  push_request_ok r w n h = elim (Result-cases (b.lpush r w).0) [
    | inl (m, pushed) ↦ ground (arith, pushed, h)
    | inr (e, failed) ↦
        absurd (ground (arith, failed, h, (lpush_failed-raises e (b.lpush r w).1).1))
  ]

  module _ (request : EntityMentionResolutionRequest) (w : World) where
    abbrev pushing : Result ℕ × World
    pushing = push_request b (enriched request w) (ready request w)

    abbrev end : World
    end = (publish_request b request w).1

    ends_pushed :
        (u : Unit {0})
        → (validate_mention b request.entity_mention w).0 ≡ ok u
        → b.serializes (enriched request w) ≡ true
        → end ≡ pushing.1
    unfolding publish_request validate_triad enrich_metadata
    ends_pushed u valid sound =
        let f1 = validate_mention_world request.entity_mention w in
        elim (Result-cases pushing.0) [
          | inl (n, pushed) ↦ ground (arith, f1, valid, sound, pushed)
          | inr (e, failed) ↦
              ground (arith, f1, valid, sound, failed, push_failed_world e pushing.1)
        ]

    -- The worlds that publishing may leave.
    ends : (end ≡ w) ⊎ ((end ≡ ready request w) ⊎ (end ≡ pushing.1))
    unfolding publish_request validate_triad enrich_metadata
    ends =
        let f1 = validate_mention_world request.entity_mention w in
        elim (Result-cases (validate_mention b request.entity_mention w).0) [
          | inl (u, valid) ↦ elim (Bool-cases (b.serializes (enriched request w))) [
            | inl sound ↦ inr (inr (ends_pushed u valid sound))
            | inr broken ↦ inr (inl (ground (arith, f1, valid, broken)))
          ]
          | inr (e, bad) ↦ inl (ground (arith, f1, bad))
        ]

    -- Publishing writes no collection, whatever it answers.
    pub publish_request_collections : IsSameCollections (state end) (state w)
    publish_request_collections =
        let f1 = ready_state request w in
        let f2 = laws.push_collections (enriched request w) (ready request w) in
        elim ends [
          | inl e ↦ rw e (refl, refl, refl, refl, refl)
          | inr (inl e) ↦ rw (e, f1) (refl, refl, refl, refl, refl)
          | inr (inr e) ↦
              rw (e, push_request_world (enriched request w) (ready request w))
                (same_of_push _ _ _ f1 f2)
        ]

    refused_of_failed :
        (e : Error) → pushing.0 ≡ err e → is_answer (publish_request b request w).0 ≡ false
    unfolding publish_request validate_triad enrich_metadata
    refused_of_failed e failed =
        let f1 = validate_mention_world request.entity_mention w in
        let f2 = push_failed_raises e pushing.1 in
        elim (Result-cases (validate_mention b request.entity_mention w).0) [
          | inl (u, valid) ↦ elim (Bool-cases (b.serializes (enriched request w))) [
            | inl sound ↦ ground (arith, f1, valid, sound, failed, f2)
            | inr broken ↦ ground (arith, f1, valid, broken)
          ]
          | inr (x, bad) ↦ ground (arith, f1, bad)
        ]

    pushed_of_ok :
        (id : String)
        → (publish_request b request w).0 ≡ ok id
        → (n : ℕ) × (pushing.0 ≡ ok (suc n))
          × (end ≡ pushing.1)
          × (id ≡ (enriched request w).ere_request_id)
    unfolding publish_request validate_triad enrich_metadata
    pushed_of_ok id h =
        let f1 = validate_mention_world request.entity_mention w in
        elim (Result-cases pushing.0) [
          | inl (zero, pushed) ↦ absurd (ground (arith, f1, h, pushed))
          | inl (suc n, pushed) ↦
              (n, pushed, ground (arith, f1, h, pushed), ground (arith, f1, h, pushed))
          | inr (e, failed) ↦ cc (refused_of_failed e failed, h)
        ]

    -- A request that is published stands at the end of the channel under the id that is returned,
    -- with a timestamp, and carries the mention and the cluster ids that it was given.
    pub publish_request-appended :
        (id : String)
        → (publish_request b request w).0 ≡ ok id
        → (r : EntityMentionResolutionRequest) × ((state end).request_channel
            ≡ (state w).request_channel ++ r ∷ [])
          × (r.ere_request_id ≡ id)
          × (r.entity_mention ≡ request.entity_mention)
          × (r.proposed_cluster_ids ≡ request.proposed_cluster_ids)
          × (r.excluded_cluster_ids ≡ request.excluded_cluster_ids)
          × (r.timestamp ≢ none)
    unfolding name_request stamp
    publish_request-appended id h =
        let (n, pushed, left, named) = pushed_of_ok id h in
        let f0 = push_request_world (enriched request w) (ready request w) in
        let accepted = push_request_ok (enriched request w) (ready request w) (suc n) pushed in
        let f1 = laws.push_state (enriched request w) (ready request w) n accepted in
        (
          enriched request w,
          ground (arith, f0, f1, left, ready_state request w),
          ground (arith, named),
          ground arith,
          ground arith,
          ground arith,
          ground arith,
        )
