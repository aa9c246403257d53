-- ===== src/Curation/Commands.antt =====
-- The commands of a curator, from the decision's id to the request to the ERE.
use entity_resolution_servic.Prelude.{
  String, ◌≡◌, refl, sym, Option, none, some, List, [], ◌∷◌, arith, Option-cases, inl, inr, ap, ◌∙◌,
}
use entity_resolution_servic.Dict.{lookup}
use entity_resolution_servic.Domain.{
  Decision, UserAction, accept_top, reject_all, accept_alternative,
}
use entity_resolution_servic.Effects.{ok, err, Action, pure, not_found, ◌>>=◌, ◌>>◌}
use entity_resolution_servic.Effects.Keeps.{then_keeps, then_from, then_not, catch_keeps}
use entity_resolution_servic.Backend.{Backend, IsBackend, IsHealthy}
use entity_resolution_servic.Backend.Documents.{State, DecisionDocument, ResolutionRequestRecord}
use entity_resolution_servic.DecisionStore.Outcome.{from_document}
use entity_resolution_servic.DecisionStore.Upsert.{find_healthy}
use entity_resolution_servic.DecisionStore.Repository.{find_by_id}
use entity_resolution_servic.EreClient.{publish_request}
use entity_resolution_servic.EreClient.Publish.{IsSameCollections, publish_request_collections}
use entity_resolution_servic.Registry.{triad_id}
use entity_resolution_servic.Curation.{
  reevaluation, find_candidate, record_accept, record_reject, record_assign, send_reevaluation,
  publish_reevaluation, get_decision_or_raise, accept_decision, reject_decision, assign_decision,
  reject_exclusion_ids,
}
use entity_resolution_servic.Curation.Recording.{
  recorded, action, assigned_from, record_accept-recorded, record_reject-recorded,
  record_assign-recorded,
}
use entity_resolution_servic.Curation.Audit.{IsAudited, recorded-IsAudited}

module _ (b : Backend) (laws : IsBackend b) (healthy : IsHealthy b) where
  open b use {World, state}

  same-IsAudited : (s s' : State) → IsSameCollections s' s → IsAudited b s → IsAudited b s'
  same-IsAudited s s' (decisions, sizes, actions, requests, markers) audited k d h =
      rw actions (audited k d (ap (lookup k) (sym decisions) ∙ h))

  send_reevaluation-IsAudited :
      (proposed excluded : List String) (mention : Option ResolutionRequestRecord) (w : World)
      → IsAudited b (state w)
      → IsAudited b (state (send_reevaluation b proposed excluded mention w).1)
  unfolding send_reevaluation
  send_reevaluation-IsAudited proposed excluded none w audited = audited
  send_reevaluation-IsAudited proposed excluded (some r) w audited =
      let P : World → Type 0 = λ v. IsAudited b (state v) in
      let request = reevaluation proposed excluded r in
      let publish : Action World String = publish_request b request in
      let published : P (publish w).1 =
        same-IsAudited (state w) (state (publish w).1)
          (publish_request_collections b laws request w) audited in
      catch_keeps P (publish >>= λ _. pure tt) (λ e. pure tt) w
        (then_keeps P publish (λ _. pure tt) w published (λ a v h. h)) (λ e v h. h)

  publish_reevaluation-IsAudited :
      (d : Decision) (proposed excluded : List String) (w : World)
      → IsAudited b (state w)
      → IsAudited b (state (publish_reevaluation b d proposed excluded w).1)
  unfolding publish_reevaluation
  publish_reevaluation-IsAudited d proposed excluded w audited =
      then_keeps (λ v. IsAudited b (state v))
        (b.requests.find_one (triad_id d.about_entity_mention))
        (send_reevaluation b proposed excluded) w
        (rw (laws.requests_laws.find_state (triad_id d.about_entity_mention) w) audited)
        (send_reevaluation-IsAudited proposed excluded)

  module _ (id actor : String) (w : World) (audited : IsAudited b (state w)) where
    abbrev read : World
    read = (b.find_decision id w).1

    found :
        (d : DecisionDocument)
        → lookup id (state w).decisions ≡ some d
        → get_decision_or_raise b id w ≡ (ok (from_document id d), read)
    unfolding get_decision_or_raise find_by_id
    found d h = ground (arith, find_healthy b laws healthy id w, h)

    missing :
        lookup id (state w).decisions ≡ none
        → get_decision_or_raise b id w ≡ (err (not_found id), read)
    unfolding get_decision_or_raise find_by_id
    missing h = ground (arith, find_healthy b laws healthy id w, h)

    -- What follows a decision that is found, or nothing.
    command-IsAudited :
        (f : Decision → Action World (Unit {0}))
        → ((d : DecisionDocument)
            → lookup id (state w).decisions ≡ some d
            → IsAudited b (state (f (from_document id d) read).1))
        → IsAudited b (state ((get_decision_or_raise b id >>= f) w).1)
    command-IsAudited f next = elim (Option-cases (lookup id (state w).decisions)) [
      | inl absent ↦
          then_not (λ v. IsAudited b (state v)) (get_decision_or_raise b id) f w read (not_found id)
            (missing absent) (rw (laws.find_state id w) audited)
      | inr (d, present) ↦
          then_from (λ v. IsAudited b (state v)) (get_decision_or_raise b id) f w read
            (from_document id d) (found d present) (next d present)
    ]

    -- The id that the action will get is not one of a stored action.
    abbrev pub IsFresh : Type 0
    IsFresh = lookup (b.uuid4 read).0 (state w).user_actions ≡ none

    -- The recording of an action on the decision that was found.
    recording-IsAudited :
        (a : UserAction) (d : DecisionDocument) (v : World)
        → lookup id (state w).decisions ≡ some d
        → a.about_entity_mention ≡ d.about_entity_mention
        → lookup a.id (state w).user_actions ≡ none
        → state v ≡ (recorded a id (state read)).1
        → IsAudited b (state v)
    recording-IsAudited a d v present about fresh left =
        rw (left, laws.find_state id w)
          (recorded-IsAudited b a id (state w) audited fresh
            (λ e h. ground (arith, about, present, h)))

    fresh_read : IsFresh → lookup (b.uuid4 read).0 (state read).user_actions ≡ none
    fresh_read fresh = rw (laws.find_state id w) fresh

    -- A command: record the action, then tell the ERE.
    recorded_and_sent :
        (record_action : Decision → Action World (Unit {0}))
        (proposed excluded : Decision → List String)
        → ((d : DecisionDocument)
            → lookup id (state w).decisions ≡ some d
            → IsAudited b (state (record_action (from_document id d) read).1))
        → IsAudited b (
            state
              ((get_decision_or_raise b id >>= λ d.
                  record_action d >> publish_reevaluation b d (proposed d) (excluded d))
                w).1)
    recorded_and_sent record_action proposed excluded recorded_well =
        command-IsAudited
          (λ d. record_action d >> publish_reevaluation b d (proposed d) (excluded d))
          (λ d present.
            let decision = from_document id d in
            then_keeps (λ v. IsAudited b (state v)) (record_action decision)
              (λ _. publish_reevaluation b decision (proposed decision) (excluded decision)) read
              (recorded_well d present)
              (λ _ v h.
                publish_reevaluation-IsAudited decision (proposed decision) (excluded decision) v
                  h))

    abbrev to_placement : Decision → List String
    to_placement d = d.current_placement.cluster_id ∷ []

    accept_decision-IsAudited : IsFresh → IsAudited b (state (accept_decision b id actor w).1)
    unfolding accept_decision
    accept_decision-IsAudited fresh =
        recorded_and_sent (record_accept b actor) to_placement (λ d. [])
          (λ d present.
            let decision = from_document id d in
            let new =
              action b laws healthy actor decision (some decision.current_placement) accept_top
                read in
            let (answered, left) =
              record_accept-recorded b laws healthy actor decision read (fresh_read fresh) in
            recording-IsAudited new d (record_accept b actor decision read).1 present refl fresh
              left)

    reject_decision-IsAudited : IsFresh → IsAudited b (state (reject_decision b id actor w).1)
    unfolding reject_decision
    reject_decision-IsAudited fresh =
        recorded_and_sent (record_reject b actor) (λ d. []) reject_exclusion_ids
          (λ d present.
            let decision = from_document id d in
            let new = action b laws healthy actor decision none reject_all read in
            let (answered, left) =
              record_reject-recorded b laws healthy actor decision read (fresh_read fresh) in
            recording-IsAudited new d (record_reject b actor decision read).1 present refl fresh
              left)

    assign_decision-IsAudited :
        (cluster_id : String)
        → IsFresh
        → IsAudited b (state (assign_decision b id cluster_id actor w).1)
    unfolding assign_decision
    assign_decision-IsAudited cluster_id fresh =
        recorded_and_sent (λ d. record_assign b actor d cluster_id) (λ d. cluster_id ∷ []) (λ d. [])
          (λ d present.
            let decision = from_document id d in
            let (answered, left) =
              record_assign-recorded b laws healthy actor decision read cluster_id
                (fresh_read fresh) in
            elim (Option-cases (find_candidate decision.candidates cluster_id)) [
              | inl absent ↦
                  rw
                    (left
                      ∙ ap (λ o. (assigned_from b laws healthy actor decision read o cluster_id).1)
                          absent
                      ∙ laws.find_state id w)
                    audited
              | inr (c, chosen) ↦
                  let new = action b laws healthy actor decision (some c) accept_alternative read in
                  recording-IsAudited new d (record_assign b actor decision cluster_id read).1
                    present refl fresh
                    (left
                      ∙ ap (λ o. (assigned_from b laws healthy actor decision read o cluster_id).1)
                          chosen)
            ])

    -- While no command fails and uuid4 gives a new id, accepting, rejecting and assigning a decision
    -- keep the audit trail and the review counters in agreement, whatever they answer: each decision
    -- has been counted as often as the trail has actions on its mention.
    pub commands-IsAudited :
        (cluster_id : String)
        → IsFresh
        → IsAudited b (state (accept_decision b id actor w).1)
          × IsAudited b (state (reject_decision b id actor w).1)
          × IsAudited b (state (assign_decision b id cluster_id actor w).1)
    commands-IsAudited cluster_id fresh = (
      accept_decision-IsAudited fresh,
      reject_decision-IsAudited fresh,
      assign_decision-IsAudited cluster_id fresh,
    )
