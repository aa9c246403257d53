-- ===== src/Curation/Recording.antt =====
-- What a command of a curator writes: the action and its count, or nothing.
use entity_resolution_servic.Prelude.{
  ℕ, String, ◌≡◌, false, Option, none, some, arith, Option-cases, inl, inr, string_eq,
  if◌then◌else◌, ap, ◌∙◌,
}
use entity_resolution_servic.Dict.{Dict, lookup, put, erase-put}
use entity_resolution_servic.Domain.{
  ClusterReference, Decision, UserActionType, accept_top, accept_alternative, reject_all,
  UserAction,
}
use entity_resolution_servic.Effects.{Result, ok, err, already_curated, invalid_cluster}
use entity_resolution_servic.Backend.{Backend, IsBackend, IsHealthy}
use entity_resolution_servic.Backend.Documents.{State, DecisionDocument}
use entity_resolution_servic.DecisionStore.Repository.{record_review}
use entity_resolution_servic.DecisionStore.Review.{reviewed, record_review-reviewed}
use entity_resolution_servic.Curation.{
  find_candidate, create, create_assign, save_and_claim, record_accept, record_reject,
  record_assign,
}

-- The action is kept if the review of its decision counts, and else nothing is.
unfoldable pub recorded : UserAction → String → State → Result (Unit {0}) × State
recorded a id s =
    let (counts, docs) = reviewed id a.created_at s.decisions in
    if counts
    then (ok tt, record s { decisions = docs; user_actions = put a.id a s.user_actions })
    else (err (already_curated id), s)

reviewed_refused :
    (id : String) (at : ℕ) (docs : Dict DecisionDocument)
    → (reviewed id at docs).0 ≡ false
    → (reviewed id at docs).1 ≡ docs
unfolding reviewed
reviewed_refused id at docs h = ground arith

module _ (b : Backend) (laws : IsBackend b) (healthy : IsHealthy b) where
  open b use {World, state}

  module _ (d : Decision) (a : UserAction) (w : World)
      (fresh : lookup a.id (state w).user_actions ≡ none) where
    pub save_and_claim-recorded :
        let (r, v) = save_and_claim b d a w in
        let (r', s) = recorded a d.id (state w) in (r ≡ r') × (state v ≡ s)
    unfolding save_and_claim recorded
    save_and_claim-recorded =
        let w1 = (b.user_actions.replace_one a.id a w).1 in
        let w2 = (record_review b d.id a.created_at w1).1 in
        ground (
          arith,
          laws.user_actions_laws.replace_reply a.id a w,
          laws.user_actions_laws.replace_state a.id a w (healthy.no_fault w),
          healthy.no_fault w,
          record_review-reviewed b laws healthy d.id a.created_at w1,
          laws.user_actions_laws.delete_reply a.id w2,
          laws.user_actions_laws.delete_state a.id w2 (healthy.no_fault w2),
          healthy.no_fault w2,
          reviewed_refused d.id a.created_at (state w).decisions,
          erase-put a.id a (state w).user_actions fresh,
        )

  -- The action that a command creates in a world.
  module _ (actor : String) (d : Decision) (selected : Option ClusterReference)
      (kind : UserActionType) (w : World) where
    abbrev pub action : UserAction
    action = record {
      id = (b.uuid4 w).0;
      about_entity_mention = d.about_entity_mention;
      candidates = d.candidates;
      selected_cluster = selected;
      action_type = kind;
      actor = actor;
      created_at = (b.now (b.uuid4 w).1).0;
    }

    abbrev ready : World
    ready = (b.now (b.uuid4 w).1).1

    ready_state : state ready ≡ state w
    ready_state = laws.now_state (b.uuid4 w).1 ∙ laws.uuid4_state w

    created-recorded :
        lookup (b.uuid4 w).0 (state w).user_actions ≡ none
        → let (r, v) = save_and_claim b d action ready in
          let (r', s) = recorded action d.id (state w) in (r ≡ r') × (state v ≡ s)
    created-recorded fresh =
        let (answered, left) =
          save_and_claim-recorded d action ready
            (ap (λ s. lookup (b.uuid4 w).0 s.user_actions) ready_state ∙ fresh) in
        (
          answered ∙ ap (λ s. (recorded action d.id s).0) ready_state,
          left ∙ ap (λ s. (recorded action d.id s).1) ready_state,
        )

  module _ (actor : String) (d : Decision) (w : World) where
    -- An id that no stored action has: what the code relies on uuid4 for.
    abbrev pub Fresh : Type 0
    Fresh = lookup (b.uuid4 w).0 (state w).user_actions ≡ none

    pub record_accept-recorded :
        Fresh
        → let (r, v) = record_accept b actor d w in
          let (r', s) =
            recorded (action actor d (some d.current_placement) accept_top w) d.id (state w) in
          (r ≡ r') × (state v ≡ s)
    unfolding record_accept create
    record_accept-recorded fresh =
        created-recorded actor d (some d.current_placement) accept_top w fresh

    pub record_reject-recorded :
        Fresh
        → let (r, v) = record_reject b actor d w in
          let (r', s) = recorded (action actor d none reject_all w) d.id (state w) in
          (r ≡ r') × (state v ≡ s)
    unfolding record_reject create
    record_reject-recorded fresh = created-recorded actor d none reject_all w fresh

    -- The state after an assignment: nothing is written for a cluster that is no candidate.
    abbrev pub assigned_from : Option ClusterReference → String → Result (Unit {0}) × State
    assigned_from none cluster_id = (err (invalid_cluster cluster_id d.id), state w)
    assigned_from (some c) cluster_id =
        recorded (action actor d (some c) accept_alternative w) d.id (state w)

    abbrev pub assigned : String → Result (Unit {0}) × State
    assigned cluster_id = assigned_from (find_candidate d.candidates cluster_id) cluster_id

    pub record_assign-recorded :
        (cluster_id : String)
        → Fresh
        → let (r, v) = record_assign b actor d cluster_id w in
          let (r', s) = assigned cluster_id in (r ≡ r') × (state v ≡ s)
    unfolding record_assign create_assign create
    record_assign-recorded cluster_id fresh =
        elim (Option-cases (find_candidate d.candidates cluster_id)) [
          | inl absent ↦ ground (arith, absent)
          | inr (c, present) ↦
              ground (arith, present, created-recorded actor d (some c) accept_alternative w fresh)
        ]
