-- ===== src/Curation.antt =====
-- The commands of a curator: `UserActionFactory` of ers/curation/domain/models.py, and the commands of
-- `UserActionService` and `DecisionCurationService` of ers/curation/services.
pub mod Recording
pub mod Audit
pub mod Exclusions
pub mod Commands
pub mod Refusals
pub mod Ranking
pub mod Canonical
pub mod Alternatives
use entity_resolution_servic.Prelude.{
  String, Bool, true, false, Option, none, some, List, [], ◌∷◌, map, contains, ◌==◌, string_eq,
  if◌then◌else◌,
}
use entity_resolution_servic.Domain.{
  ClusterReference, Decision, UserActionType, accept_top, accept_alternative, reject_all,
  UserAction,
}
use entity_resolution_servic.Effects.{
  Result, ok, err, Action, pure, raise, catch, guard, not_found, already_curated, invalid_cluster,
  ◌>>=◌, ◌>>◌,
}
use entity_resolution_servic.Backend.{Backend}
use entity_resolution_servic.Backend.Documents.{
  ResolutionRequestRecord, EntityMentionResolutionRequest,
}
use entity_resolution_servic.DecisionStore.Repository.{find_by_id, record_review}
use entity_resolution_servic.EreClient.{publish_request}
use entity_resolution_servic.Registry.{triad_id}

pub data BulkItemStatus : Type 0 where
  success missing curated error : BulkItemStatus

-- The candidate with an id, the first one if there are several.
unfoldable pub find_candidate : List ClusterReference → String → Option ClusterReference
find_candidate [] cluster_id = none
find_candidate (c ∷ rest) cluster_id =
    if c.cluster_id == cluster_id then some c else find_candidate rest cluster_id

-- `list(dict.fromkeys(ordered))`, less what has been seen.
unfoldable pub deduplicated : List String → List String → List String
deduplicated seen [] = []
deduplicated seen (x ∷ rest) =
    let old = deduplicated seen rest in
    let new = deduplicated (x ∷ seen) rest in if contains x seen then old else x ∷ new

unfoldable pub reject_exclusion_ids : Decision → List String
reject_exclusion_ids d =
    deduplicated [] (d.current_placement.cluster_id ∷ map (λ c. c.cluster_id) d.candidates)

abbrev pub reevaluation :
    List String → List String → ResolutionRequestRecord → EntityMentionResolutionRequest
reevaluation proposed excluded r = record {
  entity_mention = some r.mention;
  ere_request_id = "";
  timestamp = none;
  proposed_cluster_ids = proposed;
  excluded_cluster_ids = excluded;
}

module _ (b : Backend) where
  open b use {World}

  -- The id is drawn before the time is read.
  unfoldable pub create :
      String → Decision → Option ClusterReference → UserActionType → Action World UserAction
  create actor decision selected action_type w =
      let (u, w') = b.uuid4 w in
      let (now, w'') = b.now w' in
      (
        ok (record {
          id = u;
          about_entity_mention = decision.about_entity_mention;
          candidates = decision.candidates;
          selected_cluster = selected;
          action_type = action_type;
          actor = actor;
          created_at = now;
        }),
        w'',
      )

  unfoldable pub create_accept : String → Decision → Action World UserAction
  create_accept actor decision = create actor decision (some decision.current_placement) accept_top

  unfoldable pub create_reject : String → Decision → Action World UserAction
  create_reject actor decision = create actor decision none reject_all

  unfoldable pub create_assign : String → Decision → String → Action World UserAction
  create_assign actor decision cluster_id = elim (find_candidate decision.candidates cluster_id) [
    | none ↦ raise (invalid_cluster cluster_id decision.id)
    | some target ↦ create actor decision (some target) accept_alternative
  ]

  unfoldable pub save : UserAction → Action World (Unit {0})
  save action = b.user_actions.replace_one action.id action

  unfoldable pub delete_by_id : String → Action World (Unit {0})
  delete_by_id action_id = b.user_actions.delete_one action_id

  unfoldable pub record_or_compensate : Decision → UserAction → Action World (Unit {0})
  unfolding delete_by_id
  record_or_compensate decision action = do
    is_claimed ← record_review b decision.id action.created_at
    if is_claimed then pure tt else do delete_by_id action.id; raise (already_curated decision.id)

  -- What the three commands do once the action has been created.
  unfoldable pub save_and_claim : Decision → UserAction → Action World (Unit {0})
  unfolding save record_or_compensate
  save_and_claim decision action = do save action; record_or_compensate decision action

  unfoldable pub record_accept : String → Decision → Action World (Unit {0})
  unfolding create_accept
  record_accept actor decision = do
    action ← create_accept actor decision
    save_and_claim decision action

  unfoldable pub record_reject : String → Decision → Action World (Unit {0})
  unfolding create_reject
  record_reject actor decision = do
    action ← create_reject actor decision
    save_and_claim decision action

  unfoldable pub record_assign : String → Decision → String → Action World (Unit {0})
  unfolding create_assign
  record_assign actor decision cluster_id = do
    action ← create_assign actor decision cluster_id
    save_and_claim decision action

  unfoldable pub get_decision_or_raise : String → Action World Decision
  get_decision_or_raise decision_id = do
    decision ← find_by_id b decision_id
    elim decision [ none ↦ raise (not_found decision_id) | some d ↦ pure d ]

  -- What publishing raises is logged and dropped.
  unfoldable pub send_reevaluation :
      List String → List String → Option ResolutionRequestRecord → Action World (Unit {0})
  send_reevaluation proposed excluded none = pure tt
  send_reevaluation proposed excluded (some r) =
      catch (do publish_request b (reevaluation proposed excluded r); pure tt) (λ e. pure tt)

  unfoldable pub publish_reevaluation :
      Decision → List String → List String → Action World (Unit {0})
  publish_reevaluation decision proposed excluded = do
    mention ← b.requests.find_one (triad_id decision.about_entity_mention)
    send_reevaluation proposed excluded mention

  unfoldable pub accept_decision : String → String → Action World (Unit {0})
  accept_decision decision_id actor = do
    decision ← get_decision_or_raise decision_id
    record_accept actor decision
    publish_reevaluation decision (decision.current_placement.cluster_id ∷ []) []

  unfoldable pub reject_decision : String → String → Action World (Unit {0})
  reject_decision decision_id actor = do
    decision ← get_decision_or_raise decision_id
    record_reject actor decision
    publish_reevaluation decision [] (reject_exclusion_ids decision)

  unfoldable pub assign_decision : String → String → String → Action World (Unit {0})
  assign_decision decision_id cluster_id actor = do
    decision ← get_decision_or_raise decision_id
    record_assign actor decision cluster_id
    publish_reevaluation decision (cluster_id ∷ []) []

  -- One item of a bulk command, which reports what the command raised.
  unfoldable pub try_single_action :
      (String → String → Action World (Unit {0})) → String → String → World → BulkItemStatus × World
  try_single_action action decision_id actor w =
      let (r, w') = action decision_id actor w in
      (
        elim r [
          | ok _ ↦ success
          | err (not_found _) ↦ missing
          | err (already_curated _) ↦ curated
          | err _ ↦ error
        ],
        w',
      )
