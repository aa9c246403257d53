-- ===== src/Tests/Curation.antt =====
-- Runs of the commands of a curator.
use entity_resolution_servic.Prelude.{
  ◌↔◌, Bool, true, false, sym, ap, ◌∙◌, some, ◌==◌, if◌then◌else◌, String, ◌≡◌, refl, none, [], ◌∷◌,
  contains, arith, eq_iff, string_eq,
}
use entity_resolution_servic.Dict.{lookup, count}
use entity_resolution_servic.Domain.{triad_key, Decision}
use entity_resolution_servic.Effects.{err, already_curated, invalid_cluster}
use entity_resolution_servic.Backend.Documents.{DecisionDocument, State}
use entity_resolution_servic.DecisionStore.Outcome.{derive_provisional_cluster_id, from_document}
use entity_resolution_servic.DecisionStore.Review.{review_count, claimed}
use entity_resolution_servic.Curation.{
  reject_exclusion_ids, record_accept, record_reject, record_assign, accept_decision,
  reject_decision, assign_decision,
}
use entity_resolution_servic.Curation.Audit.{IsAudited}
use entity_resolution_servic.Curation.Commands.{commands-IsAudited}
use entity_resolution_servic.Curation.Exclusions.{IsUnique, reject_exclusion_ids-IsUnique}
use entity_resolution_servic.Curation.Refusals.{
  AllOthers, record_action_taken, record_assign_invalid,
}
use entity_resolution_servic.Tests.Memory.{memory, memory-IsBackend, memory-IsHealthy, empty_state}
use entity_resolution_servic.Tests.DecisionStore.{key_a, decision_a, one_decision}

no_action : lookup "b7e2" empty_state.user_actions ≡ none
unfolding lookup
no_action = refl

taken_if :
    (c : Bool) (x y : DecisionDocument)
    → (if c then some x else none) ≡ some y
    → (c ≡ true) × (x ≡ y)
taken_if true x y h = (refl, ground (arith, h))
taken_if false x y h = cc h

one_decision-IsAudited : IsAudited memory one_decision
unfolding lookup count derive_provisional_cluster_id
one_decision-IsAudited k d h =
    let (same, doc) = taken_if (key_a == k) decision_a d h in
    (
      sym ((eq_iff key_a k).0 same) ∙ ap (λ x. triad_key x.about_entity_mention) doc,
      ap review_count doc,
    )

commands-IsAudited_example :
    IsAudited memory (accept_decision memory key_a "ann" one_decision).1
    × IsAudited memory (reject_decision memory key_a "ann" one_decision).1
    × IsAudited memory (assign_decision memory key_a "x" "ann" one_decision).1
commands-IsAudited_example =
    commands-IsAudited memory memory-IsBackend memory-IsHealthy key_a "ann" one_decision
      one_decision-IsAudited "x" no_action

abbrev seen_a : Decision
seen_a = from_document key_a decision_a

reject_exclusion_ids-IsUnique_example :
    IsUnique (reject_exclusion_ids seen_a)
    × ((c : String) → contains c (reject_exclusion_ids seen_a) ≡ contains c ("y" ∷ []))
reject_exclusion_ids-IsUnique_example = reject_exclusion_ids-IsUnique seen_a

abbrev reviewed_state : State
reviewed_state = record one_decision { decisions = (key_a, claimed decision_a) ∷ [] }

present_reviewed : lookup key_a reviewed_state.decisions ≡ some (claimed decision_a)
unfolding lookup derive_provisional_cluster_id
present_reviewed = refl

record_action_taken_example :
    let (r, v) = record_accept memory "ann" seen_a reviewed_state in
    let (r', v') = record_reject memory "ann" seen_a reviewed_state in
    (r ≡ err (already_curated key_a))
    × (v ≡ reviewed_state)
    × (r' ≡ err (already_curated key_a))
    × (v' ≡ reviewed_state)
record_action_taken_example =
    record_action_taken memory memory-IsBackend memory-IsHealthy "ann" seen_a reviewed_state
      (claimed decision_a) present_reviewed refl no_action

record_assign_invalid_example :
    let (r, v) = record_assign memory "ann" seen_a "q" one_decision in
    AllOthers "q" seen_a.candidates ↔ ((r ≡ err (invalid_cluster "q" key_a)) × (v ≡ one_decision))
record_assign_invalid_example =
    record_assign_invalid memory memory-IsBackend memory-IsHealthy "ann" seen_a one_decision "q"
      no_action
