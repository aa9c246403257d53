-- ===== src/Curation/Refusals.antt =====
-- When a command of a curator is refused.
use entity_resolution_servic.Prelude.{
  String, ◌≡◌, ◌≢◌, ◌↔◌, true, none, some, List, [], ◌∷◌, All, arith, ap, sym, refl, ◌∙◌, inl, inr,
  Bool-cases, Option-cases, Option, ◌==◌, eq_iff, string_eq,
}
use entity_resolution_servic.Dict.{lookup}
use entity_resolution_servic.Domain.{
  Decision, ClusterReference, UserAction, accept_top, accept_alternative, reject_all,
}
use entity_resolution_servic.Effects.{Result, err, already_curated, invalid_cluster}
use entity_resolution_servic.Backend.{Backend, IsBackend, IsHealthy}
use entity_resolution_servic.Backend.Documents.{State, DecisionDocument}
use entity_resolution_servic.DecisionStore.Review.{reviewed, is_reviewed}
use entity_resolution_servic.Curation.{find_candidate, record_accept, record_reject, record_assign}
use entity_resolution_servic.Curation.Recording.{
  recorded, action, assigned_from, Fresh, record_accept-recorded, record_reject-recorded,
  record_assign-recorded,
}

recorded_taken :
    (a : UserAction) (id : String) (s : State) (doc : DecisionDocument)
    → lookup id s.decisions ≡ some doc
    → is_reviewed doc ≡ true
    → recorded a id s ≡ (err (already_curated id), s)
unfolding recorded reviewed
recorded_taken a id s doc present taken = ground (arith, present, taken)

-- No candidate names the cluster.
abbrev pub AllOthers : String → List ClusterReference → Type 0
AllOthers cluster_id candidates = All (λ c. c.cluster_id ≢ cluster_id) candidates

find_candidate-AllOthers :
    (cluster_id : String) (cs : List ClusterReference)
    → AllOthers cluster_id cs
    → find_candidate cs cluster_id ≡ none
unfolding find_candidate
find_candidate-AllOthers cluster_id [] others = refl
find_candidate-AllOthers cluster_id (c ∷ cs) (other, others) =
    elim (Bool-cases (c.cluster_id == cluster_id)) [
      | inl same ↦ absurd (other ((eq_iff c.cluster_id cluster_id).0 same))
      | inr distinct ↦ rw distinct (find_candidate-AllOthers cluster_id cs others)
    ]

AllOthers-find_candidate :
    (cluster_id : String) (cs : List ClusterReference)
    → find_candidate cs cluster_id ≡ none
    → AllOthers cluster_id cs
unfolding find_candidate
AllOthers-find_candidate cluster_id [] absent = tt
AllOthers-find_candidate cluster_id (c ∷ cs) absent =
    elim (Bool-cases (c.cluster_id == cluster_id)) [
      | inl same ↦ absurd (ground (arith, same, absent))
      | inr distinct ↦ (
        (λ e. cc (distinct, (eq_iff c.cluster_id cluster_id).1 e)),
        AllOthers-find_candidate cluster_id cs (ground (arith, distinct, absent)),
      )
    ]

-- Recording an action never refuses its cluster.
recorded-accepted :
    (a : UserAction) (id c i : String) (s : State) → (recorded a id s).0 ≢ err (invalid_cluster c i)
unfolding recorded
recorded-accepted a id c i s h = ground (arith, h)

module _ (b : Backend) (laws : IsBackend b) (healthy : IsHealthy b) (actor : String) (d : Decision)
    (w : b.World) where
  open b use {World, state}

  -- While no command on MongoDB fails and the id that uuid4 gives is not in the trail yet: once the
  -- placement of a decision has been reviewed, accepting it and rejecting it are refused, and no
  -- collection is changed.
  pub record_action_taken :
      (doc : DecisionDocument)
      → lookup d.id (state w).decisions ≡ some doc
      → is_reviewed doc ≡ true
      → Fresh b laws healthy actor d w
      → let (r, v) = record_accept b actor d w in
        let (r', v') = record_reject b actor d w in
        (r ≡ err (already_curated d.id))
        × (state v ≡ state w)
        × (r' ≡ err (already_curated d.id))
        × (state v' ≡ state w)
  record_action_taken doc present taken fresh =
      let accepted = record_accept-recorded b laws healthy actor d w fresh in
      let rejected = record_reject-recorded b laws healthy actor d w fresh in
      let acceptance = action b laws healthy actor d (some d.current_placement) accept_top w in
      let rejection = action b laws healthy actor d none reject_all w in
      let f1 = recorded_taken acceptance d.id (state w) doc present taken in
      let f2 = recorded_taken rejection d.id (state w) doc present taken in
      (
        accepted.0 ∙ ap (λ p. p.0) f1,
        accepted.1 ∙ ap (λ p. p.1) f1,
        rejected.0 ∙ ap (λ p. p.0) f2,
        rejected.1 ∙ ap (λ p. p.1) f2,
      )

  -- While no command on MongoDB fails and the id that uuid4 gives is not in the trail yet: an
  -- assignment is refused as one to an invalid cluster, and changes no collection, if and only if no
  -- candidate names the cluster.
  pub record_assign_invalid :
      (cluster_id : String)
      → Fresh b laws healthy actor d w
      → let (r, v) = record_assign b actor d cluster_id w in
        AllOthers cluster_id d.candidates
        ↔ ((r ≡ err (invalid_cluster cluster_id d.id)) × (state v ≡ state w))
  record_assign_invalid cluster_id fresh =
      let (answered, left) = record_assign-recorded b laws healthy actor d w cluster_id fresh in
      let from : Option ClusterReference → Result (Unit {0}) × State =
        λ o. assigned_from b laws healthy actor d w o cluster_id in
      (
        (λ others.
            let absent = find_candidate-AllOthers cluster_id d.candidates others in
            (answered ∙ ap (λ o. (from o).0) absent, left ∙ ap (λ o. (from o).1) absent)),
        (λ (refused, kept). elim (Option-cases (find_candidate d.candidates cluster_id)) [
          | inl absent ↦ AllOthers-find_candidate cluster_id d.candidates absent
          | inr (c, present) ↦ absurd (
              recorded-accepted (action b laws healthy actor d (some c) accept_alternative w) d.id
                cluster_id d.id (state w)
                (sym (ap (λ o. (from o).0) present) ∙ sym answered ∙ refused))
        ]),
      )
