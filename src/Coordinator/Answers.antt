-- ===== src/Coordinator/Answers.antt =====
-- What `resolve_single` answers is what the store holds.
use entity_resolution_servic.Prelude.{
  ℕ, String, ◌≡◌, refl, sym, subst, false, Option, none, some, List, [], ◌∷◌, take, arith, ap, ◌∙◌,
  ◌==◌, string_eq, ◌⊎◌, inl, inr, Option-cases, Bool-cases, nat_eq,
}
use entity_resolution_servic.Dict.{lookup, lookup-put_self}
use entity_resolution_servic.Domain.{
  EntityMention, EntityMentionIdentifier, ClusterReference, Decision, triad_key,
}
use entity_resolution_servic.Effects.{
  Error, Result, Result-cases, ok, Action, ◌>>=◌, ◌>>◌, pure, raise, resolution_timeout,
}
use entity_resolution_servic.Effects.Answers.{
  Answers, Answers->>=, Answers-catch, Answers-run, Answers_ok, Answers-err, is_answer,
}
use entity_resolution_servic.Backend.{Backend, IsBackend, IsHealthy}
use entity_resolution_servic.Backend.Documents.{DecisionDocument, EntityMentionResolutionRequest}
use entity_resolution_servic.EreClient.{publish_request}
use entity_resolution_servic.DecisionStore.Outcome.{
  is_same_outcome, derive_provisional_cluster_id, from_document,
}
use entity_resolution_servic.DecisionStore.ClusterSizes.{mongo_cluster_size_index}
use entity_resolution_servic.DecisionStore.Service.{get_decision_by_triad}
use entity_resolution_servic.DecisionStore.Spec.{
  Contents, first_document, moved_document, stored, upserted,
}
use entity_resolution_servic.DecisionStore.Indexed.{store_indexed, store_indexed-stored}
use entity_resolution_servic.DecisionStore.Upsert.{find_healthy}
use entity_resolution_servic.Coordinator.{
  ResolutionOutcome, canonical, provisional, provisional_reference, read_decision,
  store_unavailable, register, resolve_single, wait_and_read, waiting_failed, provisional_failed,
  issue_provisional, publish_and_wait, resolve_new,
}

store_unavailable_raises :
    {W : Type 0} (A : Type 0) (e : Error) (w : W)
    → is_answer (store_unavailable {W = W} {A = A} e w).0 ≡ false
unfolding store_unavailable
store_unavailable_raises A e w = ground arith

-- The decision is the stored document.
abbrev pub IsStored : String → Decision → Contents → Type 0
IsStored id d docs =
    (doc : DecisionDocument) × (lookup id docs ≡ some doc) × (d ≡ from_document id doc)

stored-IsStored :
    (id : String) (i : EntityMentionIdentifier) (c : ClusterReference) (k : List ClusterReference)
    (t : ℕ) (docs : Contents) (d : Decision)
    → (stored id i c k t docs).0 ≡ ok d
    → IsStored id d (stored id i c k t docs).1
unfolding stored upserted
stored-IsStored id i c k t docs d h = elim (Option-cases (lookup id docs)) [
  | inl absent ↦
      let doc = first_document i c k t in
      (doc, ground (arith, absent, lookup-put_self id doc docs), ground (arith, absent, h))
  | inr (old, present) ↦
      let doc = moved_document old i c k t in
      elim (Bool-cases (is_same_outcome (from_document id old) c k)) [
        | inl same ↦ (old, ground (arith, present, same), ground (arith, present, same, h))
        | inr new ↦ (
          doc,
          ground (arith, present, new, h, lookup-put_self id doc docs),
          ground (arith, present, new, h),
        )
      ]
]

module _ (b : Backend) (laws : IsBackend b) (healthy : IsHealthy b) (max_candidates : ℕ)
    (mention_parser : EntityMention → Result String) (budget : ℕ) where
  open b use {World, state}

  module _ (i : EntityMentionIdentifier) where
    abbrev key : String
    key = derive_provisional_cluster_id b i

    abbrev IsHeld : Decision → World → Type 0
    IsHeld d v = IsStored key d (state v).decisions

    abbrev AreHeld : Option Decision → World → Type 0
    AreHeld none v = Unit
    AreHeld (some d) v = IsHeld d v

    abbrev IsAnswer : Decision × ResolutionOutcome → World → Type 0
    IsAnswer (d, o) v = IsHeld d v

    abbrev get : Action World (Option Decision)
    get = get_decision_by_triad b (some (mongo_cluster_size_index b)) max_candidates i

    get-AreHeld : (w : World) → Answers AreHeld (get w)
    unfolding get_decision_by_triad
    get-AreHeld w =
        let w' = (b.find_decision key w).1 in
        elim (Option-cases (lookup key (state w).decisions)) [
          | inl absent ↦
              let e : get w ≡ (ok none, w') =
                ground (arith, absent, find_healthy b laws healthy key w) in
              rw e tt
          | inr (d, present) ↦
              let e : get w ≡ (ok (some (from_document key d)), w') =
                ground (arith, present, find_healthy b laws healthy key w) in
              rw e (d, ap (λ s. lookup key s.decisions) (laws.find_state key w) ∙ present, refl)
        ]

    abbrev read : Action World (Option Decision)
    read =
        read_decision b (some (mongo_cluster_size_index b)) max_candidates mention_parser budget i

    read-AreHeld : (w : World) → Answers AreHeld (read w)
    unfolding read_decision
    read-AreHeld w = Answers-catch AreHeld get store_unavailable w (get-AreHeld w) (λ e v.
        Answers-err AreHeld (store_unavailable e v)
          (store_unavailable_raises (Option Decision) e v))

    abbrev waiting : Error → Action World (Option Decision)
    waiting =
        waiting_failed b (some (mongo_cluster_size_index b)) max_candidates mention_parser budget i

    store-IsHeld :
        (c : ClusterReference) (k : List ClusterReference) (t : ℕ) (w : World)
        → Answers IsHeld (store_indexed b max_candidates i c k t w)
    store-IsHeld c k t w =
        let (answered, left) = store_indexed-stored b laws healthy max_candidates i c k t w in
        Answers-run IsHeld (store_indexed b max_candidates i c k t w) (λ d e.
          subst (IsStored key d) (sym left) (
            stored-IsStored key i c (take max_candidates k) t (state w).decisions d
              (sym answered ∙ e)))

    waiting_reads_or_raises :
        (e : Error) (w : World) → (waiting e w ≡ read w) ⊎ (is_answer (waiting e w).0 ≡ false)
    unfolding waiting_failed
    waiting_reads_or_raises e w = ground arith

    waiting-AreHeld : (e : Error) (w : World) → Answers AreHeld (waiting e w)
    waiting-AreHeld e w = elim (waiting_reads_or_raises e w) [
      | inl same ↦ rw same (read-AreHeld w)
      | inr raised ↦ Answers-err AreHeld (waiting e w) raised
    ]

    wait-AreHeld :
        (w : World)
        → Answers AreHeld (
            wait_and_read b
              (some (mongo_cluster_size_index b))
              max_candidates
              mention_parser
              budget
              i
              w)
    unfolding wait_and_read
    wait-AreHeld w =
        let (rung, w') = b.wait_for (triad_key i) budget w in
        elim (Bool-cases rung) [ inl woken ↦ rw woken (get-AreHeld w') | inr late ↦ rw late tt ]

    -- The answer to a provisional decision that came too late.
    settled : Option Decision → Action World (Decision × ResolutionOutcome)
    settled none = raise resolution_timeout
    settled (some d) = pure (d, canonical)

    settled-IsAnswer :
        (o : Option Decision) (w : World) → AreHeld o w → Answers IsAnswer (settled o w)
    unfolding settled
    settled-IsAnswer none w held = tt
    settled-IsAnswer (some d) w held = held

    abbrev failed : Error → Action World (Decision × ResolutionOutcome)
    failed =
        provisional_failed b (some (mongo_cluster_size_index b)) max_candidates mention_parser
          budget i

    failed_settles_or_raises :
        (e : Error) (w : World)
        → (failed e w ≡ (read >>= settled) w) ⊎ (is_answer (failed e w).0 ≡ false)
    unfolding provisional_failed settled
    failed_settles_or_raises e w = elim (Result-cases (read w).0) [
      | inl (none, x) ↦ ground (arith, x)
      | inl (some d, x) ↦ ground (arith, x)
      | inr (x, y) ↦ ground (arith, y)
    ]

    failed-IsAnswer : (e : Error) (w : World) → Answers IsAnswer (failed e w)
    failed-IsAnswer e w = elim (failed_settles_or_raises e w) [
      | inl same ↦ rw same (
          Answers->>= IsAnswer read settled w
            (λ o v h. settled-IsAnswer o v (subst (Answers AreHeld) h (read-AreHeld w))))
      | inr raised ↦ Answers-err IsAnswer (failed e w) raised
    ]

    abbrev issue : Action World (Decision × ResolutionOutcome)
    issue =
        issue_provisional b (some (mongo_cluster_size_index b)) max_candidates mention_parser budget
          i

    issue-IsAnswer : (w : World) → Answers IsAnswer (issue w)
    unfolding issue_provisional
    issue-IsAnswer w =
        let (now, w') = b.now w in
        let c =
          provisional_reference b (some (mongo_cluster_size_index b)) max_candidates mention_parser
            budget i in
        let store = store_indexed b max_candidates i c (c ∷ []) now in
        Answers-catch IsAnswer (store >>= λ d. pure (d, provisional)) failed w'
          (Answers->>= IsAnswer store (λ d. pure (d, provisional)) w'
            (λ d v h. subst (Answers IsHeld) h (store-IsHeld c (c ∷ []) now w')))
          failed-IsAnswer

  module _ (m : EntityMention) where
    abbrev i : EntityMentionIdentifier
    i = m.identified_by

    publish-AreHeld :
        (w : World)
        → Answers (AreHeld i) (
            publish_and_wait b
              (some (mongo_cluster_size_index b))
              max_candidates
              mention_parser
              budget
              m
              w)
    unfolding publish_and_wait
    publish-AreHeld w =
        let request : EntityMentionResolutionRequest = record {
          entity_mention = some m;
          ere_request_id = "";
          timestamp = none;
          proposed_cluster_ids = [];
          excluded_cluster_ids = [];
        } in
        let wait =
          wait_and_read b (some (mongo_cluster_size_index b)) max_candidates mention_parser budget
            i in
        Answers-catch (AreHeld i) (publish_request b request >> wait) (waiting i) w
          (Answers->>= (AreHeld i) (publish_request b request) (λ _. wait) w
            (λ x v h. wait-AreHeld i v))
          (waiting-AreHeld i)

    after_wait : Option Decision → Action World (Decision × ResolutionOutcome)
    after_wait o = elim o [ some d ↦ pure (d, canonical) | none ↦ issue i ]

    after_wait-IsAnswer :
        (o : Option Decision) (w : World) → AreHeld i o w → Answers (IsAnswer i) (after_wait o w)
    unfolding after_wait
    after_wait-IsAnswer none w held = issue-IsAnswer i w
    after_wait-IsAnswer (some d) w held = held

    after_read : Option Decision → Action World (Decision × ResolutionOutcome)
    after_read o = elim o [
      | some d ↦ pure (d, canonical)
      | none ↦
          resolve_new b (some (mongo_cluster_size_index b)) max_candidates mention_parser budget m
    ]

    new-IsAnswer :
        (w : World)
        → Answers (IsAnswer i) (
            resolve_new b
              (some (mongo_cluster_size_index b))
              max_candidates
              mention_parser
              budget
              m
              w)
    unfolding resolve_new after_wait
    new-IsAnswer w = elim (Bool-cases (budget == 0)) [
      | inl zero ↦ rw zero (issue-IsAnswer i w)
      | inr waits ↦ rw waits (
          Answers->>= (IsAnswer i)
            (publish_and_wait b (some (mongo_cluster_size_index b)) max_candidates mention_parser
              budget m)
            after_wait w
            (λ o v h. after_wait-IsAnswer o v (subst (Answers (AreHeld i)) h (publish-AreHeld w))))
    ]

    after_read-IsAnswer :
        (o : Option Decision) (w : World) → AreHeld i o w → Answers (IsAnswer i) (after_read o w)
    unfolding after_read
    after_read-IsAnswer none w held = new-IsAnswer w
    after_read-IsAnswer (some d) w held = held

    resolve-IsAnswer :
        (w : World)
        → Answers (IsAnswer i) (
            resolve_single b
              (some (mongo_cluster_size_index b))
              max_candidates
              mention_parser
              budget
              m
              w)
    unfolding resolve_single after_read
    resolve-IsAnswer w =
        Answers->>= (IsAnswer i)
          (register b (some (mongo_cluster_size_index b)) max_candidates mention_parser budget m)
          (λ _. read i >>= after_read) w
          (λ x v h.
            Answers->>= (IsAnswer i) (read i) after_read v
              (λ o u k. after_read-IsAnswer o u (subst (Answers (AreHeld i)) k (read-AreHeld i v))))

    -- While no command on MongoDB fails, whatever the other tasks do while the coordinator waits, a
    -- decision that it answers with, canonical or provisional, is the one that the store holds for
    -- the mention at that moment.
    pub resolve_single-IsStored :
        (w : World) (d : Decision) (o : ResolutionOutcome)
        → (resolve_single b
            (some (mongo_cluster_size_index b))
            max_candidates
            mention_parser
            budget
            m
            w).0
          ≡ ok (d, o)
        → IsStored
            (derive_provisional_cluster_id b m.identified_by)
            d
            (state
              (resolve_single b
                (some (mongo_cluster_size_index b))
                max_candidates
                mention_parser
                budget
                m
                w).1).decisions
    resolve_single-IsStored w d o h = Answers_ok (IsAnswer i) _ (d, o) (resolve-IsAnswer w) h
