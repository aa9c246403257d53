-- ===== src/DecisionStore/Orders.antt =====
-- Repeated outcomes, and outcomes that arrive out of order.
use entity_resolution_servic.Prelude.{
  ℕ, ◌<◌, String, ◌≡◌, refl, true, false, Option, some, List, take, arith, ap, sym, subst, ◌∙◌,
  Option-cases, inl, inr,
}
use entity_resolution_servic.Dict.{lookup, lookup-put_self}
use entity_resolution_servic.Domain.{
  EntityMentionIdentifier, ClusterReference, Decision, same_reference_iff, same_references_iff,
}
use entity_resolution_servic.Effects.{ok}
use entity_resolution_servic.Backend.{Backend, IsBackend, IsHealthy}
use entity_resolution_servic.Backend.Documents.{DecisionDocument}
use entity_resolution_servic.DecisionStore.Outcome.{
  is_same_outcome, derive_provisional_cluster_id, from_document,
}
use entity_resolution_servic.DecisionStore.Spec.{
  Contents, boundary, first_document, moved_document, stored,
}
use entity_resolution_servic.DecisionStore.Indexed.{store_indexed, store_indexed-stored}
use entity_resolution_servic.DecisionStore.History.{
  next_document, after_store, lookup-after_store_self,
}

is_same_outcome_self : (d : Decision) → is_same_outcome d d.current_placement d.candidates ≡ true
unfolding is_same_outcome
is_same_outcome_self d = ground (
  arith,
  same_reference_iff d.current_placement d.current_placement,
  same_references_iff d.candidates d.candidates,
)

-- The outcome that a document records.
abbrev pub Records : Option DecisionDocument → ClusterReference → List ClusterReference → Type 0
Records o current candidates =
    (d : DecisionDocument) × (o ≡ some d)
    × (d.current_placement ≡ current)
    × (d.candidates ≡ candidates)

is_same_outcome_sound :
    (d : Decision) (c : ClusterReference) (k : List ClusterReference)
    → is_same_outcome d c k ≡ true
    → (d.current_placement ≡ c) × (d.candidates ≡ k)
unfolding is_same_outcome
is_same_outcome_sound d c k h =
    ground (arith, same_reference_iff d.current_placement c, same_references_iff d.candidates k)

module _ (id : String) (i : EntityMentionIdentifier) (c1 c2 : ClusterReference)
    (k1 k2 : List ClusterReference) (t1 t2 : ℕ) (d : DecisionDocument) (late : boundary d < t1)
    (order : t1 < t2) where
  abbrev first : Option DecisionDocument → DecisionDocument
  first = next_document id i c1 k1 t1

  abbrev second : Option DecisionDocument → DecisionDocument
  second = next_document id i c2 k2 t2

  in_order : Records (some (second (some (first (some d))))) c2 k2
  in_order =
      let e = second (some (first (some d))) in
      let sound = is_same_outcome_sound (from_document id (first (some d))) c2 k2 in
      (e, refl, ground (arith, sound), ground (arith, sound))

  out_of_order :
      is_same_outcome (from_document id d) c2 k2 ≡ false
      → Records (some (first (some (second (some d))))) c2 k2
  out_of_order new = let e = first (some (second (some d))) in (e, refl, ground arith, ground arith)

  overtaken :
      is_same_outcome (from_document id d) c2 k2 ≡ true
      → is_same_outcome (from_document id d) c1 k1 ≡ false
      → Records (some (first (some (second (some d))))) c1 k1
  overtaken same new =
      let e = first (some (second (some d))) in (e, refl, ground arith, ground arith)

-- The same outcome again, whenever it comes: the store answers as before and writes nothing.
stored-stored :
    (id : String) (i : EntityMentionIdentifier) (c : ClusterReference) (k : List ClusterReference)
    (t t' : ℕ) (docs : Contents) (r : Decision)
    → (stored id i c k t docs).0 ≡ ok r
    → let docs' = (stored id i c k t docs).1 in stored id i c k t' docs' ≡ (ok r, docs')
unfolding stored
stored-stored id i c k t t' docs r h = elim (Option-cases (lookup id docs)) [
  | inl absent ↦
      let d : DecisionDocument = first_document i c k t in
      ground (arith, lookup-put_self id d docs, is_same_outcome_self (from_document id d))
  | inr (e, present) ↦
      let d : DecisionDocument = moved_document e i c k t in
      ground (arith, lookup-put_self id d docs, is_same_outcome_self (from_document id d))
]

module _ (b : Backend) (laws : IsBackend b) (healthy : IsHealthy b) (max_candidates : ℕ) where
  open b use {World, state}

  module _ (identifier : EntityMentionIdentifier) (c1 c2 : ClusterReference)
      (k1 k2 : List ClusterReference) (t1 t2 : ℕ) (w : World) (d : DecisionDocument)
      (present : lookup (derive_provisional_cluster_id b identifier) (state w).decisions ≡ some d)
      (late : boundary d < t1) (order : t1 < t2) where
    abbrev key : String
    key = derive_provisional_cluster_id b identifier

    -- The document of the mention after the two outcomes, in the order of their times and in the
    -- other order.
    abbrev pub after_in_order : Option DecisionDocument
    after_in_order =
        let store = after_store b max_candidates identifier in
        lookup key (state (store c2 k2 t2 (store c1 k1 t1 w))).decisions

    abbrev pub after_out_of_order : Option DecisionDocument
    after_out_of_order =
        let store = after_store b max_candidates identifier in
        lookup key (state (store c1 k1 t1 (store c2 k2 t2 w))).decisions

    abbrev next1 : Option DecisionDocument → DecisionDocument
    next1 = next_document key identifier c1 (take max_candidates k1) t1

    abbrev next2 : Option DecisionDocument → DecisionDocument
    next2 = next_document key identifier c2 (take max_candidates k2) t2

    in_order_eq : after_in_order ≡ some (next2 (some (next1 (some d))))
    in_order_eq =
        lookup-after_store_self b laws healthy max_candidates identifier c2 k2 t2
          (after_store b max_candidates identifier c1 k1 t1 w)
        ∙ ap (λ o. some (next2 o))
            (lookup-after_store_self b laws healthy max_candidates identifier c1 k1 t1 w
              ∙ ap (λ o. some (next1 o)) present)

    out_of_order_eq : after_out_of_order ≡ some (next1 (some (next2 (some d))))
    out_of_order_eq =
        lookup-after_store_self b laws healthy max_candidates identifier c1 k1 t1
          (after_store b max_candidates identifier c2 k2 t2 w)
        ∙ ap (λ o. some (next1 o))
            (lookup-after_store_self b laws healthy max_candidates identifier c2 k2 t2 w
              ∙ ap (λ o. some (next2 o)) present)

    -- Two newer outcomes leave the later one in place, in whichever order they arrive, if the
    -- later one differs from the stored one.
    pub store_decision_orders :
        is_same_outcome (from_document key d) c2 (take max_candidates k2) ≡ false
        → Records after_in_order c2 (take max_candidates k2)
          × Records after_out_of_order c2 (take max_candidates k2)
    store_decision_orders new = (
      rw (in_order_eq) (
          in_order key identifier c1 c2 (take max_candidates k1) (take max_candidates k2) t1 t2 d
            late order),
      rw (out_of_order_eq) (
          out_of_order key identifier c1 c2 (take max_candidates k1) (take max_candidates k2) t1 t2
            d late order new),
    )

    -- A later outcome that repeats the stored one leaves no trace, so that an older one that arrives
    -- after it is accepted and stays.
    pub store_decision_overtaken :
        is_same_outcome (from_document key d) c2 (take max_candidates k2) ≡ true
        → is_same_outcome (from_document key d) c1 (take max_candidates k1) ≡ false
        → Records after_in_order c2 (take max_candidates k2)
          × Records after_out_of_order c1 (take max_candidates k1)
    store_decision_overtaken same new = (
      rw (in_order_eq) (
          in_order key identifier c1 c2 (take max_candidates k1) (take max_candidates k2) t1 t2 d
            late order),
      rw (out_of_order_eq) (
          overtaken key identifier c1 c2 (take max_candidates k1) (take max_candidates k2) t1 t2 d
            late order same new),
    )

module _ (b : Backend) (laws : IsBackend b) (healthy : IsHealthy b) (max_candidates : ℕ) where
  open b use {World, state}

  -- Once an outcome has been accepted, storing it again answers with the same decision and leaves
  -- the collection as it is, whatever time the repetition carries.
  pub store_decision_again :
      (identifier : EntityMentionIdentifier) (current : ClusterReference)
      (candidates : List ClusterReference) (t t' : ℕ) (w : World) (r : Decision)
      → (store_indexed b max_candidates identifier current candidates t w).0 ≡ ok r
      → let w' = after_store b max_candidates identifier current candidates t w in
        let (r', w'') = store_indexed b max_candidates identifier current candidates t' w' in
        (r' ≡ ok r) × ((state w'').decisions ≡ (state w').decisions)
  store_decision_again identifier current candidates t t' w r h =
      let once = store_indexed-stored b laws healthy max_candidates identifier current candidates in
      let w' = after_store b max_candidates identifier current candidates t w in
      let again =
        stored-stored (derive_provisional_cluster_id b identifier) identifier current
          (take max_candidates candidates) t t' (state w).decisions r (sym (once t w).0 ∙ h) in
      let answered =
        subst
          (λ (docs : Contents).
            stored (derive_provisional_cluster_id b identifier) identifier current
              (take max_candidates candidates) t' docs
            ≡ (ok r, docs))
          (sym (once t w).1) again in
      ((once t' w').0 ∙ ap (λ p. p.0) answered, (once t' w').1 ∙ ap (λ p. p.1) answered)
