-- ===== src/Rest/Found.antt =====
-- While no command on MongoDB fails, a bulk lookup is a map over the mentions.
use entity_resolution_servic.Prelude.{
  arith, ℕ, String, ◌≡◌, refl, ap, ◌∙◌, inl, inr, Option, none, some, Option-cases, List, [], ◌∷◌,
  map,
}
use entity_resolution_servic.Dict.{Dict, lookup}
use entity_resolution_servic.Domain.{EntityMention, EntityMentionIdentifier}
use entity_resolution_servic.Effects.{Result, ok, Action, pure, ◌>>=◌, >>=-run}
use entity_resolution_servic.Backend.{Backend, IsBackend, IsHealthy}
use entity_resolution_servic.Backend.Documents.{DecisionDocument}
use entity_resolution_servic.DecisionStore.Outcome.{derive_provisional_cluster_id, from_document}
use entity_resolution_servic.DecisionStore.ClusterSizes.{ClusterSizeIndex}
use entity_resolution_servic.DecisionStore.Service.{get_decision_by_triad}
use entity_resolution_servic.DecisionStore.Upsert.{find_healthy}
use entity_resolution_servic.Registry.Contexts.{
  ContextQueries, IsContextQueries, Contexts, get_contexts_for_triads,
}
use entity_resolution_servic.Registry.Reading.{get_contexts_for_triads-run}
use entity_resolution_servic.Coordinator.{lookup_by_triad}
use entity_resolution_servic.Rest.Messages.{
  BulkLookupResult, mention_not_found_code, nonempty_results, bulk_lookup_result,
}
use entity_resolution_servic.Rest.Resolve.{returned}
use entity_resolution_servic.Rest.Lookup.{
  found_result, failed_result, item_failed, lookup_item, lookup_items, handle_bulk_lookup,
}

-- What is answered for a mention, given what the store holds for it.
abbrev pub IsFound : EntityMentionIdentifier → Option DecisionDocument → BulkLookupResult → Type 0
IsFound i none x = x ≡ record {
  identified_by = i;
  cluster_reference = none;
  last_updated = none;
  context = none;
  error = some (record { error_code = mention_not_found_code });
}
IsFound i (some d) x =
    (x.identified_by ≡ d.about_entity_mention)
    × (x.cluster_reference ≡ some d.current_placement)
    × (x.last_updated ≡ some (elim d.updated_at [ none ↦ d.created_at | some t ↦ t ]))
    × (x.error ≡ none)

abbrev pub AreFound :
    (EntityMentionIdentifier → String)
    → Dict DecisionDocument
    → List EntityMentionIdentifier
    → List BulkLookupResult
    → Type 0
AreFound key docs [] [] = Unit
AreFound key docs (i ∷ is) (x ∷ xs) = IsFound i (lookup (key i) docs) x × AreFound key docs is xs
AreFound key docs is xs = ⊥

module _ (b : Backend) (contexts_of : ContextQueries b) (index : Option (ClusterSizeIndex b.World))
    (max_candidates : ℕ) (mention_parser : EntityMention → Result String) (budget : ℕ) where
  open b use {World, state}

  abbrev pub key : EntityMentionIdentifier → String
  key i = derive_provisional_cluster_id b i

  -- The decision that the store holds for a mention, or the error that it holds none.
  abbrev pub looked_up :
      Contexts → Dict DecisionDocument → EntityMentionIdentifier → BulkLookupResult
  looked_up contexts docs i = elim (lookup (key i) docs) [
    | none ↦ failed_result i mention_not_found_code
    | some d ↦ found_result contexts i (from_document (key i) d)
  ]

  module _ (laws : IsBackend b) (healthy : IsHealthy b) where
    abbrev item : Contexts → EntityMentionIdentifier → Action World BulkLookupResult
    item = lookup_item b contexts_of index max_candidates mention_parser budget

    abbrev items : Contexts → List EntityMentionIdentifier → Action World (List BulkLookupResult)
    items = lookup_items b contexts_of index max_candidates mention_parser budget

    lookup_item-looked_up :
        (contexts : Contexts) (i : EntityMentionIdentifier) (w : World)
        → (v : World) × ((item contexts i w ≡ (ok (looked_up contexts (state w).decisions i), v))
            × (state v ≡ state w))
    unfolding lookup_item lookup_by_triad get_decision_by_triad item_failed bulk_lookup_result
    lookup_item-looked_up contexts i w = (
      (b.find_decision (key i) w).1,
      (
        elim (Option-cases (lookup (key i) (state w).decisions)) [
          | inl absent ↦ ground (arith, absent, find_healthy b laws healthy (key i) w)
          | inr (d, present) ↦ ground (arith, present, find_healthy b laws healthy (key i) w)
        ],
        laws.find_state (key i) w,
      ),
    )

    lookup_items-looked_up :
        (contexts : Contexts) (is : List EntityMentionIdentifier) (w : World)
        → (v : World) × ((items contexts is w
              ≡ (ok (map (looked_up contexts (state w).decisions) is), v))
            × (state v ≡ state w))
    unfolding lookup_items
    lookup_items-looked_up contexts [] w = (w, (refl, refl))
    lookup_items-looked_up contexts (i ∷ is) w =
        let (v, (e, same)) = lookup_item-looked_up contexts i w in
        let (u, (es, kept)) = lookup_items-looked_up contexts is v in
        (
          u,
          (
            >>=-run (item contexts i) (λ x. items contexts is >>= λ xs. pure (x ∷ xs)) w v _ e
                ∙ >>=-run (items contexts is) (λ xs. pure (_ ∷ xs)) v u _ es
                ∙ ap
                    (λ s. (
                      ok (
                          looked_up contexts (state w).decisions i
                          ∷ map (looked_up contexts (s.decisions)) is),
                      u,
                    ))
                    same,
            kept ∙ same,
          ),
        )

    described :
        (contexts : Contexts) (i : EntityMentionIdentifier) (found : Option DecisionDocument)
        → IsFound i found (elim found [
          | none ↦ failed_result i mention_not_found_code
          | some d ↦ found_result contexts i (from_document (key i) d)
        ])
    described contexts i none = refl
    described contexts i (some d) = (refl, refl, refl, refl)

    items-AreFound :
        (contexts : Contexts) (docs : Dict DecisionDocument) (is : List EntityMentionIdentifier)
        → AreFound key docs is (map (looked_up contexts docs) is)
    items-AreFound contexts docs [] = tt
    items-AreFound contexts docs (i ∷ is) =
        (described contexts i (lookup (key i) docs), items-AreFound contexts docs is)

    -- While no command on MongoDB fails, a bulk lookup of some mentions leaves the store as it was and
    -- answers, for each mention in the order of the request: if the store holds a decision for it,
    -- with the decision's own identifier, its placement, and its last update, or its creation if it
    -- has not moved; and else with an error, that it is not found, under the mention's identifier.
    pub handle_bulk_lookup-AreFound :
        IsContextQueries b contexts_of
        → (i : EntityMentionIdentifier) (is : List EntityMentionIdentifier) (w : World)
        → let (answer, u) =
            handle_bulk_lookup b contexts_of index max_candidates mention_parser budget
              (i ∷ is)
              w in
          ((xs : List BulkLookupResult) × ((answer ≡ ok xs)
              × AreFound key (state w).decisions (i ∷ is) xs))
          × (state u ≡ state w)
    unfolding handle_bulk_lookup nonempty_results
    handle_bulk_lookup-AreFound documented i is w =
        let (contexts, (v, (read, kept))) =
          get_contexts_for_triads-run b laws healthy contexts_of documented (i ∷ is) w in
        let (u, (e, same)) = lookup_items-looked_up contexts (i ∷ is) v in
        let run =
          >>=-run (get_contexts_for_triads b contexts_of (i ∷ is))
            (λ c. items c (i ∷ is) >>= λ rs. returned (nonempty_results rs)) w v contexts read
          ∙ >>=-run (items contexts (i ∷ is)) (λ rs. returned (nonempty_results rs)) v u _ e in
        (
          (
            map (looked_up contexts (state w).decisions) (i ∷ is),
            (
              ap (λ p. p.0) run ∙ ap (λ s. ok (map (looked_up contexts s.decisions) (i ∷ is))) kept,
              items-AreFound contexts (state w).decisions (i ∷ is),
            ),
          ),
          ap (λ p. state p.1) run ∙ same ∙ kept,
        )
