-- ===== src/Rest/Lookups.antt =====
-- A bulk lookup answers every mention, in the order of the request, with what the store holds.
use entity_resolution_servic.Prelude.{
  ℕ, String, ◌≡◌, ◌≢◌, refl, ap, ◌∙◌, ◌⊎◌, inl, inr, Option, none, some, List, [], ◌∷◌,
}
use entity_resolution_servic.Domain.{EntityMention, EntityMentionIdentifier, Decision}
use entity_resolution_servic.Effects.{
  Error, mention_not_found, Result, ok, err, Action, pure, raise, catch, ◌>>=◌, >>=-run,
}
use entity_resolution_servic.Backend.{Backend}
use entity_resolution_servic.DecisionStore.ClusterSizes.{ClusterSizeIndex}
use entity_resolution_servic.Registry.Contexts.{
  ContextQueries, Contexts, context_for, get_contexts_for_triads,
}
use entity_resolution_servic.Coordinator.{lookup_by_triad}
use entity_resolution_servic.Rest.Messages.{
  ErrorCode, BulkLookupResult, mention_not_found_code, service_error, nonempty_results,
  bulk_lookup_result,
}
use entity_resolution_servic.Rest.Resolve.{returned}
use entity_resolution_servic.Rest.Lookup.{
  found_result, item_failed, lookup_item, lookup_items, handle_bulk_lookup,
}

-- An error under the mention's own identifier.
abbrev pub failure : EntityMentionIdentifier → ErrorCode → BulkLookupResult
failure i code = record {
  identified_by = i;
  cluster_reference = none;
  last_updated = none;
  context = none;
  error = some (record { error_code = code });
}

-- What is answered for a mention, given what its lookup returned.
abbrev pub IsAnswer :
    Contexts → EntityMentionIdentifier → Result (Option Decision) → BulkLookupResult → Type 0
IsAnswer contexts i (ok (some d)) x = x ≡ record {
  identified_by = d.about_entity_mention;
  cluster_reference = some d.current_placement;
  last_updated = some (elim d.updated_at [ none ↦ d.created_at | some t ↦ t ]);
  context = context_for i contexts;
  error = none;
}
IsAnswer contexts i (ok none) x = x ≡ failure i mention_not_found_code
IsAnswer contexts i (err e) x =
    ((e ≡ mention_not_found) × (x ≡ failure i mention_not_found_code))
    ⊎ ((e ≢ mention_not_found) × (x ≡ failure i service_error))

-- The answer to what a lookup of this very mention returns in some world.
abbrev pub IsLookedUp :
    {W : Type 0}
    → (EntityMentionIdentifier → Action W (Option Decision))
    → Contexts
    → EntityMentionIdentifier
    → BulkLookupResult
    → Type 0
IsLookedUp {W} find contexts i x =
    (u : W) × (r : Result (Option Decision)) × ((find i u).0 ≡ r) × IsAnswer contexts i r x

abbrev pub AreLookedUp :
    {W : Type 0}
    → (EntityMentionIdentifier → Action W (Option Decision))
    → Contexts
    → List EntityMentionIdentifier
    → List BulkLookupResult
    → Type 0
AreLookedUp find contexts [] [] = Unit
AreLookedUp find contexts (i ∷ is) (x ∷ xs) =
    IsLookedUp find contexts i x × AreLookedUp find contexts is xs
AreLookedUp find contexts is xs = ⊥

item_failed-cases :
    {W : Type 0} (i : EntityMentionIdentifier) (e : Error) (w : W)
    → ((e ≡ mention_not_found) × (item_failed i e w ≡ (ok (failure i mention_not_found_code), w)))
      ⊎ ((e ≢ mention_not_found) × (item_failed i e w ≡ (ok (failure i service_error), w)))
unfolding item_failed bulk_lookup_result
item_failed-cases i mention_not_found w = inl (refl, refl)
item_failed-cases i e w = inr (λ h. cc h, refl)

module _ (b : Backend) (contexts_of : ContextQueries b) (index : Option (ClusterSizeIndex b.World))
    (max_candidates : ℕ) (mention_parser : EntityMention → Result String) (budget : ℕ) where
  open b use {World, state}

  abbrev item : Contexts → EntityMentionIdentifier → Action World BulkLookupResult
  item = lookup_item b contexts_of index max_candidates mention_parser budget

  abbrev items : Contexts → List EntityMentionIdentifier → Action World (List BulkLookupResult)
  items = lookup_items b contexts_of index max_candidates mention_parser budget

  abbrev answer_to : List EntityMentionIdentifier → Action World (List BulkLookupResult)
  answer_to = handle_bulk_lookup b contexts_of index max_candidates mention_parser budget

  abbrev find : EntityMentionIdentifier → Action World (Option Decision)
  find i = lookup_by_triad b index max_candidates mention_parser budget i

  lookup_item-IsLookedUp :
      (contexts : Contexts) (i : EntityMentionIdentifier) (w : World)
      → (x : BulkLookupResult) × ((v : World) × ((item contexts i w ≡ (ok x, v))
            × IsLookedUp find contexts i x))
  unfolding lookup_item item_failed bulk_lookup_result
  lookup_item-IsLookedUp contexts i w = from_find (find i w) refl
    where
      next : Option Decision → Action World BulkLookupResult
      next decision = elim decision [
        | none ↦ raise mention_not_found
        | some d ↦ returned (bulk_lookup_result (found_result contexts i d))
      ]

      run_of : Result (Option Decision) × World → Result BulkLookupResult × World
      run_of p = catch ((λ _. p) >>= next) (item_failed i) w

      from_find :
          (p : Result (Option Decision) × World)
          → find i w ≡ p
          → (x : BulkLookupResult) × ((v : World) × ((item contexts i w ≡ (ok x, v))
                × IsLookedUp find contexts i x))
      from_find (ok none, v) h = (
        failure i mention_not_found_code,
        (v, (ap run_of h, (w, ok none, ap (λ p. p.0) h, refl))),
      )
      from_find (ok (some d), v) h =
          (_, (v, (ap run_of h, (w, ok (some d), ap (λ p. p.0) h, refl))))
      from_find (err e, v) h = elim (item_failed-cases i e v) [
        | inl (absent, same) ↦ (
          failure i mention_not_found_code,
          (v, (ap run_of h ∙ same, (w, err e, ap (λ p. p.0) h, inl (absent, refl)))),
        )
        | inr (other, same) ↦ (
          failure i service_error,
          (v, (ap run_of h ∙ same, (w, err e, ap (λ p. p.0) h, inr (other, refl)))),
        )
      ]

  lookup_items-AreLookedUp :
      (contexts : Contexts) (is : List EntityMentionIdentifier) (w : World)
      → (xs : List BulkLookupResult) × ((v : World) × ((items contexts is w ≡ (ok xs, v))
            × AreLookedUp find contexts is xs))
  unfolding lookup_items
  lookup_items-AreLookedUp contexts [] w = ([], (w, (refl, tt)))
  lookup_items-AreLookedUp contexts (i ∷ is) w =
      let (x, (v, (e, looked))) = lookup_item-IsLookedUp contexts i w in
      let (xs, (u, (es, all))) = lookup_items-AreLookedUp contexts is v in
      (
        x ∷ xs,
        (
          u,
          (
            >>=-run (item contexts i) (λ x. items contexts is >>= λ xs. pure (x ∷ xs)) w v x e
                ∙ >>=-run (items contexts is) (λ xs. pure (x ∷ xs)) v u xs es,
            (looked, all),
          ),
        ),
      )

  -- Once the contexts are read, a bulk lookup of some mentions answers whatever fails afterwards: one
  -- result for each mention in the order of the request, which answers what a lookup of this mention
  -- returned. A decision comes with the identifier and the placement that it stores, with its last
  -- update, and with the context that was read for the mention; the absence of one, or an error of the
  -- lookup, comes under the mention's own identifier.
  pub handle_bulk_lookup-AreLookedUp :
      (i : EntityMentionIdentifier) (is : List EntityMentionIdentifier) (w v : World)
      (contexts : Contexts)
      → get_contexts_for_triads b contexts_of (i ∷ is) w ≡ (ok contexts, v)
      → (xs : List BulkLookupResult) × (((answer_to (i ∷ is) w).0 ≡ ok xs)
          × AreLookedUp find contexts (i ∷ is) xs)
  unfolding handle_bulk_lookup nonempty_results
  handle_bulk_lookup-AreLookedUp i is w v contexts h =
      let (xs, (u, (e, all))) = lookup_items-AreLookedUp contexts (i ∷ is) v in
      (
        xs,
        (
          ap (λ p. p.0)
                (>>=-run (get_contexts_for_triads b contexts_of (i ∷ is))
                    (λ c. items c (i ∷ is) >>= λ rs. returned (nonempty_results rs)) w v contexts h
                  ∙ >>=-run (items contexts (i ∷ is)) (λ rs. returned (nonempty_results rs)) v u xs
                      e)
              ∙ some_results xs all,
          all,
        ),
      )
    where
      some_results :
          (xs : List BulkLookupResult)
          → AreLookedUp find contexts (i ∷ is) xs
          → nonempty_results xs ≡ ok xs
      some_results [] k = absurd k
      some_results (x ∷ xs) k = refl
