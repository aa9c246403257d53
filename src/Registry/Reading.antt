-- ===== src/Registry/Reading.antt =====
-- The contexts of a batch of mentions can always be read while no command fails.
use entity_resolution_servic.Prelude.{
  String, ◌≡◌, refl, ap, ◌∙◌, inl, inr, true, Bool-cases, some, List, [], ◌∷◌, map, contains, arith,
  eq_iff, ◌==◌, string_eq,
}
use entity_resolution_servic.Dict.{Dict, lookup}
use entity_resolution_servic.Domain.{EntityMentionIdentifier}
use entity_resolution_servic.Effects.{ok, ◌>>?◌}
use entity_resolution_servic.Backend.{Backend, IsBackend, IsHealthy, answer}
use entity_resolution_servic.Backend.Documents.{ResolutionRequestRecord}
use entity_resolution_servic.Registry.Contexts.{
  ContextQueries, IsContextQueries, Contexts, contexts_among, put_context, id_to_key, collected,
  find_contexts_by_triads, get_contexts_for_triads,
}

abbrev ids_of : Dict EntityMentionIdentifier → List String
ids_of keys = map (λ (k, j). k) keys

lookup-ids_of :
    (k : String) (keys : Dict EntityMentionIdentifier)
    → contains k (ids_of keys) ≡ true
    → (i : EntityMentionIdentifier) × (lookup k keys ≡ some i)
unfolding lookup
lookup-ids_of k [] h = cc h
lookup-ids_of k ((j, i) ∷ keys) h = elim (Bool-cases (j == k)) [
  | inl same ↦ (i, ground (arith, same))
  | inr other ↦
      let (i', found) = lookup-ids_of k keys (ground (arith, h, other, eq_iff k j, eq_iff j k)) in
      (i', ground (arith, other, found))
]

-- Every document has an id that was asked for.
collected-contexts_among :
    (keys : Dict EntityMentionIdentifier) (requests : Dict ResolutionRequestRecord)
    (result : Contexts)
    → (contexts : Contexts) × (collected keys (contexts_among (ids_of keys) requests) result
        ≡ ok contexts)
collected-contexts_among keys [] result = (result, refl)
collected-contexts_among keys ((k, r) ∷ requests) result =
    elim (Bool-cases (contains k (ids_of keys))) [
      | inl asked ↦
          let (i, found) = lookup-ids_of k keys asked in
          let (contexts, rest) =
            collected-contexts_among keys requests (put_context i r.mention.context result) in
          (contexts, ground (arith, asked, found, rest))
      | inr other ↦
          let (contexts, rest) = collected-contexts_among keys requests result in
          (contexts, ground (arith, other, rest))
    ]

module _ (b : Backend) (laws : IsBackend b) (healthy : IsHealthy b) (q : ContextQueries b)
    (documented : IsContextQueries b q) where
  pub get_contexts_for_triads-run :
      (is : List EntityMentionIdentifier) (w : b.World)
      → (contexts : Contexts) × ((v : b.World) × ((get_contexts_for_triads b q is w
              ≡ (ok contexts, v))
            × (b.state v ≡ b.state w)))
  unfolding get_contexts_for_triads find_contexts_by_triads
  get_contexts_for_triads-run [] w = ([], (w, (refl, refl)))
  get_contexts_for_triads-run (i ∷ is) w =
      let keys = id_to_key (i ∷ is) [] in
      let v = (q.find_contexts (ids_of keys) w).1 in
      let (contexts, all) = collected-contexts_among keys (b.state w).requests [] in
      let answered : (q.find_contexts (ids_of keys) w).0
          ≡ ok (contexts_among (ids_of keys) (b.state w).requests) =
        documented.contexts_reply (ids_of keys) w
        ∙ ap (λ f. answer f (contexts_among (ids_of keys) (b.state w).requests))
            (healthy.no_fault w) in
      (
        contexts,
        (
          v,
          (
            ap (λ r. (r >>? λ found. collected keys found [], v)) answered ∙ ap (λ r. (r, v)) all,
            documented.contexts_state (ids_of keys) w,
          ),
        ),
      )
