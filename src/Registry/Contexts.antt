-- ===== src/Registry/Contexts.antt =====
-- `find_contexts_by_triads` of ers/request_registry/adapters/records_repository.py.
use entity_resolution_servic.Prelude.{
  String, ◌≡◌, Bool, ◌&&◌, Option, none, some, List, [], ◌∷◌, map, contains, ◌==◌, string_eq,
  if◌then◌else◌,
}
use entity_resolution_servic.Dict.{Dict, lookup, put}
use entity_resolution_servic.Domain.{EntityMentionIdentifier}
use entity_resolution_servic.Effects.{Action, Result, ok, err, other_error, ◌>>?◌}
use entity_resolution_servic.Backend.{Backend, answer}
use entity_resolution_servic.Backend.Documents.{ResolutionRequestRecord}
use entity_resolution_servic.Registry.{triad_id}

-- The contexts of the records with these ids.
abbrev pub contexts_among : List String → Dict ResolutionRequestRecord → Dict (Option String)
contexts_among ids [] = []
contexts_among ids ((k, r) ∷ rest) =
    let others = contexts_among ids rest in
    if contains k ids then (k, r.mention.context) ∷ others else others

module _ (b : Backend) where
  -- `find({"_id": {"$in": …}}, {"_id": 1, "context": 1})` on the requests.
  pub record ContextQueries : Type 0 where
    pub find_contexts : List String → Action b.World (Dict (Option String))

  pub record IsContextQueries (q : ContextQueries) : Type 0 where
    pub contexts_reply :
        (ids : List String) (w : b.World)
        → (q.find_contexts ids w).0 ≡ answer (b.fault w) (contexts_among ids (b.state w).requests)
    pub contexts_state :
        (ids : List String) (w : b.World) → b.state (q.find_contexts ids w).1 ≡ b.state w

-- `TriadKey.__eq__`
abbrev pub same_triad : EntityMentionIdentifier → EntityMentionIdentifier → Bool
same_triad i j =
    i.source_id == j.source_id && (i.request_id == j.request_id && i.entity_type == j.entity_type)

-- A dict by triad.
abbrev pub Contexts : Type 0
Contexts = List (EntityMentionIdentifier × Option String)

abbrev pub put_context : EntityMentionIdentifier → Option String → Contexts → Contexts
put_context i c [] = (i, c) ∷ []
put_context i c ((j, old) ∷ rest) =
    let others = put_context i c rest in if same_triad j i then (i, c) ∷ rest else (j, old) ∷ others

-- `contexts.get(key)`
unfoldable pub context_for : EntityMentionIdentifier → Contexts → Option String
context_for i [] = none
context_for i ((j, c) ∷ rest) =
    let others = context_for i rest in if same_triad j i then c else others

abbrev pub id_to_key :
    List EntityMentionIdentifier → Dict EntityMentionIdentifier → Dict EntityMentionIdentifier
id_to_key [] keys = keys
id_to_key (i ∷ is) keys = id_to_key is (put (triad_id i) i keys)

-- The loop over the documents, with `id_to_key[doc["_id"]]`, which raises KeyError on another id.
abbrev pub collected :
    Dict EntityMentionIdentifier → Dict (Option String) → Contexts → Result Contexts
collected keys [] result = ok result
collected keys ((k, c) ∷ docs) result = elim (lookup k keys) [
  | none ↦ err other_error
  | some i ↦ collected keys docs (put_context i c result)
]

module _ (b : Backend) (q : ContextQueries b) where
  unfoldable pub find_contexts_by_triads : List EntityMentionIdentifier → Action b.World Contexts
  unfolding triad_id
  find_contexts_by_triads [] w = (ok [], w)
  find_contexts_by_triads (i ∷ is) w =
      let keys = id_to_key (i ∷ is) [] in
      let (docs, w') = q.find_contexts (map (λ (k, j). k) keys) w in
      (docs >>? λ found. collected keys found [], w')

  unfoldable pub get_contexts_for_triads : List EntityMentionIdentifier → Action b.World Contexts
  unfolding find_contexts_by_triads
  get_contexts_for_triads identifiers = find_contexts_by_triads identifiers
