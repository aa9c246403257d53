-- ===== src/DecisionStore/History.antt =====
-- How a sequence of outcomes changes the stored decision of a mention.
use entity_resolution_servic.Prelude.{
  ℕ, ltb, ◌≤◌, ◌<◌, String, ◌≡◌, Option, none, some, List, take, arith, eq_iff, ◌==◌, string_eq, ap,
  ◌∙◌, ◌⊎◌, Option-cases, inl, inr, Bool-cases, if◌then◌else◌,
}
use entity_resolution_servic.Dict.{lookup, lookup-put}
use entity_resolution_servic.Domain.{EntityMentionIdentifier, ClusterReference}
use entity_resolution_servic.Backend.{Backend, IsBackend, IsHealthy}
use entity_resolution_servic.Backend.Documents.{DecisionDocument}
use entity_resolution_servic.DecisionStore.Outcome.{
  is_same_outcome, derive_provisional_cluster_id, from_document,
}
use entity_resolution_servic.DecisionStore.Spec.{
  Contents, boundary, stored, first_document, moved_document,
}
use entity_resolution_servic.DecisionStore.Indexed.{store_indexed, store_indexed-stored}
use entity_resolution_servic.DecisionStore.Review.{review_count}

module _ (id : String) (identifier : EntityMentionIdentifier) (current : ClusterReference)
    (candidates : List ClusterReference) (t : ℕ) where
  -- The document of the mention after an outcome.
  abbrev pub next_document : Option DecisionDocument → DecisionDocument
  next_document none = first_document identifier current candidates t
  next_document (some d) =
      if is_same_outcome (from_document id d) current candidates
      then d
      else if ltb (boundary d) t
      then moved_document d identifier current candidates t
      else d

  pub lookup-stored :
      (docs : Contents) (j : String)
      → lookup j (stored id identifier current candidates t docs).1
        ≡ (if id == j then some (next_document (lookup id docs)) else lookup j docs)
  unfolding stored
  lookup-stored docs j = elim (Option-cases (lookup id docs)) [
    | inl absent ↦
        ground (
          arith,
          eq_iff id j,
          lookup-put id j (first_document identifier current candidates t) docs,
        )
    | inr (d, present) ↦ ground (
      arith,
      eq_iff id j,
      lookup-put id j (moved_document d identifier current candidates t) docs,
    )
  ]

-- What a later version of a document keeps.
abbrev pub Follows : DecisionDocument → DecisionDocument → Type 0
Follows d d' =
    (d'.created_at ≡ d.created_at)
    × (review_count d' ≡ review_count d)
    × (boundary d ≤ boundary d')
    × ((d' ≡ d) ⊎ (boundary d < boundary d'))

next_document-Follows :
    (id : String) (identifier : EntityMentionIdentifier) (current : ClusterReference)
    (candidates : List ClusterReference) (t : ℕ) (d : DecisionDocument)
    → Follows d (next_document id identifier current candidates t (some d))
next_document-Follows id identifier current candidates t d = ground arith

Follows-refl : (d : DecisionDocument) → Follows d d
Follows-refl d = ground arith

-- The world after a run of the service.
abbrev pub after_store :
    (b : Backend) (max_candidates : ℕ)
    → EntityMentionIdentifier
    → ClusterReference
    → List ClusterReference
    → ℕ
    → b.World
    → b.World
after_store b max_candidates i c k t w = (store_indexed b max_candidates i c k t w).1

module _ (b : Backend) (laws : IsBackend b) (healthy : IsHealthy b) (max_candidates : ℕ)
    (identifier : EntityMentionIdentifier) (current : ClusterReference)
    (candidates : List ClusterReference) (t : ℕ) (w : b.World) where
  open b use {World, state}

  abbrev key : String
  key = derive_provisional_cluster_id b identifier

  abbrev after : World
  after = after_store b max_candidates identifier current candidates t w

  abbrev next : Option DecisionDocument → DecisionDocument
  next = next_document key identifier current (take max_candidates candidates) t

  -- The collection after a run, document by document.
  lookup-after_store :
      (j : String)
      → lookup j (state after).decisions ≡ (
          if key == j
          then some (next (lookup key (state w).decisions))
          else lookup j (state w).decisions)
  lookup-after_store j =
      ap (lookup j)
        (store_indexed-stored b laws healthy max_candidates identifier current candidates t w).1
      ∙ lookup-stored key identifier current (take max_candidates candidates) t (state w).decisions
          j

  pub lookup-after_store_self :
      lookup key (state after).decisions ≡ some (next (lookup key (state w).decisions))
  lookup-after_store_self = ground (arith, lookup-after_store key, eq_iff key key)

  -- While no command fails, no decision is lost when an outcome is stored: every document keeps
  -- its creation time and its review count, its placement time never falls, and it grows strictly
  -- whenever anything in the document changes.
  pub store_decision-Follows :
      (j : String) (d : DecisionDocument)
      → lookup j (state w).decisions ≡ some d
      → (d' : DecisionDocument) × (lookup j (state after).decisions ≡ some d') × Follows d d'
  store_decision-Follows j d h = elim (Bool-cases (key == j)) [
    | inl same ↦ (
      next (some d),
      lookup-after_store j ∙ rw same (rw ((eq_iff key j).0 same) (rw h)),
      next_document-Follows key identifier current (take max_candidates candidates) t d,
    )
    | inr other ↦ (d, lookup-after_store j ∙ rw other h, Follows-refl d)
  ]
