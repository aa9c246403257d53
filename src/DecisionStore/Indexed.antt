-- ===== src/DecisionStore/Indexed.antt =====
-- With the cluster size index, `store_decision` keeps each size equal to the number of decisions
-- placed in the cluster.
use entity_resolution_servic.Prelude.{
  ℕ, suc, ◌+◌, ltb, String, ◌≡◌, refl, Bool, none, some, Option, List, take, ap, ◌-◌, ◌∙◌, arith,
  eq_iff, Bool-cases, Option-cases, inl, inr, ◌==◌, string_eq, if◌then◌else◌,
}
use entity_resolution_servic.Prelude.Int.{ℤ, pos, ◌+ℤ◌, pos_part, neg_part, int_laws}
use entity_resolution_servic.Dict.{lookup, put, count, count-put, weight, weight-le-count}
use entity_resolution_servic.Domain.{EntityMentionIdentifier, ClusterReference, Decision}
use entity_resolution_servic.Effects.{Action}
use entity_resolution_servic.Backend.{Backend, IsBackend, IsHealthy}
use entity_resolution_servic.Backend.Documents.{State, DecisionDocument}
use entity_resolution_servic.DecisionStore.Outcome.{
  is_same_outcome, derive_provisional_cluster_id, from_document,
}
use entity_resolution_servic.DecisionStore.ClusterSizes.{mongo_cluster_size_index}
use entity_resolution_servic.DecisionStore.Repository.{upsert_decision}
use entity_resolution_servic.DecisionStore.Service.{store_decision}
use entity_resolution_servic.DecisionStore.Spec.{
  Contents, boundary, upserted, stored, moved_document, first_document,
}
use entity_resolution_servic.DecisionStore.Upsert.{
  find_healthy, upsert_decision-upserted, upsert_hinted,
}
use entity_resolution_servic.DecisionStore.Sizes.{Sizes, size_in}
use entity_resolution_servic.DecisionStore.Shift.{
  shifted, size-shifted, shift-shifted, Counts, unit_at, unit_from,
}

-- The placement is in the cluster `c`.
abbrev pub placed_in : String → DecisionDocument → Bool
placed_in c d = d.current_placement.cluster_id == c

-- Every cluster's size is the number of decisions placed in it.
abbrev pub IsSized : State → Type 0
IsSized s = (c : String) → size_in s.cluster_sizes c ≡ pos (count (placed_in c) s.decisions)

module _ (current : ClusterReference) (candidates : List ClusterReference) (t : ℕ)
    (id : String) where
  abbrev resized_from : Option DecisionDocument → ℕ → Sizes → Sizes
  resized_from none now sizes = shifted none current.cluster_id now sizes
  resized_from (some d) now sizes =
      if is_same_outcome (from_document id d) current candidates
      then sizes
      else if ltb (boundary d) t
      then shifted (some d.current_placement.cluster_id) current.cluster_id now sizes
      else sizes

  -- Which shift follows a write.
  sizes_after : Contents → ℕ → Sizes → Sizes
  sizes_after docs now sizes = resized_from (lookup id docs) now sizes

moved_size :
    (z z' : ℤ) (n n' x y : ℕ) → z ≡ pos n → z' +ℤ pos x ≡ z +ℤ pos y → n' + x ≡ n + y → z' ≡ pos n'
moved_size z z' n n' x y e f g =
    omega (int_laws, ap pos_part e, ap neg_part e, ap pos_part f, ap neg_part f)

module _ (id : String) (identifier : EntityMentionIdentifier) (current : ClusterReference)
    (candidates : List ClusterReference) (t now : ℕ) (s : State) (sized : IsSized s) where
  abbrev placed : String
  placed = current.cluster_id

  abbrev after : State
  after = record s {
    decisions = (stored id identifier current candidates t s.decisions).1;
    cluster_sizes = sizes_after current candidates t id s.decisions now s.cluster_sizes;
  }

  -- A write of a decision placed by `current`, with the shift that follows it.
  write-IsSized :
      (from : Option String) (d : DecisionDocument)
      → d.current_placement ≡ current
      → ((c : String) → weight (placed_in c) (lookup id s.decisions) ≡ unit_from from c)
      → Counts from s.cluster_sizes
      → IsSized (record s {
        decisions = put id d s.decisions;
        cluster_sizes = shifted from placed now s.cluster_sizes;
      })
  write-IsSized from d e w counts c =
      moved_size (size_in s.cluster_sizes c) _ _ _ (unit_from from c) (unit_at placed c) (sized c)
        (size-shifted from placed now s.cluster_sizes c counts)
        (omega (arith, count-put (placed_in c) id d s.decisions, w c, same_unit c))
    where
      same_unit : (x : String) → weight (placed_in x) (some d) ≡ unit_at placed x
      same_unit x = rw e

  absent-IsSized : lookup id s.decisions ≡ none → IsSized after
  unfolding stored sizes_after
  absent-IsSized h =
      rw h (write-IsSized none (first_document identifier current candidates t) refl (λ c. rw h) tt)

  counted :
      (d : DecisionDocument)
      → lookup id s.decisions ≡ some d
      → Counts (some d.current_placement.cluster_id) s.cluster_sizes
  counted d h =
      let k : String = d.current_placement.cluster_id in
      let n : ℕ = count (placed_in k) s.decisions in
      let e : n ≡ suc (n - 1) =
        ground (arith, h, eq_iff k k, weight-le-count (placed_in k) id s.decisions) in
      (n - 1, sized k ∙ ap pos e)

  present-IsSized : (d : DecisionDocument) → lookup id s.decisions ≡ some d → IsSized after
  unfolding stored sizes_after
  present-IsSized d h =
      rw h (elim (Bool-cases (is_same_outcome (from_document id d) current candidates)) [
        | inl same ↦ rw same sized
        | inr differs ↦ rw differs (elim (Bool-cases (ltb (boundary d) t)) [
          | inl newer ↦ rw newer (
              write-IsSized (some d.current_placement.cluster_id)
                (moved_document d identifier current candidates t) refl (λ c. rw h) (counted d h))
          | inr stale ↦ rw stale sized
        ])
      ])

  after-IsSized : IsSized after
  after-IsSized = elim (Option-cases (lookup id s.decisions)) [
    | inl absent ↦ absent-IsSized absent
    | inr (d, present) ↦ present-IsSized d present
  ]

-- The service as the application wires it, with its index.
abbrev pub store_indexed :
    (b : Backend) (max_candidates : ℕ)
    → EntityMentionIdentifier
    → ClusterReference
    → List ClusterReference
    → ℕ
    → Action b.World Decision
store_indexed b = store_decision b (some (mongo_cluster_size_index b))

module _ (b : Backend) (laws : IsBackend b) (healthy : IsHealthy b) (max_candidates : ℕ) where
  open b use {World, state}

  module _ (identifier : EntityMentionIdentifier) (current : ClusterReference)
      (candidates : List ClusterReference) (t : ℕ) (w : World) where
    abbrev key : String
    key = derive_provisional_cluster_id b identifier

    abbrev kept : List ClusterReference
    kept = take max_candidates candidates

    abbrev read : World
    read = (b.find_decision key w).1

    -- The run answers as the specification of the store says, and leaves its decisions and the
    -- sizes after the shift.
    abbrev Runs : Type 0
    Runs =
        let (r, v) = store_indexed b max_candidates identifier current candidates t w in
        (now : ℕ) × (r ≡ (stored key identifier current kept t (state w).decisions).0)
        × (state v ≡ record (state w) {
          decisions = (stored key identifier current kept t (state w).decisions).1;
          cluster_sizes =
              sizes_after current kept t key (state w).decisions now (state w).cluster_sizes;
        })

    runs_absent : lookup key (state w).decisions ≡ none → Runs
    unfolding store_decision stored upserted sizes_after
    runs_absent h =
        let v = (upsert_decision b identifier current kept t none read).1 in
        let f1 = find_healthy b laws healthy key w in
        let f2 = laws.find_state key w in
        let f3 = upsert_decision-upserted b laws healthy identifier current kept t read in
        let f4 = shift-shifted b laws healthy none current.cluster_id v in
        ((b.now v).0, ground (arith, f1, f2, f3, f4), ground (arith, f1, f2, f3, f4))

    runs_present : (d : DecisionDocument) → lookup key (state w).decisions ≡ some d → Runs
    unfolding store_decision stored upserted sizes_after
    runs_present d h =
        let e = from_document key d in
        let v = (upsert_decision b identifier current kept t (some e) read).1 in
        let f1 = find_healthy b laws healthy key w in
        let f2 = laws.find_state key w in
        let f3 = upsert_hinted b laws healthy identifier current kept t read {d = d} e (rw f2 h) in
        let f4 =
          shift-shifted b laws healthy (some d.current_placement.cluster_id) current.cluster_id v in
        ((b.now v).0, ground (arith, f1, f2, f3, f4), ground (arith, f1, f2, f3, f4))

    runs : Runs
    runs = elim (Option-cases (lookup key (state w).decisions)) [
      | inl absent ↦ runs_absent absent
      | inr (d, present) ↦ runs_present d present
    ]

    -- With the index, storing a decision answers and writes as the specification of the store
    -- says, on every branch.
    pub store_indexed-stored :
        let (r, v) = store_indexed b max_candidates identifier current candidates t w in
        (r ≡ (stored key identifier current kept t (state w).decisions).0)
        × ((state v).decisions ≡ (stored key identifier current kept t (state w).decisions).1)
    store_indexed-stored =
        let (now, answered, left) = runs in (answered, ap (λ s. s.decisions) left)

    -- While no command on MongoDB fails, storing a decision keeps the size of every cluster equal
    -- to the number of decisions placed in it, whether it inserts, moves, skips or refuses.
    pub store_decision-IsSized :
        IsSized (state w)
        → IsSized (state (store_indexed b max_candidates identifier current candidates t w).1)
    store_decision-IsSized sized =
        let (now, answered, left) = runs in
        rw left (after-IsSized key identifier current kept t now (state w) sized)
