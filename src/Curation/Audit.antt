-- ===== src/Curation/Audit.antt =====
-- The audit trail and the review counters of the decisions agree.
use entity_resolution_servic.Prelude.{
  ℕ, suc, String, ltb, ◌≡◌, sym, subst, Bool, true, false, ◌&&◌, none, some, arith, Option-cases,
  Bool-cases, inl, inr, eq_iff, ◌↔◌, ◌==◌, string_eq, if◌then◌else◌, ap, ◌∙◌,
}
use entity_resolution_servic.Dict.{Dict, lookup, put, lookup-put, count, count-put}
use entity_resolution_servic.Domain.{EntityMentionIdentifier, UserAction}
use entity_resolution_servic.Backend.{Backend}
use entity_resolution_servic.Backend.Documents.{State, DecisionDocument}
use entity_resolution_servic.DecisionStore.Outcome.{derive_provisional_cluster_id}
use entity_resolution_servic.DecisionStore.Spec.{boundary}
use entity_resolution_servic.DecisionStore.Review.{reviewed, review_count, claimed, counted}
use entity_resolution_servic.Curation.Recording.{recorded}

abbrev pub same_mention : EntityMentionIdentifier → EntityMentionIdentifier → Bool
same_mention i j =
    i.source_id == j.source_id && (i.request_id == j.request_id && i.entity_type == j.entity_type)

same_mention_iff : (i j : EntityMentionIdentifier) → (same_mention i j ≡ true) ↔ (i ≡ j)
same_mention_iff i j = ground (
  arith,
  eq_iff i.source_id j.source_id,
  eq_iff i.request_id j.request_id,
  eq_iff i.entity_type j.entity_type,
)

abbrev pub is_about : EntityMentionIdentifier → UserAction → Bool
is_about i a = same_mention i a.about_entity_mention

-- Each decision stands under the id of its mention and has been reviewed as often as the trail has
-- actions on the mention.
abbrev pub IsAudited : Backend → State → Type 0
IsAudited b s =
    (k : String) (d : DecisionDocument)
    → lookup k s.decisions ≡ some d
    → (k ≡ derive_provisional_cluster_id b d.about_entity_mention)
      × (count (is_about d.about_entity_mention) s.user_actions ≡ review_count d)

-- What a counted review leaves of a document.
Counts : DecisionDocument → DecisionDocument → Type 0
Counts d d' =
    (d'.about_entity_mention ≡ d.about_entity_mention) × (review_count d' ≡ suc (review_count d))

reviewed_counts :
    (id : String) (at : ℕ) (docs : Dict DecisionDocument)
    → (reviewed id at docs).0 ≡ true
    → (d d' : DecisionDocument) × (lookup id docs ≡ some d)
      × ((reviewed id at docs).1 ≡ put id d' docs)
      × Counts d d'
unfolding reviewed Counts
reviewed_counts id at docs h = elim (Option-cases (lookup id docs)) [
  | inl absent ↦ ground (arith, absent, h)
  | inr (d, present) ↦ (
    d,
    if ltb (boundary d) at then claimed d else counted d,
    present,
    ground (arith, present, h),
    (ground arith, ground arith),
  )
]

module _ (b : Backend) (a : UserAction) (id : String) (s : State) (audited : IsAudited b s)
    (fresh : lookup a.id s.user_actions ≡ none) where
  -- One more action, and how many of the actions on a mention there are then.
  count_saved :
      (i : EntityMentionIdentifier)
      → count (is_about i) (put a.id a s.user_actions) ≡ (
          if same_mention i a.about_entity_mention
          then suc (count (is_about i) s.user_actions)
          else count (is_about i) s.user_actions)
  count_saved i = ground (arith, count-put (is_about i) a.id a s.user_actions, fresh)

  module _ (d d' : DecisionDocument) (present : lookup id s.decisions ≡ some d)
      (counts : Counts d d') (about : a.about_entity_mention ≡ d.about_entity_mention) where
    abbrev after : State
    after = record s { decisions = put id d' s.decisions; user_actions = put a.id a s.user_actions }

    abbrev AuditedAt : String → DecisionDocument → Type 0
    AuditedAt k e =
        (k ≡ derive_provisional_cluster_id b e.about_entity_mention)
        × (count (is_about e.about_entity_mention) after.user_actions ≡ review_count e)

    reviewed-AuditedAt : AuditedAt id d'
    unfolding Counts
    reviewed-AuditedAt =
        let (placed, trail) = audited id d present in
        (
          placed ∙ ap (derive_provisional_cluster_id b) (sym counts.0),
          rw counts.0 (
              count_saved d.about_entity_mention
              ∙ rw ((same_mention_iff d.about_entity_mention a.about_entity_mention).1 (sym about))
                  (ap suc trail ∙ sym counts.1)),
        )

    other-AuditedAt :
        (k : String) (e : DecisionDocument)
        → (id == k) ≡ false
        → lookup k s.decisions ≡ some e
        → AuditedAt k e
    other-AuditedAt k e other h =
        let (placed, trail) = audited k e h in
        (
          placed,
          elim (Bool-cases (same_mention e.about_entity_mention a.about_entity_mention)) [
            | inr differs ↦ count_saved e.about_entity_mention ∙ rw differs trail
            | inl same ↦
                let mention : e.about_entity_mention ≡ d.about_entity_mention =
                  (same_mention_iff e.about_entity_mention a.about_entity_mention).0 same ∙ about in
                let key : id ≡ k =
                  (audited id d present).0
                  ∙ ap (derive_provisional_cluster_id b) (sym mention)
                  ∙ sym placed in
                cc ((eq_iff id k).1 key, other)
          ],
        )

    saved-IsAudited : IsAudited b after
    saved-IsAudited k e h = elim (Bool-cases (id == k)) [
      | inl same ↦
          let key : id ≡ k = (eq_iff id k).0 same in
          let doc : d' ≡ e = ground (arith, same, h, lookup-put id k d' s.decisions) in
          subst (AuditedAt k) doc (subst (λ x. AuditedAt x d') key reviewed-AuditedAt)
      | inr other ↦
          other-AuditedAt k e other (ground (arith, other, h, lookup-put id k d' s.decisions))
    ]

  pub recorded-IsAudited :
      ((d : DecisionDocument)
        → lookup id s.decisions ≡ some d
        → a.about_entity_mention ≡ d.about_entity_mention)
      → IsAudited b (recorded a id s).1
  unfolding recorded
  recorded-IsAudited about = elim (Bool-cases (reviewed id a.created_at s.decisions).0) [
    | inr refused ↦ rw refused audited
    | inl accepted ↦
        let (d, d', present, left, counts) = reviewed_counts id a.created_at s.decisions accepted in
        rw (accepted, left) (saved-IsAudited d d' present counts (about d present))
  ]
