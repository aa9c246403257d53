-- ===== src/DecisionStore/Review.antt =====
-- `record_review` claims the review slot of a placement at most once.
use entity_resolution_servic.Prelude.{
  ℕ, suc, ltb, String, ◌≡◌, Bool, true, false, Option, none, some, arith, Option-cases, inl, inr,
  if◌then◌else◌, [], ◌∷◌,
}
use entity_resolution_servic.Dict.{lookup, put}
use entity_resolution_servic.Effects.{ok}
use entity_resolution_servic.Backend.{Backend, IsBackend, IsHealthy}
use entity_resolution_servic.Backend.Documents.{
  DecisionDocument, Filter, Update, Assignment, both, not_reviewed, inc_reviews,
}
use entity_resolution_servic.Backend.Documented.{updated, modified_count}
use entity_resolution_servic.DecisionStore.Repository.{record_review, boundary_before}
use entity_resolution_servic.DecisionStore.Spec.{Contents, boundary}
use entity_resolution_servic.DecisionStore.Upsert.{Leaves}

abbrev pub review_count : DecisionDocument → ℕ
review_count d = elim d.previous_review_count [ none ↦ 0 | some n ↦ n ]

abbrev pub is_reviewed : DecisionDocument → Bool
is_reviewed d = elim d.reviewed_since_placement [ none ↦ false | some r ↦ r ]

abbrev pub counted : DecisionDocument → DecisionDocument
counted d = record d { previous_review_count = some (suc (review_count d)) }

abbrev pub claimed : DecisionDocument → DecisionDocument
claimed d = record (counted d) { reviewed_since_placement = some true }

-- A fresh action claims the slot, a late one is only counted, and a taken slot refuses both.
abbrev reviewed_from : String → ℕ → Option DecisionDocument → Contents → Bool × Contents
reviewed_from id at none docs = (false, docs)
reviewed_from id at (some d) docs =
    if is_reviewed d
    then (false, docs)
    else (true, put id (if ltb (boundary d) at then claimed d else counted d) docs)

unfoldable pub reviewed : String → ℕ → Contents → Bool × Contents
reviewed id at docs = reviewed_from id at (lookup id docs) docs

module _ (b : Backend) (laws : IsBackend b) (healthy : IsHealthy b) where
  open b use {World, state}

  pub update_one_healthy :
      (id : String) (f : Filter) (u : Update) (w : World)
      → Leaves b (b.update_one id f u w) w (
        ok (modified_count (updated id f u false (state w).decisions).0),
        (updated id f u false (state w).decisions).1,
      )
  update_one_healthy id f u w = (
    ground (arith, laws.update_one_reply id f u w, healthy.no_fault w),
    laws.update_one_state id f u w (healthy.no_fault w),
  )

  module _ (id : String) (at : ℕ) (w : World) where
    abbrev fresh_filter : Filter
    fresh_filter = both not_reviewed (boundary_before at)

    abbrev fresh_update : Update
    fresh_update = inc_reviews (Assignment.reviewed_since_placement true ∷ [])

    abbrev next : World
    next = (b.update_one id fresh_filter fresh_update w).1

    review_absent :
        lookup id (state w).decisions ≡ none
        → Leaves b
            (record_review b id at w)
            w
            (ok (reviewed id at (state w).decisions).0, (reviewed id at (state w).decisions).1)
    unfolding record_review reviewed updated
    review_absent h = ground (
      arith,
      update_one_healthy id fresh_filter fresh_update w,
      update_one_healthy id not_reviewed (inc_reviews []) next,
    )

    review_present :
        (d : DecisionDocument)
        → lookup id (state w).decisions ≡ some d
        → Leaves b
            (record_review b id at w)
            w
            (ok (reviewed id at (state w).decisions).0, (reviewed id at (state w).decisions).1)
    unfolding record_review reviewed updated
    review_present d h = ground (
      arith,
      update_one_healthy id fresh_filter fresh_update w,
      update_one_healthy id not_reviewed (inc_reviews []) next,
    )

    -- While no command fails, the review counter grows by one and the slot of the placement is
    -- taken, if the slot is free and the action is later than the placement; a free slot stays free
    -- and only counts for an older action; a taken slot and a missing decision are left alone.
    pub record_review-reviewed :
        Leaves b
          (record_review b id at w)
          w
          (ok (reviewed id at (state w).decisions).0, (reviewed id at (state w).decisions).1)
    record_review-reviewed = elim (Option-cases (lookup id (state w).decisions)) [
      | inl absent ↦ review_absent absent
      | inr (d, present) ↦ review_present d present
    ]
