-- ===== src/Maintenance/Backfill.antt =====
-- After the backfill the sizes count the decisions again.
use entity_resolution_servic.Prelude.{
  arith, ℕ, zero, suc, ◌≤◌, ◌<◌, String, ◌≡◌, refl, sym, ap, ◌∙◌, subst, inl, inr, Bool-cases, true,
  false, List, [], ◌∷◌, take, drop, length, contains, eq_iff, ◌==◌, string_eq, if◌then◌else◌, All,
}
use entity_resolution_servic.Prelude.Int.{pos}
use entity_resolution_servic.Dict.{Dict}
use entity_resolution_servic.Effects.{ok, pure, ◌>>◌, >>=-run}
use entity_resolution_servic.Backend.{Backend, IsBackend, IsHealthy, answer}
use entity_resolution_servic.Backend.Documents.{State, DecisionDocument}
use entity_resolution_servic.DecisionStore.Sizes.{Sizes, size_in}
use entity_resolution_servic.DecisionStore.Indexed.{IsSized}
use entity_resolution_servic.Maintenance.{
  keys, SizeSet, overwritten_all, without_stale, stale, placed, IsGrouping, Scripts, IsScripts,
  add_counts, build_upsert_ops, aggregate_cluster_counts, delete_stale_entries, write_batches,
  write_all, run_counted, run_backfill,
}
use entity_resolution_servic.Maintenance.Overwriting.{
  targets, size-overwritten_all, size-without_stale, contains-add_counts, contains-add_counts_empty,
  All-add_counts, overwritten_all_split, length-drop,
}

-- The counts of a grouping: the number of decisions of each cluster that has some and an id.
pub record AreCounts (decisions : Dict DecisionDocument) (counts : Dict ℕ) : Type 0 where
  pub right : All (λ (c, n). n ≡ placed decisions c) counts
  pub complete :
      (c : String) → (c == "") ≡ false → 0 < placed decisions c → contains c (keys counts) ≡ true
  pub named : contains "" (keys counts) ≡ false

pub add_counts-AreCounts :
    (decisions : Dict DecisionDocument) (rows : Dict ℕ)
    → IsGrouping decisions rows
    → AreCounts decisions (add_counts rows [])
add_counts-AreCounts decisions rows g = record {
  right = All-add_counts (λ (c, n). n ≡ placed decisions c) rows [] g.counts tt;
  complete = λ c h k. ground (arith, contains-add_counts c rows [] h, g.occurring c k);
  named = contains-add_counts_empty rows [];
}

targets-build_upsert_ops :
    (now : ℕ) (counts : Dict ℕ) → targets (build_upsert_ops now counts) ≡ keys counts
targets-build_upsert_ops now [] = refl
targets-build_upsert_ops now ((c, n) ∷ counts) =
    ap (λ cs. c ∷ cs) (targets-build_upsert_ops now counts)

All-build_upsert_ops :
    (now : ℕ) (number : String → ℕ) (counts : Dict ℕ)
    → All (λ (c, n). n ≡ number c) counts
    → All (λ o. o.size ≡ number o.target) (build_upsert_ops now counts)
All-build_upsert_ops now number [] h = tt
All-build_upsert_ops now number ((c, n) ∷ counts) (h, hs) =
    (h, All-build_upsert_ops now number counts hs)

-- What the writes of the backfill leave of the sizes.
abbrev backfilled : ℕ → Dict ℕ → Sizes → Sizes
backfilled now counts sizes =
    without_stale (keys counts) (overwritten_all (build_upsert_ops now counts) sizes)

size-backfilled :
    (decisions : Dict DecisionDocument) (now : ℕ) (counts : Dict ℕ) (sizes : Sizes)
    → AreCounts decisions counts
    → placed decisions "" ≡ 0
    → (c : String) → size_in (backfilled now counts sizes) c ≡ pos (placed decisions c)
size-backfilled decisions now counts sizes right unnamed c =
    let live = keys counts in
    let ops = build_upsert_ops now counts in
    let kept = size-without_stale live (overwritten_all ops sizes) c in
    let written =
      size-overwritten_all (placed decisions) ops sizes c
        (All-build_upsert_ops now (placed decisions) counts right.right) in
    let same = ap (contains c) (targets-build_upsert_ops now counts) in
    elim (Bool-cases (contains c live)) [
      | inl present ↦
          kept
          ∙ ap (λ x. if x then size_in (overwritten_all ops sizes) c else pos 0) present
          ∙ written
          ∙ ap (λ x. if x then pos (placed decisions c) else size_in sizes c) (same ∙ present)
      | inr absent ↦
          kept
          ∙ ap (λ x. if x then size_in (overwritten_all ops sizes) c else pos 0) absent
          ∙ ap pos (sym (none_placed absent))
    ]
  where
    none_placed : contains c (keys counts) ≡ false → placed decisions c ≡ 0
    none_placed absent = elim (Bool-cases (c == "")) [
      | inl empty ↦ subst (λ x. placed decisions x ≡ 0) (sym ((eq_iff c "").0 empty)) unnamed
      | inr named ↦ ground (arith, right.complete c named, absent)
    ]

module _ (b : Backend) (laws : IsBackend b) (healthy : IsHealthy b) (q : Scripts b)
    (documented : IsScripts b q) where
  open b use {World, state}

  abbrev with_sizes : State → Sizes → State
  with_sizes s sizes = record s { cluster_sizes = sizes }

  write_batches-overwritten_all :
      (fuel n : ℕ) (ops : List SizeSet) (w : World)
      → length ops ≤ fuel
      → (v : World) × ((write_batches b q fuel (suc n) ops w ≡ (ok tt, v))
          × (state v ≡ with_sizes (state w) (overwritten_all ops (state w).cluster_sizes)))
  unfolding write_batches
  write_batches-overwritten_all zero n [] w h = (w, (refl, refl))
  write_batches-overwritten_all zero n (o ∷ ops) w h = absurd (omega (arith, h))
  write_batches-overwritten_all (suc fuel) n [] w h = (w, (refl, refl))
  write_batches-overwritten_all (suc fuel) n (o ∷ ops) w h =
      let batch = take (suc n) (o ∷ ops) in
      let w' = (q.bulk_write batch w).1 in
      let (v, (e, s)) =
        write_batches-overwritten_all fuel n (drop n ops) w'
          (omega (arith, h, length-drop n ops)) in
      (
        v,
        (
          >>=-run (q.bulk_write batch) (λ _. write_batches b q fuel (suc n) (drop n ops)) w w' tt
                (ap (λ r. (r, w'))
                  (documented.bulk_reply batch w ∙ ap (λ f. answer f tt) (healthy.no_fault w)))
              ∙ e,
          s
              ∙ ap (λ x. with_sizes x (overwritten_all (drop n ops) x.cluster_sizes))
                  (documented.bulk_state batch w (healthy.no_fault w))
              ∙ ap (with_sizes (state w)) (overwritten_all_split (suc n) (o ∷ ops) _),
        ),
      )

  -- The counts that the backfill works on.
  pub aggregate_cluster_counts-AreCounts :
      (w : World)
      → (counts : Dict ℕ) × ((v : World) × ((aggregate_cluster_counts b q w ≡ (ok counts, v))
            × ((state v ≡ state w) × AreCounts (state w).decisions counts)))
  unfolding aggregate_cluster_counts
  aggregate_cluster_counts-AreCounts w =
      let (rows, (e, g)) = documented.group_reply w (healthy.no_fault w) in
      let v = (q.group_decisions w).1 in
      (
        add_counts rows [],
        (
          v,
          (
            >>=-run q.group_decisions (λ r. pure (add_counts r [])) w v rows (ap (λ r. (r, v)) e),
            (documented.group_state w, add_counts-AreCounts (state w).decisions rows g),
          ),
        ),
      )

  run_counted-backfilled :
      (n : ℕ) (r : String × ℕ) (rest : Dict ℕ) (w : World)
      → (now : ℕ) × ((v : World) × ((run_counted b q false (suc n) (r ∷ rest) w ≡ (ok tt, v))
            × (state v ≡ with_sizes (state w) (backfilled now (r ∷ rest) (state w).cluster_sizes))))
  unfolding run_counted write_all delete_stale_entries
  run_counted-backfilled n r rest w =
      let (now, w') = b.now w in
      let ops = build_upsert_ops now (r ∷ rest) in
      let live = keys (r ∷ rest) in
      let (u, (e, s)) = write_batches-overwritten_all (length ops) n ops w' (omega arith) in
      let v = (q.delete_stale live u).1 in
      let deleted = length (stale live (state u).cluster_sizes) in
      (
        now,
        (
          v,
          (
            >>=-run (write_batches b q (length ops) (suc n) ops)
                  (λ _. q.delete_stale live >> pure tt) w' u tt e
                ∙ >>=-run (q.delete_stale live) (λ _. pure tt) u v deleted
                    (ap (λ x. (x, v))
                      (documented.delete_reply live u
                        ∙ ap (λ f. answer f deleted) (healthy.no_fault u))),
            documented.delete_state live u (healthy.no_fault u)
                ∙ ap (λ x. with_sizes x (without_stale live x.cluster_sizes))
                    (s
                      ∙ ap (λ x. with_sizes x (overwritten_all ops x.cluster_sizes))
                          (laws.now_state w)),
          ),
        ),
      )

  -- While no command on MongoDB fails, and if some decision is placed in a cluster and none in the
  -- cluster with the empty id, a backfill in batches of at least one operation ends, keeps the decisions,
  -- and leaves sizes that count the decisions of every cluster, whatever they were.
  pub run_backfill-IsSized :
      (n : ℕ) (w : World)
      → placed (state w).decisions "" ≡ 0
      → (c : String) → 0 < placed (state w).decisions c
      → (v : World) × ((run_backfill b q false (suc n) w ≡ (ok tt, v))
          × (((state v).decisions ≡ (state w).decisions) × IsSized (state v)))
  unfolding run_backfill
  run_backfill-IsSized n w unnamed c some_placed =
      let (counts, (u, (e, (s, right)))) = aggregate_cluster_counts-AreCounts w in
      let (v, (run, (kept, sized))) = from_counts counts right u s in
      (
        v,
        (
          >>=-run (aggregate_cluster_counts b q) (run_counted b q false (suc n)) w u counts e ∙ run,
          (kept, sized),
        ),
      )
    where
      docs : Dict DecisionDocument
      docs = (state w).decisions

      nothing_counted : AreCounts docs [] → ⊥
      nothing_counted right = elim (Bool-cases (c == "")) [
        | inl empty ↦
            let here : placed docs c ≡ 0 =
              subst (λ x. placed docs x ≡ 0) (sym ((eq_iff c "").0 empty)) unnamed in
            omega (arith, here, some_placed)
        | inr named ↦ cc (right.complete c named some_placed)
      ]

      from_counts :
          (counts : Dict ℕ)
          → AreCounts docs counts
          → (u : World) → state u ≡ state w
          → (v : World) × ((run_counted b q false (suc n) counts u ≡ (ok tt, v))
              × (((state v).decisions ≡ docs) × IsSized (state v)))
      from_counts [] right u s = absurd (nothing_counted right)
      from_counts (r ∷ rest) right u s =
          let (now, (v, (run, after))) = run_counted-backfilled n r rest u in
          let same = after ∙ ap (λ x. with_sizes x (backfilled now (r ∷ rest) x.cluster_sizes)) s in
          (
            v,
            (
              run,
              (
                ap (λ x. x.decisions) same,
                subst IsSized (sym same)
                    (size-backfilled docs now (r ∷ rest) (state w).cluster_sizes right unnamed),
              ),
            ),
          )
