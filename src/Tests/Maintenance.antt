-- ===== src/Tests/Maintenance.antt =====
-- Runs of the maintenance scripts.
use entity_resolution_servic.Prelude.{
  arith, ℕ, ◌<◌, String, ◌≡◌, ◌↔◌, refl, Bool, true, false, [], ◌∷◌, contains, length, string_eq,
  eq_iff, All,
}
use entity_resolution_servic.Prelude.Int.{pos}
use entity_resolution_servic.Dict.{Dict, lookup, put, count}
use entity_resolution_servic.Effects.{ok}
use entity_resolution_servic.Backend.Documents.{State, DecisionDocument}
use entity_resolution_servic.DecisionStore.Indexed.{IsSized}
use entity_resolution_servic.Maintenance.{
  keys, placed, Scripts, IsScripts, overwritten_all, without_stale, stale, run_backfill, verify,
  aggregate_cluster_counts, run_counted, read_projection, is_consistent,
}
use entity_resolution_servic.Maintenance.Backfill.{run_backfill-IsSized}
use entity_resolution_servic.Maintenance.Verify.{HasDistinctKeys, AreSizes, verify-AreSizes}
use entity_resolution_servic.Tests.Memory.{memory, memory-IsBackend, memory-IsHealthy}
use entity_resolution_servic.Tests.DecisionStore.{one_decision}

-- One row for each decision, with the number of the decisions of its cluster: the rows of a cluster
-- repeat.
abbrev rows_for : Dict DecisionDocument → Dict DecisionDocument → Dict ℕ
rows_for all_docs [] = []
rows_for all_docs ((k, d) ∷ docs) =
    let c = d.current_placement.cluster_id in (c, placed all_docs c) ∷ rows_for all_docs docs

rows_for-All :
    (all_docs docs : Dict DecisionDocument)
    → All (λ (c, n). n ≡ placed all_docs c) (rows_for all_docs docs)
rows_for-All all_docs [] = tt
rows_for-All all_docs ((k, d) ∷ docs) = (refl, rows_for-All all_docs docs)

rows_for_occurring :
    (all_docs docs : Dict DecisionDocument) (c : String)
    → 0 < placed docs c
    → contains c (keys (rows_for all_docs docs)) ≡ true
unfolding count
rows_for_occurring all_docs [] c h = ground (arith, h)
rows_for_occurring all_docs ((k, d) ∷ docs) c h = ground (
  arith,
  h,
  eq_iff c d.current_placement.cluster_id,
  eq_iff d.current_placement.cluster_id c,
  rows_for_occurring all_docs docs c,
)

abbrev scripts : Scripts memory
scripts = record {
  group_decisions = λ s. (ok (rows_for s.decisions s.decisions), s);
  bulk_write = λ ops s. (ok tt, record s { cluster_sizes = overwritten_all ops s.cluster_sizes });
  count_stale = λ live s. (ok (length (stale live s.cluster_sizes)), s);
  delete_stale = λ live s. (
    ok (length (stale live s.cluster_sizes)),
    record s { cluster_sizes = without_stale live s.cluster_sizes },
  );
  find_sizes = λ s. (ok s.cluster_sizes, s);
}

scripts-IsScripts : IsScripts memory scripts
scripts-IsScripts = record {
  group_reply = λ w h. (
    rows_for w.decisions w.decisions,
    (
      refl,
      record {
        counts = rows_for-All w.decisions w.decisions;
        occurring = rows_for_occurring w.decisions w.decisions;
      },
    ),
  );
  group_state = λ w. refl;
  bulk_reply = λ ops w. refl;
  bulk_state = λ ops w h. refl;
  delete_reply = λ live w. refl;
  delete_state = λ live w h. refl;
  count_reply = λ live w. refl;
  count_state = λ live w. refl;
  find_reply = λ w. refl;
  find_state = λ w. refl;
}

-- The sizes have drifted: a stale entry and a wrong one.
abbrev drifted : State
drifted = record one_decision {
  cluster_sizes =
      ("gone", record { size = pos 4; updated_at = 1 })
      ∷ ("y", record { size = pos 9; updated_at = 2 })
      ∷ [];
}

none_unnamed : placed drifted.decisions "" ≡ 0
unfolding count
none_unnamed = refl

one_in_y : 0 < placed drifted.decisions "y"
unfolding count
one_in_y = omega arith

run_backfill-IsSized_example :
    (v : State) × ((run_backfill memory scripts false 1 drifted ≡ (ok tt, v))
      × ((v.decisions ≡ drifted.decisions) × IsSized v))
run_backfill-IsSized_example =
    run_backfill-IsSized memory memory-IsBackend memory-IsHealthy scripts scripts-IsScripts 0
      drifted none_unnamed "y" one_in_y

distinct_sizes : HasDistinctKeys drifted.cluster_sizes
unfolding lookup
distinct_sizes = (refl, (refl, tt))

verify-AreSizes_example :
    (answer : Bool) × ((v : State) × ((verify memory scripts drifted ≡ (ok answer, v))
        × ((v ≡ drifted) × ((answer ≡ true) ↔ AreSizes drifted))))
verify-AreSizes_example =
    verify-AreSizes memory memory-IsHealthy scripts scripts-IsScripts memory-IsBackend drifted
      distinct_sizes

-- With no decision left the backfill ends early, and the stale sizes stay.
abbrev emptied : State
emptied = record drifted { decisions = [] }

a_backfill_of_nothing : run_backfill memory scripts false 500 emptied ≡ (ok tt, emptied)
unfolding run_backfill aggregate_cluster_counts run_counted
a_backfill_of_nothing = refl

the_drift_stays : (verify memory scripts emptied).0 ≡ ok false
unfolding verify aggregate_cluster_counts read_projection is_consistent lookup put
the_drift_stays = refl
