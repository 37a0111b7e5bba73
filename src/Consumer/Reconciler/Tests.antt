-- ===== src/Consumer/Reconciler/Tests.antt =====
-- Passes of reconciler.py over three runs, with numbers for objects and times.
use ancora.Prelude.{
  ℕ, ◌≡◌, refl, true, none, some, String, [], ◌∷◌, ◌++◌, ◌==◌, string_key, ok, if◌then◌else◌,
}
use ancora.Dict.{Dict}
use ancora.Common.Catalog.{running, cancelled, map_temporal_status}
use ancora.Consumer.Reconciler.{
  WorkflowRun, unreachable, described, fetched, other_exception, Temporal, status_of, close_run,
  move_run, reconcile_run, keep_row, after_run, reconcile_rows, committed, reconcile_once,
}
use ancora.Consumer.Reconciler.Settling.{Outcome, reconcile_once_settles}
use ancora.Consumer.Reconciler.Blocking.{raises, stuck_run_blocks}

abbrev going : WorkflowRun ℕ ℕ
going = record {
  temporal_wf_id = "wf";
  temporal_run_id = "r";
  status = running;
  output = none;
  error = none;
  closed_at = none;
}

abbrev runs : Dict String (WorkflowRun ℕ ℕ)
runs = ("a", going) ∷ ("b", record going { status = cancelled }) ∷ ("c", going) ∷ []

-- Temporal has completed run "a", and is not reached for the others.
abbrev temporal : Temporal ℕ ℕ
temporal = record {
  describe = λ id. if id == "a" then described (some 2) (some 9) else unreachable;
  result = λ id. fetched 7;
}

abbrev broken : Temporal ℕ ℕ
broken = record temporal { result = λ id. other_exception "no decoder" }

settles_one : (reconcile_once temporal runs).0.0 ≡ ok 1
unfolding reconcile_once reconcile_rows reconcile_run status_of map_temporal_status move_run
    close_run keep_row after_run committed
settles_one = refl

reconcile_once_settles_example : Outcome temporal runs (reconcile_once temporal runs).0
reconcile_once_settles_example = reconcile_once_settles temporal runs

stuck_run_blocks_example :
    let (result, table') =
      (reconcile_once broken ((("c", going) ∷ []) ++ ("a", going) ∷ (("b", going) ∷ []))).0 in
    (raises result ≡ true) × (table' ≡ (("c", going) ∷ []) ++ ("a", going) ∷ (("b", going) ∷ []))
stuck_run_blocks_example =
    stuck_run_blocks broken (("c", going) ∷ []) (("b", going) ∷ []) "a" going (some 9) "no decoder"
      refl refl refl
