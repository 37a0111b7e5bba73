-- ===== src/Consumer/Reconciler/Blocking.antt =====
-- A run whose result cannot be fetched (reconciler.py).
use ancora.Prelude.{
  ℕ, ◌≡◌, refl, Bool, true, false, Option, some, String, List, [], ◌∷◌, ◌++◌, Result, ok, raised,
  if◌then◌else◌, inl, inr, Bool-cases,
}
use ancora.Dict.{Dict}
use ancora.Common.Catalog.{
  AncoraRunStatus, completed, queued, running, failed, cancelled, terminated, timed_out,
  is_terminal, map_temporal_status,
}
use ancora.Consumer.Reconciler.{
  WorkflowRun, described, other_exception, SettledEvent, same_status, status_of, close_run,
  move_run, reconcile_run, Temporal, keep_row, after_run, reconcile_rows, committed, reconcile_once,
}

abbrev pub raises {ℓ κ} : {E : Type ℓ} {A : Type κ} → Result E A → Bool
raises (ok _) = false
raises (raised _) = true

moved_on : (s : AncoraRunStatus) → is_terminal s ≡ false → same_status completed s ≡ false
moved_on queued h = refl
moved_on running h = refl
moved_on completed h = cc
moved_on failed h = refl
moved_on cancelled h = refl
moved_on terminated h = refl
moved_on timed_out h = refl

module _ {D T : Type 0} where
  keep_row-raises :
      (row : String × WorkflowRun D T) (n : ℕ)
      (result : Result String (ℕ × Dict String (WorkflowRun D T)))
      → raises result ≡ true
      → raises (keep_row row n result) ≡ true
  unfolding keep_row
  keep_row-raises row n (raised text) h = refl
  keep_row-raises row n (ok (m, rows)) h = cc

  after_run-raises :
      (id : String) (turn : Result String (Bool × WorkflowRun D T × List SettledEvent))
      (rest : Result String (ℕ × Dict String (WorkflowRun D T)) × List SettledEvent)
      → raises rest.0 ≡ true
      → raises (after_run id turn rest).0 ≡ true
  unfolding after_run
  after_run-raises id (raised text) rest h = refl
  after_run-raises id (ok (terminal, run, events)) rest h =
      keep_row-raises (id, run) (if terminal then 1 else 0) rest.0 h

  stuck_run_lem :
      (closed : Option T) (text : String) (run : WorkflowRun D T)
      → is_terminal run.status ≡ false
      → reconcile_run (described (some 2) closed) (other_exception text) run ≡ raised text
  unfolding reconcile_run status_of map_temporal_status move_run close_run
  stuck_run_lem closed text run going = rw (moved_on run.status going) refl

  stuck_rows :
      (temporal : Temporal D T) (before later : Dict String (WorkflowRun D T)) (id : String)
      (run : WorkflowRun D T) (closed : Option T) (text : String)
      → is_terminal run.status ≡ false
      → temporal.describe id ≡ described (some 2) closed
      → temporal.result id ≡ other_exception text
      → raises (reconcile_rows temporal (before ++ (id, run) ∷ later)).0 ≡ true
  unfolding reconcile_rows
  stuck_rows temporal [] later id run closed text going told lost =
      rw (going, told, lost, stuck_run_lem closed text run going) (unfold after_run in refl)
  stuck_rows temporal ((i, r) ∷ before) later id run closed text going told lost =
      let rest = stuck_rows temporal before later id run closed text going told lost in
      elim (Bool-cases (is_terminal r.status)) [
        | inl over ↦ rw over (
            keep_row-raises (i, r) 0 (reconcile_rows temporal (before ++ (id, run) ∷ later)).0 rest)
        | inr open_run ↦ rw open_run (
            after_run-raises i (reconcile_run (temporal.describe i) (temporal.result i) r)
              (reconcile_rows temporal (before ++ (id, run) ∷ later)) rest)
      ]

  committed-raises :
      (table : Dict String (WorkflowRun D T))
      (result : Result String (ℕ × Dict String (WorkflowRun D T)))
      → raises result ≡ true
      → (raises (committed table result).0 ≡ true) × ((committed table result).1 ≡ table)
  unfolding committed
  committed-raises table (raised text) h = (refl, refl)
  committed-raises table (ok (n, rows)) h = cc

  -- A run that is not settled, that Temporal calls completed, and whose result cannot be fetched
  -- makes the pass raise, wherever it stands among the rows: no other run is settled either.
  pub stuck_run_blocks :
      (temporal : Temporal D T) (before later : Dict String (WorkflowRun D T)) (id : String)
      (run : WorkflowRun D T) (closed : Option T) (text : String)
      → is_terminal run.status ≡ false
      → temporal.describe id ≡ described (some 2) closed
      → temporal.result id ≡ other_exception text
      → let (result, table') = (reconcile_once temporal (before ++ (id, run) ∷ later)).0 in
        (raises result ≡ true) × (table' ≡ before ++ (id, run) ∷ later)
  unfolding reconcile_once
  stuck_run_blocks temporal before later id run closed text going told lost =
      committed-raises (before ++ (id, run) ∷ later)
        (reconcile_rows temporal (before ++ (id, run) ∷ later)).0
        (stuck_rows temporal before later id run closed text going told lost)
