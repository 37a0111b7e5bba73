-- ===== src/Consumer/Reconciler.antt =====
-- services/event-consumer/ancora_event_consumer/reconciler.py: one pass over the runs that are not
-- settled. What Temporal says of each run is an argument. The pass is one transaction: where it
-- raises, the rows are as before, and the events that it has published stay published.
pub mod Settling
pub mod Blocking
mod Tests
use ancora.Prelude.{
  ℕ, ◌+◌, Bool, true, false, Option, none, some, String, List, [], ◌∷◌, ◌++◌, nat_eq, Result, ok,
  raised, if◌then◌else◌,
}
use ancora.Dict.{Dict}
use ancora.Common.Catalog.{
  AncoraRunStatus, queued, running, completed, failed, cancelled, terminated, timed_out,
  is_terminal, map_temporal_status,
}

-- a row of workflow_run: what the pass reads and writes. `D` is a JSON object, `T` a datetime.
pub record WorkflowRun (D T : Type 0) : Type 0 where
  pub temporal_wf_id : String
  pub temporal_run_id : String
  pub status : AncoraRunStatus
  pub output : Option D
  pub error : Option String
  pub closed_at : Option T

-- handle.describe(): it raises, or it has a status and a close time
pub data Described (T : Type 0) : Type 0 where
  unreachable : Described T
  described : Option ℕ → Option T → Described T

-- handle.result(): a value, here as the object that is stored for it; WorkflowFailureError; or
-- another exception. An exception comes with its text.
pub data Fetched (D : Type 0) : Type 0 where
  fetched : D → Fetched D
  workflow_failure : String → Fetched D
  other_exception : String → Fetched D

-- EventKind, as the reconciler emits it
pub data RunEventKind : Type 0 where
  run_started run_completed run_failed run_canceled : RunEventKind

pub record SettledEvent : Type 0 where
  pub kind : RunEventKind
  pub wf_id : String
  pub run_id : String
  pub status : AncoraRunStatus
  pub error : Option String

-- _TERMINAL_EVENT.get(status) if terminal else RUN_STARTED; a status that is not terminal has none
unfoldable pub event_kind : AncoraRunStatus → RunEventKind
event_kind queued = run_started
event_kind running = run_started
event_kind completed = run_completed
event_kind failed = run_failed
event_kind cancelled = run_canceled
event_kind terminated = run_canceled
event_kind timed_out = run_failed

-- equal run states
abbrev status_code : AncoraRunStatus → ℕ
status_code queued = 0
status_code running = 1
status_code completed = 2
status_code failed = 3
status_code cancelled = 4
status_code terminated = 5
status_code timed_out = 6

abbrev pub same_status : AncoraRunStatus → AncoraRunStatus → Bool
same_status s t = nat_eq (status_code s) (status_code t)

-- map_temporal_status(desc.status) if desc.status else run.status
unfoldable pub status_of : Option ℕ → AncoraRunStatus → AncoraRunStatus
status_of none status = status
status_of (some value) status = if nat_eq value 0 then status else map_temporal_status value

unfoldable pub failure_text : {D : Type 0} → Fetched D → Option String → Option String
failure_text (fetched _) error = error
failure_text (workflow_failure text) error = some text
failure_text (other_exception text) error = some text

module _ {D T : Type 0} where
  -- the branch of a run that became terminal: only a completed run's result may raise
  unfoldable pub close_run :
      AncoraRunStatus → Option T → Fetched D → WorkflowRun D T → Result String (WorkflowRun D T)
  close_run completed closed (fetched output) run =
      ok (record run { status = completed; closed_at = closed; output = some output })
  close_run completed closed (workflow_failure text) run = raised text
  close_run completed closed (other_exception text) run = raised text
  close_run failed closed result run =
      ok (record run { status = failed; closed_at = closed; error = failure_text result run.error })
  close_run timed_out closed result run =
      ok (record run {
        status = timed_out;
        closed_at = closed;
        error = failure_text result run.error;
      })
  close_run status closed result run = ok (record run { status = status; closed_at = closed })

  -- _emit
  abbrev event_of : WorkflowRun D T → SettledEvent
  event_of run = record {
    kind = event_kind run.status;
    wf_id = run.temporal_wf_id;
    run_id = run.temporal_run_id;
    status = run.status;
    error = run.error;
  }

  -- _reconcile_run, once the status has changed: whether the run became terminal, the row, the event
  unfoldable pub move_run :
      AncoraRunStatus
      → Option T
      → Fetched D
      → WorkflowRun D T
      → Result String (Bool × WorkflowRun D T × List SettledEvent)
  move_run status closed result run =
      if is_terminal status
      then elim (close_run status closed result run) [
        | raised text ↦ raised text
        | ok run' ↦ ok (true, run', event_of run' ∷ [])
      ]
      else (let run' = record run { status = status } in ok (false, run', event_of run' ∷ []))

  -- _reconcile_run
  unfoldable pub reconcile_run :
      Described T
      → Fetched D
      → WorkflowRun D T
      → Result String (Bool × WorkflowRun D T × List SettledEvent)
  reconcile_run unreachable result run = ok (false, run, [])
  reconcile_run (described value closed) result run =
      let status = status_of value run.status in
      if same_status status run.status
      then ok (false, run, [])
      else move_run status closed result run

-- what Temporal says of the run with a row's id
pub record Temporal (D T : Type 0) : Type 0 where
  pub describe : String → Described T
  pub result : String → Fetched D

module _ {D T : Type 0} where
  unfoldable pub keep_row :
      String × WorkflowRun D T
      → ℕ
      → Result String (ℕ × Dict String (WorkflowRun D T))
      → Result String (ℕ × Dict String (WorkflowRun D T))
  keep_row row n (raised text) = raised text
  keep_row row n (ok (settled, rows)) = ok (n + settled, row ∷ rows)

  -- one run of the loop, and the loop's rest
  unfoldable pub after_run :
      String
      → Result String (Bool × WorkflowRun D T × List SettledEvent)
      → Result String (ℕ × Dict String (WorkflowRun D T)) × List SettledEvent
      → Result String (ℕ × Dict String (WorkflowRun D T)) × List SettledEvent
  after_run id (raised text) rest = (raised text, [])
  after_run id (ok (terminal, run, events)) (result, more) =
      (keep_row (id, run) (if terminal then 1 else 0) result, events ++ more)

  -- the loop of reconcile_once: a run that is terminal already is not selected
  unfoldable pub reconcile_rows :
      Temporal D T
      → Dict String (WorkflowRun D T)
      → Result String (ℕ × Dict String (WorkflowRun D T)) × List SettledEvent
  reconcile_rows temporal [] = (ok (0, []), [])
  reconcile_rows temporal ((id, run) ∷ rows) =
      let rest = reconcile_rows temporal rows in
      if is_terminal run.status
      then (keep_row (id, run) 0 rest.0, rest.1)
      else after_run id (reconcile_run (temporal.describe id) (temporal.result id) run) rest

  unfoldable pub committed :
      Dict String (WorkflowRun D T)
      → Result String (ℕ × Dict String (WorkflowRun D T))
      → Result String ℕ × Dict String (WorkflowRun D T)
  committed table (raised text) = (raised text, table)
  committed table (ok (settled, table')) = (ok settled, table')

  -- reconcile_once: the result and the table, and the events
  unfoldable pub reconcile_once :
      Temporal D T
      → Dict String (WorkflowRun D T)
      → (Result String ℕ × Dict String (WorkflowRun D T)) × List SettledEvent
  reconcile_once temporal table =
      let (result, events) = reconcile_rows temporal table in (committed table result, events)
