-- ===== src/Gateway/Recovery/Tasks.antt =====
-- The wait of the orchestration step (recovery.py: _workflow_window).
use ancora.Prelude.{ℕ, Option, none, some, String, string_key, if◌then◌else◌}
use ancora.Number.{Float, Num, fnum, fmax, below, same}
use ancora.Gateway.History.{Wire, Datetime, dt}
use ancora.Gateway.Recovery.{FleetLiveness, PendingWorkflowTask, Window}
use ancora.Gateway.Recovery.Liveness.{queue_has_worker}
use ancora.Gateway.Recovery.Spans.{attempt_or_one}
use ancora.Gateway.Recovery.Deadlines.{until}

module _ ⦃f : Float⦄ ⦃w : Wire Num⦄ where
  -- a window of the orchestration step, with RecoveryWindowOut's defaults
  unfoldable pub task_window : String → ℕ → Option String → FleetLiveness → Datetime → Num → Window
  task_window kind attempt queue liveness started_at elapsed = record {
    activity_id = "workflow-task";
    node_id = "workflow";
    kind = kind;
    clock = none;
    attempt = attempt;
    worker = none;
    worker_state = "unknown";
    queue = queue;
    queue_has_worker = queue_has_worker liveness queue;
    started_at = some started_at;
    deadline_at = none;
    timeout_seconds = none;
    elapsed_seconds = elapsed;
    remaining_seconds = none;
    heartbeat_at = none;
    heartbeat_timeout_seconds = none;
    reason = "";
  }

  -- the step that no worker has taken yet
  unfoldable pub waiting_task :
      ℕ → Option String → FleetLiveness → Datetime → Option Datetime → Option Window
  waiting_task attempt queue liveness now none = none
  waiting_task attempt queue liveness now (some scheduled_at) =
      if below (fnum 1) (w.elapsed now scheduled_at)
      then some
          (record (task_window "queued" attempt queue liveness scheduled_at
            (w.elapsed now scheduled_at)) {
              reason =
                  "The orchestration step is queued with no workflow worker to run it. Nothing is lost; it starts the moment one returns.";
            })
      else none

  -- started_at + timedelta(seconds=timeout) if timeout else None
  unfoldable pub after_truthy : Datetime → Option Num → Option Datetime
  after_truthy started_at none = none
  after_truthy started_at (some s) = if same s (fnum 0) then none else some (w.ahead started_at s)

  unfoldable pub running_task :
      ℕ → Option String → Option Num → FleetLiveness → Datetime → Datetime → Window
  running_task attempt queue timeout liveness now started_at =
      let deadline = after_truthy started_at timeout in
      record (task_window "workflow_task" attempt queue liveness started_at
        (fmax (fnum 0) (w.elapsed now started_at))) {
          clock = some "start_to_close";
          deadline_at = deadline;
          timeout_seconds = timeout;
          remaining_seconds = until deadline now;
          reason =
              "A workflow worker took the orchestration step and has not answered. Workflow task timeouts are short by design, so this resolves quickly — then another worker replays history and continues.";
        }

  unfoldable pub task_started :
      PendingWorkflowTask
      → Option String
      → Option Num
      → FleetLiveness
      → Datetime
      → Option Datetime
      → Option Window
  task_started task queue timeout liveness now none =
      waiting_task (attempt_or_one task.attempt) queue liveness now (dt (some task.scheduled_time))
  task_started task queue timeout liveness now (some started_at) =
      some (running_task (attempt_or_one task.attempt) queue timeout liveness now started_at)

  -- _workflow_window
  unfoldable pub workflow_window :
      PendingWorkflowTask → Option String → Option Num → FleetLiveness → Datetime → Option Window
  workflow_window task queue timeout liveness now =
      task_started task queue timeout liveness now (dt (some task.started_time))
