-- ===== src/Gateway/Recovery/Windows.antt =====
-- The waits of a run's activities (recovery.py: _activity_window).
pub mod Clocks
use ancora.Prelude.{
  ℕ, Bool, true, false, not, ◌&&◌, ◌||◌, Option, none, some, String, List, [], ◌∷◌, ◌++◌, any,
  nat_eq, ◌==◌, string_key, decimal, join, if◌then◌else◌,
}
use ancora.Number.{Float, Num, fnum, fmax, below, same}
use ancora.Gateway.History.{
  Wire, Datetime, PendingActivity, PendingState, pending_scheduled, pending_started, pending_other,
  text_or, dt, secs, node_label,
}
use ancora.Gateway.Recovery.{FleetLiveness, PendingWorkflowTask, Scheduled, Window}
use ancora.Gateway.Recovery.Liveness.{text_of, liveness_state, queue_has_worker}
use ancora.Gateway.Recovery.Deadlines.{
  Deadline, or_time, until, deadline_of, holder_reason, clock_reason,
}

module _ ⦃f : Float⦄ ⦃w : Wire Num⦄ where
  abbrev node_of : Option Scheduled → PendingActivity → String
  node_of none pa = node_label pa.activity_type pa.activity_id none
  node_of (some sched) pa = sched.node_id

  abbrev queue_of : Option Scheduled → Option String
  queue_of none = none
  queue_of (some sched) = some sched.task_queue

  abbrev start_to_close_of : Option Scheduled → Option Num
  start_to_close_of none = none
  start_to_close_of (some sched) = sched.start_to_close

  abbrev heartbeat_of : Option Scheduled → Option Num
  heartbeat_of none = none
  heartbeat_of (some sched) = sched.heartbeat

  -- any(started < k <= now for k in killed_at)
  unfoldable pub killed_since : Datetime → Datetime → List Datetime → Bool
  killed_since now started killed_at =
      any (λ k. w.before started k && not (w.before now k)) killed_at

  -- whether a kill shows that the holder of an attempt is gone
  abbrev pub is_displaced : Datetime → Option Datetime → List Datetime → Bool
  is_displaced now none killed_at = false
  is_displaced now (some started) killed_at = killed_since now started killed_at

  unfoldable pub worker_state_of :
      FleetLiveness → PendingActivity → Datetime → List Datetime → String
  worker_state_of liveness pa now killed_at =
      let state = liveness_state liveness (text_or none pa.last_worker_identity) in
      if state == "live" && is_displaced now (dt (some pa.last_started_time)) killed_at
      then "replaced"
      else state

  -- `window`: the fields that every window of an activity shares
  unfoldable pub window :
      PendingActivity
      → Option Scheduled
      → FleetLiveness
      → Datetime
      → List Datetime
      → String
      → Window
  window pa sched liveness now killed_at kind = record {
    activity_id = pa.activity_id;
    node_id = node_of sched pa;
    kind = kind;
    clock = none;
    attempt = pa.attempt;
    worker = text_or none pa.last_worker_identity;
    worker_state = worker_state_of liveness pa now killed_at;
    queue = queue_of sched;
    queue_has_worker = queue_has_worker liveness (queue_of sched);
    started_at = none;
    deadline_at = none;
    timeout_seconds = none;
    elapsed_seconds = fnum 0;
    remaining_seconds = none;
    heartbeat_at = none;
    heartbeat_timeout_seconds = none;
    reason = "";
  }

  -- the wait for a started attempt
  unfoldable pub detecting :
      Window → PendingActivity → Option Scheduled → Datetime → Option Datetime → Option Window
  detecting base pa sched now none = none
  detecting base pa sched now (some started_at) =
      let heartbeat_at = dt (some pa.last_heartbeat_time) in
      let d = deadline_of started_at heartbeat_at (start_to_close_of sched) (heartbeat_of sched) in
      some (record base {
        clock = some d.clock;
        started_at = some started_at;
        deadline_at = d.at_time;
        timeout_seconds = d.timeout;
        elapsed_seconds = fmax (fnum 0) (w.elapsed now started_at);
        remaining_seconds = until d.at_time now;
        heartbeat_at = heartbeat_at;
        heartbeat_timeout_seconds = heartbeat_of sched;
        reason = join (
            holder_reason base.worker_state pa.attempt base.worker
            ∷ clock_reason d.clock (start_to_close_of sched) (heartbeat_of sched)
            ∷ []);
      })

  abbrev failure_text : Option String → String
  failure_text none = ""
  failure_text (some t) = if t == "" then "" else join (" (" ∷ t ∷ ")" ∷ [])

  abbrev or_optional : Option Datetime → Option Datetime → Option Datetime
  or_optional none b = b
  or_optional (some a) b = some a

  -- the wait for the next attempt
  unfoldable pub backoff : Window → PendingActivity → Datetime → Datetime → Window
  backoff base pa next_at now =
      let completed_at = dt (some pa.last_attempt_complete_time) in
      record base {
        kind = "backoff";
        clock = some "retry_backoff";
        started_at = or_optional completed_at (dt (some pa.scheduled_time));
        deadline_at = some next_at;
        timeout_seconds = secs (some pa.current_retry_interval);
        elapsed_seconds = fmax (fnum 0) (w.elapsed now (or_time completed_at next_at));
        remaining_seconds = some (w.elapsed next_at now);
        reason = join (
            "Attempt "
            ∷ decimal pa.attempt
            ∷ " failed"
            ∷ failure_text pa.last_failure
            ∷ " and the retry policy is holding the next one back. The wait is the backoff interval, not a detection delay."
            ∷ []);
      }

  abbrev since : Option Datetime → Datetime → Num
  since none now = fnum 0
  since (some at_time) now = fmax (fnum 0) (w.elapsed now at_time)

  abbrev is_false : Option Bool → Bool
  is_false (some false) = true
  is_false _ = false

  -- the wait for a worker
  unfoldable pub queued : Window → PendingActivity → Datetime → Window
  queued base pa now =
      let scheduled_at = dt (some pa.scheduled_time) in
      record base {
        started_at = scheduled_at;
        elapsed_seconds = since scheduled_at now;
        reason =
            if is_false base.queue_has_worker
            then join (
                "Waiting on the "
                ∷ text_of base.queue "None"
                ∷ " queue with no live worker polling it. This costs nothing and clears the moment a worker comes back — there is no timeout to wait out."
                ∷ [])
            else join (
                "Queued on "
                ∷ text_of base.queue "None"
                ∷ ", waiting for a worker to pick it up."
                ∷ []);
      }

  unfoldable pub scheduled_window : Window → PendingActivity → Option Datetime → Datetime → Window
  scheduled_window base pa none now = queued base pa now
  scheduled_window base pa (some next_at) now =
      if w.before now next_at then backoff base pa next_at now else queued base pa now

  abbrev pub kind_of : PendingState → String
  kind_of pending_started = "detecting"
  kind_of _ = "queued"

  unfoldable pub window_in :
      PendingState → Window → PendingActivity → Option Scheduled → Datetime → Option Window
  window_in pending_started base pa sched now =
      detecting base pa sched now (dt (some pa.last_started_time))
  window_in pending_scheduled base pa sched now =
      some (scheduled_window base pa (dt (some pa.next_attempt_schedule_time)) now)
  window_in pending_other base pa sched now = none

  -- _activity_window
  unfoldable pub activity_window :
      PendingActivity → Option Scheduled → FleetLiveness → Datetime → List Datetime → Option Window
  activity_window pa sched liveness now killed_at =
      let base = window pa sched liveness now killed_at (kind_of pa.state) in
      window_in pa.state base pa sched now
