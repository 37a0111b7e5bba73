-- ===== src/Gateway/Recovery/Reducing.antt =====
-- The reduction of a history for the recovery view (recovery.py: _reduce_history).
pub mod Handoffs
use ancora.Prelude.{
  ℕ, ◌+◌, max, Bool, true, false, not, ◌&&◌, Option, none, some, String, List, [], ◌∷◌, ◌++◌,
  nat_eq, any, ◌==◌, string_key, nat_key, decimal, join, if◌then◌else◌,
}
use ancora.Number.{Float, Num}
use ancora.Dict.{insert}
use ancora.Gateway.History.{
  Wire, Datetime, HistoryEvent, Attributes, ActivityTaskScheduled, activity_task_scheduled,
  activity_task_started, activity_task_completed, activity_task_failed, activity_task_timed_out,
  activity_task_canceled, workflow_task_started, workflow_task_timed_out, text_or, dt, secs,
  node_id_from_input, node_label,
}
use ancora.Gateway.Recovery.{Scheduled, Marker, Reduction}

-- failure or None
unfoldable pub present_text : Option String → Option String
present_text none = none
present_text (some t) = text_or none t

-- _TIMEOUT_LABEL.get(timeout_type, "timeout")
unfoldable pub timeout_label : ℕ → String
timeout_label kind =
    if nat_eq kind 1
    then "start-to-close"
    else if nat_eq kind 2
    then "schedule-to-start"
    else if nat_eq kind 3
    then "schedule-to-close"
    else if nat_eq kind 4
    then "heartbeat"
    else "timeout"

-- see_worker
unfoldable pub see_worker : String → List String → List String
see_worker identity workers =
    if identity == ""
    then workers
    else if any (λ s. s == identity) workers
    then workers
    else workers ++ identity ∷ []

module _ ⦃f : Float⦄ ⦃w : Wire Num⦄ where
  abbrev pub or_now : Datetime → Option Datetime → Datetime
  or_now now none = now
  or_now now (some at_time) = at_time

  unfoldable pub scheduled_of : HistoryEvent → ActivityTaskScheduled → Scheduled
  scheduled_of e sch = record {
    event_id = e.event_id;
    activity_id = sch.activity_id;
    activity_type = sch.activity_type;
    task_queue = sch.task_queue;
    scheduled_at = dt (some e.event_time);
    start_to_close = secs (some sch.start_to_close_timeout);
    heartbeat = secs (some sch.heartbeat_timeout);
    maximum_attempts = sch.maximum_attempts;
    node_id = node_label sch.activity_type sch.activity_id (node_id_from_input (some sch.input));
  }

  unfoldable pub changed : Datetime → String → String → ℕ → Marker
  changed at_time identity last completed = record {
    at_time = at_time;
    kind = "worker_changed";
    label = identity;
    detail = some (
        join (
          "picked up from "
          ∷ last
          ∷ "; rebuilt state from "
          ∷ decimal completed
          ∷ " recorded "
          ∷ (if nat_eq completed 1 then "result" else "results")
          ∷ []));
  }

  -- a workflow task that a worker took: after another worker it is a handoff
  unfoldable pub take_over :
      Datetime → Option Datetime → String → Option String → Reduction → Reduction
  take_over now at_time identity none r = record r { last_identity = some identity }
  take_over now at_time identity (some last) r =
      if identity == last then record r { last_identity = some identity } else record r {
        handoffs = r.handoffs + 1;
        replayed_activities = max r.replayed_activities r.completed_activities;
        markers =
            r.markers ++ changed (or_now now at_time) identity last r.completed_activities ∷ [];
        last_identity = some identity;
      }

  unfoldable pub timed_out_marker : Datetime → ℕ → Marker
  timed_out_marker at_time kind = record {
    at_time = at_time;
    kind = "workflow_task_timeout";
    label = "workflow task timed out";
    detail = some (
        join (
          timeout_label kind
          ∷ " — the worker holding the orchestration step stopped answering"
          ∷ []));
  }

  -- one event; `now` is the clock's reading, where an event has no time
  unfoldable pub reduce_event : Datetime → HistoryEvent → Attributes → Reduction → Reduction
  reduce_event now e (activity_task_scheduled sch) r = record r {
    scheduled = insert e.event_id (scheduled_of e sch) r.scheduled;
  }
  reduce_event now e (activity_task_started sid identity attempt failure) r = record r {
    started =
        insert sid (dt (some e.event_time), identity, attempt, present_text failure) r.started;
    workers = see_worker identity r.workers;
  }
  reduce_event now e (activity_task_completed sid) r = record r {
    terminal = insert sid ("completed", dt (some e.event_time), none) r.terminal;
    completed_activities = r.completed_activities + 1;
  }
  reduce_event now e (activity_task_failed sid message) r = record r {
    terminal = insert sid ("failed", dt (some e.event_time), text_or none message) r.terminal;
  }
  reduce_event now e (activity_task_timed_out sid message) r = record r {
    terminal = insert sid ("timed_out", dt (some e.event_time), text_or none message) r.terminal;
  }
  reduce_event now e (activity_task_canceled sid) r = record r {
    terminal = insert sid ("canceled", dt (some e.event_time), none) r.terminal;
  }
  reduce_event now e (workflow_task_started identity) r =
      let seen = record r { workers = see_worker identity r.workers } in
      if identity == ""
      then seen
      else take_over now (dt (some e.event_time)) identity r.last_identity seen
  reduce_event now e (workflow_task_timed_out kind) r = record r {
    markers = r.markers ++ timed_out_marker (or_now now (dt (some e.event_time))) kind ∷ [];
  }
  reduce_event now e _ r = r

  abbrev pub nothing_seen : Reduction
  nothing_seen = record {
    scheduled = [];
    started = [];
    terminal = [];
    markers = [];
    workers = [];
    replayed_activities = 0;
    handoffs = 0;
    completed_activities = 0;
    last_identity = none;
  }

  unfoldable pub reduce_from : Datetime → Reduction → List HistoryEvent → Reduction
  reduce_from now r [] = r
  reduce_from now r (e ∷ events) = reduce_from now (reduce_event now e e.attributes r) events

  -- _reduce_history
  abbrev pub reduce_history : Datetime → List HistoryEvent → Reduction
  reduce_history now events = reduce_from now nothing_seen events
