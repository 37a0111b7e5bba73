-- ===== src/Gateway/Graph/Reducing.antt =====
-- The reduction of a history (graph.py: _scheduling, _decode_sched, _reduce).
use ancora.Prelude.{
  ℕ, true, false, ◌||◌, Option, none, some, String, List, [], ◌∷◌, ◌++◌, nat_eq, ◌==◌, string_key,
  nat_key, if◌then◌else◌,
}
use ancora.Number.{Float, Num}
use ancora.Dict.{insert, erase}
use ancora.Gateway.History.{
  Json, object, Fields, Wire, Datetime, HistoryEvent, Attributes, ActivityTaskScheduled,
  workflow_execution_started, activity_task_scheduled, activity_task_started,
  activity_task_completed, activity_task_failed, activity_task_timed_out, activity_task_canceled,
  timer_started, timer_fired, timer_canceled, workflow_execution_signaled, workflow_task_completed,
  get, has_fields, text_value, text_or, str_field, dt, secs, decode_input,
}
use ancora.Gateway.Graph.{gate_open, gate_close, Sched, Reduction}

module _ {N : Type 0} where
  -- the field of the block, where the block is an object
  abbrev block_text : Option (Json N) → String → Option String
  block_text (some (object block)) key = text_value (get key block)
  block_text _ key = none

  -- _scheduling
  unfoldable pub scheduling : Option (Fields N) → String → Option String
  scheduling none key = none
  scheduling (some decoded) key =
      if has_fields decoded then block_text (get "scheduling" decoded) key else none

  unfoldable pub when_truthy : Option (Fields N) → Option (Fields N)
  when_truthy none = none
  when_truthy (some decoded) = if has_fields decoded then some decoded else none

-- int(attempt) or 1
unfoldable pub attempt_or_one : ℕ → ℕ
attempt_or_one n = if nat_eq n 0 then 1 else n

module _ ⦃f : Float⦄ ⦃w : Wire Num⦄ where
  -- _decode_sched
  unfoldable pub decode_sched : HistoryEvent → ActivityTaskScheduled → Sched
  decode_sched e sch =
      let decoded = decode_input (some sch.input) in
      record {
        event_id = e.event_id;
        decided_by = sch.workflow_task_completed_event_id;
        activity_id = sch.activity_id;
        activity_type = sch.activity_type;
        task_queue = sch.task_queue;
        scheduled_at = dt (some e.event_time);
        node_id = str_field decoded "node_id";
        node_type = str_field decoded "type_name";
        priority = scheduling decoded "priority";
        gate_id =
            if sch.activity_type == gate_open || sch.activity_type == gate_close
            then str_field decoded "gate_id"
            else none;
        decision = if sch.activity_type == gate_close then when_truthy decoded else none;
      }

  -- when a timer fires
  unfoldable pub fire_time : Option Datetime → Option Num → Option Datetime
  fire_time (some at) (some fire_after) = some (w.ahead at fire_after)
  fire_time _ _ = none

  -- one event
  unfoldable pub reduce_event : HistoryEvent → Attributes → Reduction → Reduction
  reduce_event e (workflow_execution_started name) r = record r { workflow_name = name }
  reduce_event e (activity_task_scheduled sch) r = record r {
    scheduled = insert e.event_id (decode_sched e sch) r.scheduled;
    parked = false;
  }
  reduce_event e (activity_task_started sid identity attempt _) r = record r {
    started = insert sid (dt (some e.event_time), identity, attempt_or_one attempt) r.started;
  }
  reduce_event e (activity_task_completed sid) r = record r {
    terminal = insert sid ("completed", dt (some e.event_time), none) r.terminal;
  }
  reduce_event e (activity_task_failed sid message) r = record r {
    terminal = insert sid ("failed", dt (some e.event_time), text_or none message) r.terminal;
  }
  reduce_event e (activity_task_timed_out sid message) r = record r {
    terminal = insert sid ("timed_out", dt (some e.event_time), text_or none message) r.terminal;
  }
  reduce_event e (activity_task_canceled sid) r = record r {
    terminal = insert sid ("canceled", dt (some e.event_time), none) r.terminal;
  }
  reduce_event e (timer_started timer_id fire_after) r = record r {
    open_timers =
        insert timer_id (fire_time (dt (some e.event_time)) (secs (some fire_after))) r.open_timers;
    parked = false;
  }
  reduce_event e (timer_fired timer_id) r = record r { open_timers = erase timer_id r.open_timers }
  reduce_event e (timer_canceled timer_id) r = record r {
    open_timers = erase timer_id r.open_timers;
  }
  reduce_event e (workflow_execution_signaled name) r = record r {
    signals = r.signals ++ name ∷ [];
  }
  reduce_event e workflow_task_completed r = record r { parked = true }
  reduce_event e _ r = r

  abbrev pub nothing_seen : Reduction
  nothing_seen = record {
    workflow_name = "";
    scheduled = [];
    started = [];
    terminal = [];
    open_timers = [];
    signals = [];
    parked = false;
  }

  unfoldable pub reduce_from : Reduction → List HistoryEvent → Reduction
  reduce_from r [] = r
  reduce_from r (e ∷ events) = reduce_from (reduce_event e e.attributes r) events

  -- _reduce
  abbrev pub reduce : List HistoryEvent → Reduction
  reduce events = reduce_from nothing_seen events
