-- ===== src/Gateway/Ticks.antt =====
-- Whole seconds for the times of a history: what the tests of the run graph and of the recovery
-- view read it with.
use ancora.Prelude.{
  ltb, ℕ, ◌+◌, Option, none, some, String, true, [], ◌∷◌, ◌==◌, string_key, decimal, if◌then◌else◌,
}
use ancora.Prelude.Int.{ℤ, pos, pos_part, ◌-ℤ◌}
use ancora.Gateway.History.{
  Json, text, boolean, object, end, field, Timestamp, Duration, Wire, activity_task_scheduled,
  Attributes, HistoryEvent,
}

abbrev load : String → Option (Json ℤ)
load t =
    if t == "open"
    then some (object (field "gate_id" (text "g") end))
    else if t == "close"
    then some (object (field "gate_id" (text "g") (field "approved" (boolean true) end)))
    else none

instance abbrev pub ticks : Wire ℤ
ticks = record {
  Datetime = ℕ;
  to_datetime = λ (t : Timestamp). pos_part t.seconds;
  total_seconds = λ (d : Duration). d.seconds;
  elapsed = λ end start. pos end -ℤ pos start;
  ahead = λ at s. at + pos_part s;
  isoformat = decimal;
  rounded = λ x digits. x;
  before = ltb;
  from_timestamp = pos_part;
  general = λ x. decimal (pos_part x);
  loads = load;
}

abbrev pub at : ℕ → ℕ → Attributes → HistoryEvent
at id seconds attributes = record {
  event_id = id;
  event_time = record { seconds = pos seconds; nanos = 0 };
  attributes = attributes;
}

abbrev pub scheduled_as : String → String → String → ℕ → Attributes
scheduled_as id kind input task = activity_task_scheduled (record {
  activity_id = id;
  activity_type = kind;
  task_queue = "q";
  input = record { encoding = some "json/plain"; payload = input } ∷ [];
  workflow_task_completed_event_id = task;
  start_to_close_timeout = record { seconds = pos 0; nanos = pos 0 };
  heartbeat_timeout = record { seconds = pos 0; nanos = pos 0 };
  maximum_attempts = 0;
})
