-- ===== src/Gateway/History.antt =====
-- services/api-gateway/ancora_api/history.py: reading a Temporal history. `Wire` stands for what
-- the code takes from protobuf, datetime and json; `N` is Python's float.
use ancora.Prelude.{
  ℕ, Bool, true, false, ◌&&◌, Option, none, some, String, List, [], ◌∷◌, nat_eq, ◌==◌, string_key,
  if◌then◌else◌,
}
use ancora.Prelude.Int.{ℤ, pos, eq_ℤ}
use ancora.Number.{Float, Num, fnum, same}

-- a value that json.loads returns
mutual
  pub data Json (N : Type 0) : Type 0 where
    null : Json N
    boolean : Bool → Json N
    integer : ℤ → Json N
    float : N → Json N
    text : String → Json N
    array : Items N → Json N
    object : Fields N → Json N

  pub data Items (N : Type 0) : Type 0 where
    nil : Items N
    item : Json N → Items N → Items N

  pub data Fields (N : Type 0) : Type 0 where
    end : Fields N
    field : String → Json N → Fields N → Fields N

pub record Timestamp : Type 0 where
  pub seconds : ℤ
  pub nanos : ℕ

pub record Duration : Type 0 where
  pub seconds : ℤ
  pub nanos : ℤ

-- one payload: its encoding, and its data as text
pub record Payload : Type 0 where
  pub encoding : Option String
  pub payload : String

pub record Wire (N : Type 0) : Type 1 where
  pub Datetime : Type 0
  -- ts.ToDatetime().replace(tzinfo=UTC)
  pub to_datetime : Timestamp → Datetime
  -- d.ToTimedelta().total_seconds()
  pub total_seconds : Duration → N
  -- (end - start).total_seconds()
  pub elapsed : Datetime → Datetime → N
  -- at + timedelta(seconds=s)
  pub ahead : Datetime → N → Datetime
  pub isoformat : Datetime → String
  -- round(value, digits)
  pub rounded : N → ℕ → N
  -- a < b
  pub before : Datetime → Datetime → Bool
  -- datetime.fromtimestamp(s, UTC)
  pub from_timestamp : N → Datetime
  -- f"{s:g}"
  pub general : N → String
  -- json.loads, which may raise
  pub loads : String → Option (Json N)

-- text or None
unfoldable pub text_or : Option String → String → Option String
text_or other t = if t == "" then other else some t

module _ {N : Type 0} where
  -- decoded.get(key)
  unfoldable pub get : String → Fields N → Option (Json N)
  get key end = none
  get key (field name value rest) = if name == key then some value else get key rest

  abbrev pub has_fields : Fields N → Bool
  has_fields end = false
  has_fields (field _ _ _) = true

  -- value if isinstance(value, str) and value else None
  unfoldable pub text_value : Option (Json N) → Option String
  unfolding text_or
  text_value (some (text t)) = text_or none t
  text_value _ = none

  -- _str_field
  unfoldable pub str_field : Option (Fields N) → String → Option String
  str_field none key = none
  str_field (some decoded) key = if has_fields decoded then text_value (get key decoded) else none

  -- decoded if isinstance(decoded, dict) else None
  abbrev object_or_none : Option (Json N) → Option (Fields N)
  object_or_none (some (object fields)) = some fields
  object_or_none _ = none

module _ ⦃f : Float⦄ ⦃w : Wire Num⦄ where
  abbrev pub Datetime : Type 0
  Datetime = w.Datetime

  unfoldable pub dt : Option Timestamp → Option Datetime
  dt none = none
  dt (some ts) =
      if eq_ℤ ts.seconds (pos 0) && nat_eq ts.nanos 0 then none else some (w.to_datetime ts)

  unfoldable pub secs : Option Duration → Option Num
  secs none = none
  secs (some d) = let value = w.total_seconds d in if same value (fnum 0) then none else some value

  -- the first payload's object
  unfoldable pub decode_input : Option (List Payload) → Option (Fields Num)
  decode_input none = none
  decode_input (some []) = none
  decode_input (some (p ∷ _)) = elim p.encoding [
    | none ↦ none
    | some encoding ↦ if encoding == "json/plain" then object_or_none (w.loads p.payload) else none
  ]

  unfoldable pub node_id_from_input : Option (List Payload) → Option String
  node_id_from_input payloads = str_field (decode_input payloads) "node_id"

  unfoldable node_type_from_input : Option (List Payload) → Option String
  node_type_from_input payloads = str_field (decode_input payloads) "type_name"

-- node_label; `decoded` is the node's name where it was recovered
unfoldable pub node_label : String → String → Option String → String
node_label activity_type activity_id none =
    if activity_type == "run_node" then activity_id else activity_type
node_label activity_type activity_id (some name) =
    if name == ""
    then (if activity_type == "run_node" then activity_id else activity_type)
    else name

-- The events that the views read, with the attributes that they read.
pub record ActivityTaskScheduled : Type 0 where
  pub activity_id : String
  pub activity_type : String
  pub task_queue : String
  pub input : List Payload
  pub workflow_task_completed_event_id : ℕ
  pub start_to_close_timeout : Duration
  pub heartbeat_timeout : Duration
  pub maximum_attempts : ℕ

pub data Attributes : Type 0 where
  workflow_execution_started : String → Attributes
  activity_task_scheduled : ActivityTaskScheduled → Attributes
  activity_task_started : ℕ → String → ℕ → Option String → Attributes
  activity_task_completed : ℕ → Attributes
  activity_task_failed : ℕ → String → Attributes
  activity_task_timed_out : ℕ → String → Attributes
  activity_task_canceled : ℕ → Attributes
  timer_started : String → Duration → Attributes
  timer_fired : String → Attributes
  timer_canceled : String → Attributes
  workflow_execution_signaled : String → Attributes
  workflow_task_completed : Attributes
  workflow_task_started : String → Attributes
  workflow_task_timed_out : ℕ → Attributes
  other_attributes : Attributes

pub record HistoryEvent : Type 0 where
  pub event_id : ℕ
  pub event_time : Timestamp
  pub attributes : Attributes

-- PendingActivityState
pub data PendingState : Type 0 where
  pending_scheduled pending_started pending_other : PendingState

-- PendingActivityInfo: what Temporal says of an activity that is not done
pub record PendingActivity : Type 0 where
  pub activity_id : String
  pub activity_type : String
  pub state : PendingState
  pub attempt : ℕ
  pub last_worker_identity : String
  pub last_started_time : Timestamp
  pub last_failure : Option String
  pub last_heartbeat_time : Timestamp
  pub scheduled_time : Timestamp
  pub next_attempt_schedule_time : Timestamp
  pub last_attempt_complete_time : Timestamp
  pub current_retry_interval : Duration

abbrev pub is_started : PendingState → Bool
is_started pending_started = true
is_started _ = false
