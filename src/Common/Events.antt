-- ===== src/Common/Events.antt =====
-- packages/common/ancora_common/events.py: a run event, and its form as a stream entry of texts.
-- The texts of datetimes, integers and JSON objects are a parameter, `Texts`.
pub mod Transport
mod Tests
use ancora.Prelude.{
  ℕ, ◌≡◌, Bool, false, Option, none, some, String, [], ◌∷◌, ◌==◌, string_key, if◌then◌else◌,
}
use ancora.Prelude.Int.{ℤ, pos}
use ancora.Dict.{Dict, lookup_or}

-- astimezone(UTC).isoformat() and fromisoformat, str and int, json.dumps with default=str and
-- json.loads. A text that is not read is none, and so is JSON that is no object. No text that is
-- written is empty, and an integer is read as it was written; of a time and of a payload nothing
-- like it is assumed.
pub record Texts (Time Payload : Type 0) : Type 0 where
  pub iso : Time → String
  pub from_iso : String → Option Time
  pub show_int : ℤ → String
  pub read_int : String → Option ℤ
  pub dumps : Payload → String
  pub loads : String → Option Payload
  pub empty_payload : Payload
  pub iso_nonempty : (t : Time) → (iso t == "") ≡ false
  pub read_int-show_int : (n : ℤ) → read_int (show_int n) ≡ some n
  pub show_int_nonempty : (n : ℤ) → (show_int n == "") ≡ false
  pub dumps_nonempty : (p : Payload) → (dumps p == "") ≡ false

pub record RunEvent (Time Payload : Type 0) : Type 0 where
  pub kind : String
  pub wf_id : String
  pub run_id : String
  pub ts : Time
  pub node_id : Option String
  pub activity_id : Option String
  pub activity_type : Option String
  pub attempt : ℤ
  pub worker_id : Option String
  pub status : Option String
  pub error : Option String
  pub payload : Payload

-- _s
abbrev pub text_or_empty : Option String → String
text_or_empty none = ""
text_or_empty (some s) = s

-- value or None
abbrev pub text_or_none : String → Option String
text_or_none s = if s == "" then none else some s

-- _opt
abbrev opt : Dict String String → String → Option String
opt fields key = text_or_none (lookup_or "" key fields)

abbrev pub or_default {ℓ} : {A : Type ℓ} → A → Option A → A
or_default d none = d
or_default d (some x) = x

module _ {Time Payload : Type 0} (texts : Texts Time Payload) where
  -- encode_event
  unfoldable pub encode_event : RunEvent Time Payload → Dict String String
  encode_event e =
      ("kind", e.kind)
      ∷ ("wf_id", e.wf_id)
      ∷ ("run_id", e.run_id)
      ∷ ("ts", texts.iso e.ts)
      ∷ ("node_id", text_or_empty e.node_id)
      ∷ ("activity_id", text_or_empty e.activity_id)
      ∷ ("activity_type", text_or_empty e.activity_type)
      ∷ ("attempt", texts.show_int e.attempt)
      ∷ ("worker_id", text_or_empty e.worker_id)
      ∷ ("status", text_or_empty e.status)
      ∷ ("error", text_or_empty e.error)
      ∷ ("payload", texts.dumps e.payload)
      ∷ []

  -- datetime.fromisoformat(ts_raw), or the present where there is no such text
  abbrev pub ts_of : Time → String → Time
  ts_of now raw = if raw == "" then now else or_default now (texts.from_iso raw)

  abbrev pub attempt_of : String → ℤ
  attempt_of raw = or_default (pos 1) (texts.read_int (if raw == "" then "1" else raw))

  abbrev pub payload_of : String → Payload
  payload_of raw = or_default texts.empty_payload (texts.loads (if raw == "" then "{}" else raw))

  -- decode_event
  unfoldable pub decode_event : Time → Dict String String → RunEvent Time Payload
  decode_event now fields = record {
    kind = lookup_or "" "kind" fields;
    wf_id = lookup_or "" "wf_id" fields;
    run_id = lookup_or "" "run_id" fields;
    ts = ts_of now (lookup_or "" "ts" fields);
    node_id = opt fields "node_id";
    activity_id = opt fields "activity_id";
    activity_type = opt fields "activity_type";
    attempt = attempt_of (lookup_or "1" "attempt" fields);
    worker_id = opt fields "worker_id";
    status = opt fields "status";
    error = opt fields "error";
    payload = payload_of (lookup_or "" "payload" fields);
  }
