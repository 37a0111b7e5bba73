-- ===== src/Common/Events/Transport.antt =====
-- What an event is after its way through a stream (events.py).
use ancora.Prelude.{◌≡◌, refl, Option, none, some, String, string_key}
use ancora.Prelude.Int.{ℤ}
use ancora.Dict.{lookup, lookup_or}
use ancora.Common.Events.{
  Texts, RunEvent, or_default, text_or_empty, text_or_none, encode_event, ts_of, attempt_of,
  payload_of, decode_event,
}

-- None for a text that is empty
abbrev pub nonempty : Option String → Option String
nonempty none = none
nonempty (some s) = text_or_none s

text_or_none-or_empty : (o : Option String) → text_or_none (text_or_empty o) ≡ nonempty o
text_or_none-or_empty none = refl
text_or_none-or_empty (some s) = refl

module _ {Time Payload : Type 0} (texts : Texts Time Payload) where
  -- what the text of a time is read as: the present, where it is not read
  abbrev pub time_read : Time → Time → Time
  time_read now t = or_default now (texts.from_iso (texts.iso t))

  -- what the text of a payload is read as: an empty object, where it is not read as an object
  abbrev pub payload_read : Payload → Payload
  payload_read p = or_default texts.empty_payload (texts.loads (texts.dumps p))

  ts_of-iso : (now t : Time) → ts_of texts now (texts.iso t) ≡ time_read now t
  ts_of-iso now t = rw (texts.iso_nonempty t) refl

  attempt_of-show_int : (n : ℤ) → attempt_of texts (texts.show_int n) ≡ n
  attempt_of-show_int n = rw (texts.show_int_nonempty n, texts.read_int-show_int n) refl

  payload_of-dumps : (p : Payload) → payload_of texts (texts.dumps p) ≡ payload_read p
  payload_of-dumps p = rw (texts.dumps_nonempty p) refl

  -- An event that is encoded and decoded is the same event, except that its time and its payload
  -- are what their texts are read as, and that an optional text which is empty comes back as None.
  pub decode_event-encode_event :
      (now : Time) (e : RunEvent Time Payload)
      → decode_event texts now (encode_event texts e) ≡ record e {
        ts = time_read now e.ts;
        payload = payload_read e.payload;
        node_id = nonempty e.node_id;
        activity_id = nonempty e.activity_id;
        activity_type = nonempty e.activity_type;
        worker_id = nonempty e.worker_id;
        status = nonempty e.status;
        error = nonempty e.error;
      }
  unfolding decode_event encode_event lookup_or lookup
  decode_event-encode_event now e =
      rw
        (
          ts_of-iso now e.ts,
          attempt_of-show_int e.attempt,
          payload_of-dumps e.payload,
          text_or_none-or_empty e.node_id,
          text_or_none-or_empty e.activity_id,
          text_or_none-or_empty e.activity_type,
          text_or_none-or_empty e.worker_id,
          text_or_none-or_empty e.status,
          text_or_none-or_empty e.error,
        )
        refl
