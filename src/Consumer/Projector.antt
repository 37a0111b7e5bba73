-- ===== src/Consumer/Projector.antt =====
-- services/event-consumer/ancora_event_consumer/projector.py: the run_event rows, and one pass of
-- the loop. The consumer group of the stream is a parameter, `StreamGroup`.
pub mod Batches
pub mod Delivery
mod Tests
use ancora.Prelude.{
  ℕ, ◌+◌, ◌≡◌, Bool, true, false, Option, none, some, String, List, [], ◌∷◌, map, any, ◌==◌,
  string_key, Result, ok, raised, if◌then◌else◌,
}
use ancora.Prelude.Int.{ℤ}
use ancora.Dict.{Dict, lookup, insert}
use ancora.Common.Events.{RunEvent, text_or_none}

-- a row of run_event, without its own id and clock
pub record RunEventRow (Time Payload : Type 0) : Type 0 where
  pub stream_id : String
  pub temporal_wf_id : String
  pub temporal_run_id : Option String
  pub kind : String
  pub node_id : Option String
  pub activity_id : Option String
  pub activity_type : Option String
  pub attempt : ℤ
  pub worker_id : Option String
  pub status : Option String
  pub error : Option String
  pub payload : Option Payload
  pub event_ts : Time

module _ {Time Payload : Type 0} where
  -- event_row_values; `is_empty` is the test for the empty dict
  unfoldable pub event_row_values :
      (Payload → Bool) → String → RunEvent Time Payload → RunEventRow Time Payload
  event_row_values is_empty stream_id e = record {
    stream_id = stream_id;
    temporal_wf_id = e.wf_id;
    temporal_run_id = text_or_none e.run_id;
    kind = e.kind;
    node_id = e.node_id;
    activity_id = e.activity_id;
    activity_type = e.activity_type;
    attempt = e.attempt;
    worker_id = e.worker_id;
    status = e.status;
    error = e.error;
    payload = if is_empty e.payload then none else some e.payload;
    event_ts = e.ts;
  }

  -- one row of INSERT … ON CONFLICT (stream_id) DO NOTHING: 1 where it is inserted
  unfoldable pub insert_row :
      RunEventRow Time Payload
      → Option (RunEventRow Time Payload)
      → Dict String (RunEventRow Time Payload)
      → ℕ × Dict String (RunEventRow Time Payload)
  insert_row r (some _) table = (0, table)
  insert_row r none table = (1, insert r.stream_id r table)

  -- the statement, and its rowcount
  unfoldable pub insert_rows :
      List (RunEventRow Time Payload)
      → Dict String (RunEventRow Time Payload)
      → ℕ × Dict String (RunEventRow Time Payload)
  insert_rows [] table = (0, table)
  insert_rows (r ∷ rows) table =
      let (n, table') = insert_row r (lookup r.stream_id table) table in
      let (written, table'') = insert_rows rows table' in (n + written, table'')

  unfoldable pub rows_of :
      (Payload → Bool) → List (String × RunEvent Time Payload) → List (RunEventRow Time Payload)
  rows_of is_empty [] = []
  rows_of is_empty ((stream_id, e) ∷ batch) =
      event_row_values is_empty stream_id e ∷ rows_of is_empty batch

  -- persist_batch
  unfoldable pub persist_batch :
      (Payload → Bool)
      → List (String × RunEvent Time Payload)
      → Dict String (RunEventRow Time Payload)
      → ℕ × Dict String (RunEventRow Time Payload)
  persist_batch is_empty batch table = insert_rows (rows_of is_empty batch) table

-- the ids of a batch
unfoldable pub ids_of {ℓ} : {A : Type ℓ} → List (String × A) → List String
ids_of [] = []
ids_of ((i, _) ∷ batch) = i ∷ ids_of batch

abbrev pub listed : String → List String → Bool
listed i ids = any (λ j. j == i) ids

-- A consumer group that is read with the id ">", as read_group reads it: an entry is given out
-- once, and neither a later read nor an acknowledgement makes it new again.
pub record StreamGroup (G A : Type 0) : Type 0 where
  pub read : G → List (String × A) × G
  pub ack : List String → G → G
  pub delivered : String → G → Bool
  pub read_new : (g : G) (i : String) → listed i (ids_of (read g).0) ≡ true → delivered i g ≡ false
  pub read_marks :
      (g : G) (i : String) → listed i (ids_of (read g).0) ≡ true → delivered i (read g).1 ≡ true
  pub read_keeps : (g : G) (i : String) → delivered i g ≡ true → delivered i (read g).1 ≡ true
  pub ack_keeps :
      (ids : List String) (g : G) (i : String)
      → delivered i g ≡ true
      → delivered i (ack ids g) ≡ true

-- where a pass raises: nowhere, in persist_batch, or in ack
pub data Fault : Type 0 where
  no_fault persist_fault ack_fault : Fault

-- the exception of the database, or of Redis
pub data PassError : Type 0 where
  not_persisted not_acked : PassError

module _ {Time Payload G : Type 0} (group : StreamGroup G (RunEvent Time Payload))
    (is_empty : Payload → Bool) where
  -- after the read: the claimed batch, the group, the table
  pass :
      Fault
      → List (String × RunEvent Time Payload)
      → G
      → Dict String (RunEventRow Time Payload)
      → Result PassError ℕ × G × Dict String (RunEventRow Time Payload)
  pass fault [] g table = (ok 0, g, table)
  pass persist_fault (e ∷ batch) g table = (raised not_persisted, g, table)
  pass ack_fault (e ∷ batch) g table =
      (raised not_acked, g, (persist_batch is_empty (e ∷ batch) table).1)
  pass no_fault (e ∷ batch) g table =
      let (written, table') = persist_batch is_empty (e ∷ batch) table in
      (ok written, group.ack (ids_of (e ∷ batch)) g, table')

  -- Projector.run_once
  unfoldable pub run_once :
      Fault
      → G
      → Dict String (RunEventRow Time Payload)
      → Result PassError ℕ × G × Dict String (RunEventRow Time Payload)
  unfolding pass
  run_once fault g table = let (batch, g') = group.read g in pass fault batch g' table

  -- run_forever, for as many passes as there are faults: it goes on after one that raises
  unfoldable pub run_passes :
      List Fault
      → G
      → Dict String (RunEventRow Time Payload)
      → G × Dict String (RunEventRow Time Payload)
  run_passes [] g table = (g, table)
  run_passes (fault ∷ faults) g table =
      let (_, g', table') = run_once fault g table in run_passes faults g' table'
