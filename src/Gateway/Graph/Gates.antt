-- ===== src/Gateway/Graph/Gates.antt =====
-- Approval gates (graph.py: _gate_vertices, _wait_vertex). The code's queues share the vertices
-- with its list: here a queue holds their scheduled-event ids, and the list is a dict by that id.
pub mod Queues
pub mod Matching
pub mod Opening
pub mod Fates
use ancora.Prelude.{
  ℕ, Bool, true, false, not, ◌||◌, ◌&&◌, Option, none, some, String, List, [], ◌∷◌, ◌++◌, ltb, ◌==◌,
  string_key, nat_key, decimal, join, if◌then◌else◌,
}
use ancora.Prelude.Int.{pos, eq_ℤ}
use ancora.Number.{Float, Num, fnum, same}
use ancora.Dict.{Dict, lookup, lookup_or, insert}
use ancora.Gateway.History.{
  Json, null, boolean, integer, float, text, array, object, Items, nil, item, Fields, Wire,
  Datetime, get, has_fields, text_value,
}
use ancora.Gateway.Graph.{Sched, Reduction, Vertex}
use ancora.Gateway.Graph.Activities.{or_else, duration, graph_node}

abbrev parked_note : String
parked_note =
    "Parked here, consuming nothing. The wait is a durable condition, not a held thread — it survives worker restarts and resumes the instant a decision is signalled."

abbrev unindexed_note : String
unindexed_note =
    "This gate is waiting, but the write to the approval inbox failed, so it will not appear in the inbox. Signalling it still works."

abbrev expired_note : String
expired_note =
    "Nobody decided in time, so the gate expired and the workflow took its timeout branch. An expiry is a decision, not a failure."

abbrev ended_note : String
ended_note =
    "The run ended while this gate was still waiting, so no decision was ever recorded against it."

abbrev wait_note : String
wait_note =
    "The workflow is blocked on a condition — a signal, or a timer. It holds no worker and no thread while it waits, and resumes exactly here."

-- a text or another one
abbrev pub text_or_else : Option String → String → String
text_or_else none other = other
text_or_else (some t) other = t

-- a queue's match, with an earlier id that did not match
unfoldable pub past_id : ℕ → Option (ℕ × List ℕ) → Option (ℕ × List ℕ)
past_id sid none = none
past_id sid (some (found, rest)) = some (found, sid ∷ rest)

-- the first id of a queue that is less than `event_id`, and the queue without it
unfoldable pub take_before : ℕ → List ℕ → Option (ℕ × List ℕ)
take_before event_id [] = none
take_before event_id (sid ∷ queue) =
    let later = past_id sid (take_before event_id queue) in
    if ltb sid event_id then some (sid, queue) else later

-- f"{verb}{f' — {comment}' if isinstance(comment, str) and comment else ''}."
unfoldable pub verdict_note : String → Option String → String
verdict_note verb none = join (verb ∷ "." ∷ [])
verdict_note verb (some comment) = join (verb ∷ " — " ∷ comment ∷ "." ∷ [])

abbrev is_rejected : Option Bool → Bool
is_rejected (some false) = true
is_rejected _ = false

module _ ⦃f : Float⦄ where
  -- bool(value)
  unfoldable pub is_truthy : Option (Json Num) → Bool
  is_truthy none = false
  is_truthy (some null) = false
  is_truthy (some (boolean b)) = b
  is_truthy (some (integer n)) = not (eq_ℤ n (pos 0))
  is_truthy (some (float x)) = not (same x (fnum 0))
  is_truthy (some (text t)) = not (t == "")
  is_truthy (some (array nil)) = false
  is_truthy (some (array (item _ _))) = true
  is_truthy (some (object fields)) = has_fields fields

  -- value if isinstance(value, bool) else None
  unfoldable pub bool_value : Option (Json Num) → Option Bool
  bool_value (some (boolean b)) = some b
  bool_value _ = none

  -- decision.get(key), with no decision as an empty one
  unfoldable pub decided : Option (Fields Num) → String → Option (Json Num)
  decided none key = none
  decided (some decision) key = get key decision

module _ ⦃f : Float⦄ ⦃w : Wire Num⦄ where
  -- the gate's id: the one in the input, or the activity's
  unfoldable pub gate_of : Sched → String
  gate_of sched = text_or_else sched.gate_id sched.activity_id

  -- the queues and the vertices
  pub record Gates : Type 0 where
    pub unmatched : Dict String (List ℕ)
    pub vertices : Dict ℕ Vertex

  unfoldable pub opened : ℕ → Sched → Option (String × Option Datetime × Option String) → Vertex
  opened sid sched none = record {
    node =
        record (graph_node (join ("gate:" ∷ decimal sid ∷ [])) (gate_of sched) "gate" "waiting") {
          started_at = sched.scheduled_at;
          note = some unindexed_note;
        };
    layer_key = sched.decided_by;
  }
  opened sid sched (some (outcome, opened_at, _)) = record {
    node =
        record (graph_node (join ("gate:" ∷ decimal sid ∷ [])) (gate_of sched) "gate" "waiting") {
          started_at = or_else opened_at sched.scheduled_at;
          note = some (if outcome == "completed" then parked_note else unindexed_note);
        };
    layer_key = sched.decided_by;
  }

  -- the loop over the opens
  unfoldable pub open_gates : Reduction → List (ℕ × Sched) → Gates → Gates
  open_gates r [] g = g
  open_gates r ((sid, sched) ∷ opens) g =
      let queue = lookup_or [] (gate_of sched) g.unmatched in
      open_gates r opens (record {
        unmatched = insert (gate_of sched) (queue ++ sid ∷ []) g.unmatched;
        vertices = g.vertices ++ (sid, opened sid sched (lookup sid r.terminal)) ∷ [];
      })

  -- what a close writes to its vertex
  unfoldable pub resolve : Sched → Vertex → Vertex
  resolve sched v =
      let approved = bool_value (decided sched.decision "approved") in
      let timed_out = is_truthy (decided sched.decision "timed_out") in
      let comment = text_value (decided sched.decision "comment") in
      record v {
        node = record (v.node) {
          ended_at = sched.scheduled_at;
          duration_seconds = duration v.node.started_at sched.scheduled_at;
          approved = approved;
          timed_out = timed_out;
          decided_by = text_value (decided sched.decision "decided_by");
          state = "completed";
          note = some (
              if timed_out
              then expired_note
              else if is_rejected approved
              then verdict_note "Rejected" comment
              else verdict_note "Approved" comment);
        };
      }

  -- a write to the vertex with an id
  unfoldable pub update : ℕ → (Vertex → Vertex) → Dict ℕ Vertex → Dict ℕ Vertex
  update sid change [] = []
  update sid change ((i, v) ∷ vertices) =
      (i, if i == sid then change v else v) ∷ update sid change vertices

  unfoldable pub matched : String → Sched → Option (ℕ × List ℕ) → Gates → Gates
  matched gate sched none g = g
  matched gate sched (some (sid, rest)) g = record {
    unmatched = insert gate rest g.unmatched;
    vertices = update sid (resolve sched) g.vertices;
  }

  -- one close
  unfoldable pub close_gate : Sched → Gates → Gates
  close_gate sched g =
      let gate = text_or_else sched.gate_id "" in
      matched gate sched (take_before sched.event_id (lookup_or [] gate g.unmatched)) g

  -- the loop over the closes
  unfoldable pub close_gates : List Sched → Gates → Gates
  close_gates [] g = g
  close_gates (sched ∷ closes) g = close_gates closes (close_gate sched g)

  -- next((t for t in r.open_timers.values() if t is not None), None)
  unfoldable pub first_expiry : Dict String (Option Datetime) → Option Datetime
  first_expiry [] = none
  first_expiry ((timer, at) ∷ timers) = or_else at (first_expiry timers)

  unfoldable pub ended : Vertex → Vertex
  ended v = record v { node = record (v.node) { state = "canceled"; note = some ended_note } }

  -- The text begins with a letter and ends in a full stop, so the code's strip changes nothing.
  unfoldable pub expiring : Option Datetime → Vertex → Vertex
  expiring none v = v
  expiring (some expiry) v = record v {
    node = record (v.node) {
      ended_at = some expiry;
      note = some (
          join (
            text_or_else v.node.note ""
            ∷ " It expires at "
            ∷ w.isoformat expiry
            ∷ " if nobody decides."
            ∷ []));
    };
  }

  -- what becomes of a gate that is left open; with no timers there is no expiry
  unfoldable pub left_open : Bool → Reduction → Vertex → Vertex
  left_open true r v = ended v
  left_open false r v = expiring (first_expiry r.open_timers) v

  unfoldable pub update_all : List ℕ → (Vertex → Vertex) → Dict ℕ Vertex → Dict ℕ Vertex
  update_all [] change vertices = vertices
  update_all (sid ∷ sids) change vertices = update_all sids change (update sid change vertices)

  unfoldable pub leave_open :
      (Vertex → Vertex) → Dict String (List ℕ) → Dict ℕ Vertex → Dict ℕ Vertex
  leave_open change [] vertices = vertices
  leave_open change ((gate, queue) ∷ unmatched) vertices =
      leave_open change unmatched (update_all queue change vertices)

  abbrev pub no_gates : Gates
  no_gates = record { unmatched = []; vertices = [] }

  -- _gate_vertices
  unfoldable pub gate_vertices : List (ℕ × Sched) → List Sched → Reduction → Bool → Dict ℕ Vertex
  gate_vertices opens closes r terminal_run =
      let g = close_gates closes (open_gates r opens no_gates) in
      leave_open (left_open terminal_run r) g.unmatched g.vertices

  -- _wait_vertex
  unfoldable pub wait_vertex : ℕ → Vertex
  wait_vertex layer_key = record {
    node = record (graph_node "wait" "durable wait" "wait" "waiting") { note = some wait_note };
    layer_key = layer_key;
  }
