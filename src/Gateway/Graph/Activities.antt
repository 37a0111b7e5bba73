-- ===== src/Gateway/Graph/Activities.antt =====
-- An activity's vertex (graph.py: _activity_state, _duration, _activity_vertex).
pub mod States
use ancora.Prelude.{
  ℕ, ◌-◌, max, Bool, true, false, Option, none, some, String, List, [], ◌∷◌, nat_eq, ltb, ◌==◌,
  string_key, nat_key, decimal, join, if◌then◌else◌,
}
use ancora.Number.{Float, Num, fnum, fmax}
use ancora.Dict.{Dict, lookup}
use ancora.Gateway.History.{Wire, Datetime, PendingActivity, is_started, text_or, dt, node_label}
use ancora.Gateway.Graph.{Sched, Reduction, GraphNode, Vertex}
use ancora.Gateway.Graph.Reducing.{attempt_or_one}

-- first or second
abbrev pub or_else {ℓ} : {A : Type ℓ} → Option A → Option A → Option A
or_else none b = b
or_else (some a) b = some a

-- text or None, of a text that may be absent
unfoldable pub present : Option String → Option String
present none = none
present (some t) = text_or none t

-- the attempts, the worker and the start, with what is pending
abbrev pub live_attempts : Option PendingActivity → ℕ → ℕ
live_attempts none n = n
live_attempts (some live) n = max n (attempt_or_one live.attempt)

abbrev pub live_worker : Option PendingActivity → Option String → Option String
live_worker none worker = worker
live_worker (some live) worker = text_or worker live.last_worker_identity

unfoldable pub attempt_note : ℕ → Option String
attempt_note attempts =
    if ltb 1 attempts
    then some (
        join (
          "Attempt "
          ∷ decimal attempts
          ∷ ". The earlier "
          ∷ (if nat_eq attempts 2 then "attempt" else "attempts")
          ∷ " left no result — rescheduled from history, not re-run from the start of the workflow."
          ∷ []))
    else none

module _ ⦃f : Float⦄ ⦃w : Wire Num⦄ where
  pub record ActivityState : Type 0 where
    pub state : String
    pub attempts : ℕ
    pub worker : Option String
    pub started_at : Option Datetime
    pub ended_at : Option Datetime
    pub failure : Option String

  abbrev pub Start : Type 0
  Start = Option Datetime × String × ℕ

  abbrev start_time : Option Start → Option Datetime
  start_time none = none
  start_time (some (at, worker, attempt)) = at

  abbrev pub start_worker : Option Start → Option String
  start_worker none = none
  start_worker (some (at, worker, attempt)) = text_or none worker

  abbrev pub start_attempt : Option Start → ℕ
  start_attempt none = 1
  start_attempt (some (at, worker, attempt)) = attempt

  abbrev live_start : Option PendingActivity → Option Datetime → Option Datetime
  live_start none at = at
  live_start (some live) at = or_else at (dt (some live.last_started_time))

  -- the state without a terminal event
  unfoldable pub unfinished :
      Sched → Option PendingActivity → Option Start → ℕ → Option String → ActivityState
  unfinished sched (some live) start attempts worker =
      if is_started live.state
      then record {
        state = "running";
        attempts = attempts;
        worker = worker;
        started_at = dt (some live.last_started_time);
        ended_at = none;
        failure = present live.last_failure;
      }
      else record {
        state = if ltb 1 attempts then "retrying" else "queued";
        attempts = attempts;
        worker = worker;
        started_at = sched.scheduled_at;
        ended_at = none;
        failure = present live.last_failure;
      }
  unfinished sched none (some start) attempts worker = record {
    state = "running";
    attempts = attempts;
    worker = worker;
    started_at = start.0;
    ended_at = none;
    failure = none;
  }
  unfinished sched none none attempts worker = record {
    state = "queued";
    attempts = attempts;
    worker = none;
    started_at = sched.scheduled_at;
    ended_at = none;
    failure = none;
  }

  unfoldable pub state_of :
      Sched
      → Option (String × Option Datetime × Option String)
      → Option Start
      → Option PendingActivity
      → ActivityState
  state_of sched (some (outcome, ended_at, failure)) start live = record {
    state = outcome;
    attempts = live_attempts live (start_attempt start);
    worker = live_worker live (start_worker start);
    started_at = or_else (live_start live (start_time start)) sched.scheduled_at;
    ended_at = ended_at;
    failure = failure;
  }
  state_of sched none start live =
      unfinished sched live start (live_attempts live (start_attempt start))
        (live_worker live (start_worker start))

  -- _activity_state
  unfoldable pub activity_state :
      ℕ → Sched → Reduction → Dict String PendingActivity → ActivityState
  activity_state sid sched r pending =
      state_of sched (lookup sid r.terminal) (lookup sid r.started)
        (lookup sched.activity_id pending)

  -- _duration
  unfoldable pub duration : Option Datetime → Option Datetime → Option Num
  duration (some started_at) (some ended_at) = some (fmax (fnum 0) (w.elapsed ended_at started_at))
  duration _ _ = none

  -- a node with GraphNodeOut's defaults
  abbrev pub graph_node : String → String → String → String → GraphNode
  graph_node id label kind state = record {
    id = id;
    label = label;
    kind = kind;
    node_type = none;
    activity_type = none;
    activity_id = none;
    layer = 0;
    state = state;
    attempts = 1;
    lost_attempts = 0;
    worker = none;
    queue = none;
    priority = none;
    started_at = none;
    ended_at = none;
    duration_seconds = none;
    failure = none;
    approved = none;
    decided_by = none;
    timed_out = false;
    note = none;
    on_critical_path = false;
  }

  -- _activity_vertex
  unfoldable pub activity_vertex : ℕ → Sched → Reduction → Dict String PendingActivity → Vertex
  activity_vertex sid sched r pending =
      let s = activity_state sid sched r pending in
      let label = node_label sched.activity_type sched.activity_id sched.node_id in
      let kind = if sched.activity_type == "run_node" then "node" else "activity" in
      record {
        node = record (graph_node (join ("a" ∷ decimal sid ∷ [])) label kind s.state) {
          node_type = sched.node_type;
          activity_type = some sched.activity_type;
          activity_id = some sched.activity_id;
          attempts = s.attempts;
          lost_attempts = s.attempts - 1;
          worker = s.worker;
          queue = text_or none sched.task_queue;
          priority = sched.priority;
          started_at = s.started_at;
          ended_at = s.ended_at;
          duration_seconds = duration s.started_at s.ended_at;
          failure = s.failure;
          note = attempt_note s.attempts;
        };
        layer_key = sched.decided_by;
      }
