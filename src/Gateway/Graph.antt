-- ===== src/Gateway/Graph.antt =====
-- services/api-gateway/ancora_api/graph.py: the graph that a run executed, from its history.
-- This file has the data; the children have the passes that build_graph makes over it.
pub mod Reducing
pub mod Activities
pub mod Gates
pub mod Labels
pub mod CriticalPath
pub mod Layers
pub mod Building
mod Tests
use ancora.Prelude.{ℕ, Bool, Option, String, List}
use ancora.Number.{Float, Num}
use ancora.Dict.{Dict}
use ancora.Gateway.History.{Fields, Wire, Datetime}

abbrev pub gate_open : String
gate_open = "open_approval_gate"

abbrev pub gate_close : String
gate_close = "close_approval_gate"

module _ ⦃f : Float⦄ ⦃w : Wire Num⦄ where
  -- _Sched
  pub record Sched : Type 0 where
    pub event_id : ℕ
    pub decided_by : ℕ
    pub activity_id : String
    pub activity_type : String
    pub task_queue : String
    pub scheduled_at : Option Datetime
    pub node_id : Option String
    pub node_type : Option String
    pub priority : Option String
    pub gate_id : Option String
    pub decision : Option (Fields Num)

  -- _Reduction; an activity's start is its time, worker and attempt, its end is the outcome, the
  -- time and the failure
  pub record Reduction : Type 0 where
    pub workflow_name : String
    pub scheduled : Dict ℕ Sched
    pub started : Dict ℕ (Option Datetime × String × ℕ)
    pub terminal : Dict ℕ (String × Option Datetime × Option String)
    pub open_timers : Dict String (Option Datetime)
    pub signals : List String
    pub parked : Bool

  -- GraphNodeOut
  pub record GraphNode : Type 0 where
    pub id : String
    pub label : String
    pub kind : String
    pub node_type : Option String
    pub activity_type : Option String
    pub activity_id : Option String
    pub layer : ℕ
    pub state : String
    pub attempts : ℕ
    pub lost_attempts : ℕ
    pub worker : Option String
    pub queue : Option String
    pub priority : Option String
    pub started_at : Option Datetime
    pub ended_at : Option Datetime
    pub duration_seconds : Option Num
    pub failure : Option String
    pub approved : Option Bool
    pub decided_by : Option String
    pub timed_out : Bool
    pub note : Option String
    pub on_critical_path : Bool

  -- _Vertex
  pub record Vertex : Type 0 where
    pub node : GraphNode
    pub layer_key : ℕ
