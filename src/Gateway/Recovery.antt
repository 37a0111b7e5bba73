-- ===== src/Gateway/Recovery.antt =====
-- services/api-gateway/ancora_api/recovery.py: what a worker's death did to a run. This file has
-- the data; the children have the passes that build_recovery makes over it.
pub mod Liveness
pub mod Reducing
pub mod Spans
pub mod Deadlines
pub mod Windows
pub mod Tasks
pub mod Building
mod Tests
use ancora.Prelude.{ℕ, Bool, Option, String, List}
use ancora.Number.{Float, Num, fnum}
use ancora.Dict.{Dict}
use ancora.Gateway.History.{Timestamp, Wire, Datetime}

-- FleetLiveness; a set is a list of its members
pub record FleetLiveness : Type 0 where
  pub live_identities : List String
  pub stale_identities : List String
  pub known_hosts : List String
  pub live_hosts : List String
  pub live_queues : List String

-- PendingWorkflowTaskInfo
pub record PendingWorkflowTask : Type 0 where
  pub scheduled_time : Timestamp
  pub started_time : Timestamp
  pub attempt : ℕ

module _ ⦃f : Float⦄ ⦃w : Wire Num⦄ where
  -- WorkerOut, as the view reads it
  pub record Worker : Type 0 where
    pub host : Option String
    pub pid : Option ℕ
    pub task_queues : List String
    pub status : String
    pub last_heartbeat_at : Option Datetime

  -- _Scheduled
  pub record Scheduled : Type 0 where
    pub event_id : ℕ
    pub activity_id : String
    pub activity_type : String
    pub task_queue : String
    pub scheduled_at : Option Datetime
    pub start_to_close : Option Num
    pub heartbeat : Option Num
    pub maximum_attempts : ℕ
    pub node_id : String

  -- RecoveryMarkerOut
  pub record Marker : Type 0 where
    pub at_time : Datetime
    pub kind : String
    pub label : String
    pub detail : Option String

  -- _Reduction, and the loop's last workflow identity and completed activities
  pub record Reduction : Type 0 where
    pub scheduled : Dict ℕ Scheduled
    pub started : Dict ℕ (Option Datetime × String × ℕ × Option String)
    pub terminal : Dict ℕ (String × Option Datetime × Option String)
    pub markers : List Marker
    pub workers : List String
    pub replayed_activities : ℕ
    pub handoffs : ℕ
    pub completed_activities : ℕ
    pub last_identity : Option String

  -- RecoverySpanOut
  pub record Span : Type 0 where
    pub activity_id : String
    pub node_id : String
    pub activity_type : String
    pub attempt : ℕ
    pub worker : Option String
    pub outcome : String
    pub started_at : Option Datetime
    pub ended_at : Option Datetime
    pub failure : Option String
    pub lost_attempts : ℕ
    pub approximate : Bool

  -- RecoveryWindowOut
  pub record Window : Type 0 where
    pub activity_id : String
    pub node_id : String
    pub kind : String
    pub clock : Option String
    pub attempt : ℕ
    pub worker : Option String
    pub worker_state : String
    pub queue : Option String
    pub queue_has_worker : Option Bool
    pub started_at : Option Datetime
    pub deadline_at : Option Datetime
    pub timeout_seconds : Option Num
    pub elapsed_seconds : Num
    pub remaining_seconds : Option Num
    pub heartbeat_at : Option Datetime
    pub heartbeat_timeout_seconds : Option Num
    pub reason : String

  -- RunRecoveryOut
  pub record RunRecovery : Type 0 where
    pub run_id : String
    pub status : String
    pub now : Datetime
    pub workers : List String
    pub spans : List Span
    pub markers : List Marker
    pub windows : List Window
    pub replayed_activities : ℕ
    pub handoffs : ℕ
