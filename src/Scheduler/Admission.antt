-- ===== src/Scheduler/Admission.antt =====
-- services/scheduler/ancora_scheduler/engine.py: the requests, decisions, counters and state of the
-- admission engine. A reason keeps the values that are formatted into it.
use Prim.Native.String.{◌++◌ as text_append}
use ancora.Prelude.{
  ℕ, Bool, Option, some, String, [], ◌==◌, string_key, pair_key, Result, if◌then◌else◌,
}
use ancora.Prelude.Int.{ℤ}
use ancora.Errors.{ValueError}
use ancora.Number.{Float, Num}
use ancora.Dict.{Dict, bump}
use ancora.Common.RateLimit.{Buckets}
use ancora.Scheduler.Backlog.{InflightTracker}
use ancora.Scheduler.Fairness.{FairShare, Lanes}
use ancora.Scheduler.Budget.{BudgetLedger, Message}
use ancora.Scheduler.Config.{SchedulerConfig}
use ancora.Scheduler.ConfigStore.{ConfigStore, LoadError}

pub data Outcome : Type 0 where
  admit defer reject : Outcome

abbrev pub outcome_name : Outcome → String
outcome_name admit = "admit"
outcome_name defer = "defer"
outcome_name reject = "reject"

pub data Rule : Type 0 where
  no_rule deadline budget backpressure fairness rate_limit : Rule

abbrev pub rule_name : Rule → String
rule_name no_rule = "none"
rule_name deadline = "deadline"
rule_name budget = "budget"
rule_name backpressure = "backpressure"
rule_name fairness = "fairness"
rule_name rate_limit = "rate_limit"

-- f"{run_id}:{node_id}"
unfoldable pub slot_token : String → String → String
slot_token run_id node_id = text_append (text_append run_id ":") node_id

module _ ⦃f : Float⦄ where
  pub record AdmissionRequest : Type 0 where
    pub run_id : String
    pub node_id : String
    pub node_type : String
    pub task_queue : String
    pub tenant : String
    pub priority : ℤ
    pub attempt : ℤ
    pub provider : Option String
    pub model : Option String
    pub tokens : Num
    pub estimated_usd : Num
    pub deadline_seconds : Option Num

  pub data Reason : Type 0 where
    no_reason : Reason
    -- the node
    deadline_passed : String → Reason
    -- the verdict's reason, or "budget exceeded"
    over_budget : Option Message → Reason
    -- queue, depth, whether the hard mark is meant, the mark
    at_watermark : String → ℕ → Bool → ℕ → Reason
    -- tenant, queue, contenders
    ahead_of_share : String → String → ℕ → Reason
    -- bucket, rps, burst, node, wait
    rate_limited : String → Num → Num → String → Num → Reason

  pub record AdmissionDecision : Type 0 where
    pub outcome : Outcome
    pub rule : Rule
    pub retry_after : Num
    pub reason : Reason
    pub warning : Option Message
    pub timeout_seconds : Option Num
    pub queue_depth : ℕ

  pub record AdmissionStats : Type 0 where
    pub by_outcome : Dict String ℕ
    pub by_rule : Dict String ℕ
    pub by_queue_outcome : Dict (String × String) ℕ
    pub rate_limit_defers : Dict String ℕ

  -- decision.rule == "rate_limit" and provider
  bump_defers : Rule → Option String → Dict String ℕ → Dict String ℕ
  bump_defers rate_limit (some provider) defers =
      if provider == "" then defers else bump provider defers
  bump_defers _ _ defers = defers

  -- AdmissionStats.record
  unfoldable pub record_decision :
      String → AdmissionDecision → Option String → AdmissionStats → AdmissionStats
  unfolding bump_defers
  record_decision queue d provider s = record {
    by_outcome = bump (outcome_name d.outcome) s.by_outcome;
    by_rule = bump (rule_name d.rule) s.by_rule;
    by_queue_outcome = bump (queue, outcome_name d.outcome) s.by_queue_outcome;
    rate_limit_defers = bump_defers d.rule provider s.rate_limit_defers;
  }

  abbrev pub empty_stats : AdmissionStats
  empty_stats = record {
    by_outcome = [];
    by_rule = [];
    by_queue_outcome = [];
    rate_limit_defers = [];
  }

  pub record AdmissionEngine : Type 0 where
    pub store : ConfigStore
    pub limiter : Buckets
    pub inflight : InflightTracker
    pub fair : FairShare
    pub ledger : BudgetLedger
    pub lanes : Lanes
    pub stats : AdmissionStats

  -- What one call of `admit` sees of its surroundings: the policy file, and each reading of the
  -- clock in the order of the code.
  pub record Surroundings : Type 0 where
    pub stat : Option Num
    pub loaded : Result LoadError SchedulerConfig
    pub depth_at : Num
    pub fair_at : Num
    pub rate_at : Num
    pub slot_swept_at : Num
    pub slot_at : Num

  pub data EngineError : Type 0 where
    load_error : LoadError → EngineError
    value_error : ValueError → EngineError

  -- the decision or the exception, and the state that the call leaves
  abbrev pub Answer : Type 0
  Answer = Result EngineError AdmissionDecision × AdmissionEngine

  -- what the earlier governors have found
  pub record Found : Type 0 where
    pub cfg : SchedulerConfig
    pub depth : ℕ
    pub timeout_seconds : Option Num
    pub warning : Option Message
