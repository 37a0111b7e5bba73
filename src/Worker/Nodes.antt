-- ===== src/Worker/Nodes.antt =====
-- services/activity-workers/ancora_activity_worker/nodes_runtime.py: _admit and run_node. The
-- scheduler's verdict, the registry of nodes and what executing the node does are arguments; the
-- inbox, the projections, the recorder and the reports to the scheduler are the state. The inbox is
-- the guard in memory, as which the table's guard answers where attempts do not overlap.
pub mod Branches
pub mod Replays
pub mod Slots
mod Tests
use ancora.Prelude.{
  ℕ, Bool, true, false, not, Option, none, some, String, List, [], ◌∷◌, ◌++◌, ◌==◌, string_key,
  Result, ok, raised, if◌then◌else◌,
}
use ancora.Number.{Float, Num, fnum, fmax}
use ancora.Dict.{Dict, lookup}
use ancora.Common.Inbox.{InMemoryInboxGuard, get_or_run}
use ancora.Common.Projections.{Cost, Projections, num_or_zero, record_cost, record_retry}
use ancora.Scheduler.Client.{Verdict}

module _ ⦃f : Float⦄ where
  -- what run_node is asked to do
  pub record NodeRequest : Type 0 where
    pub type_name : String
    pub node_id : String
    pub key : String
    pub wf_id : String
    pub tenant : String
    pub attempt : ℕ
    pub activity_id : String

  -- {"output": …, "cost": …}
  pub record NodeResult (J : Type 0) : Type 0 where
    pub output : J
    pub cost : Cost

  -- what executing a node may raise: a NodeError, or another exception
  pub data Failure : Type 0 where
    node_error : String → Bool → Option Num → Failure
    other_error : Failure

  -- what the activity raises
  pub data ActivityError : Type 0 where
    scheduler_rejected : String → ActivityError
    -- the rule, the reason and next_retry_delay
    scheduler_deferred : String → String → Num → ActivityError
    node_failed : String → Bool → ActivityError
    crashed : ActivityError

  -- a report of completion to the scheduler
  pub record Completion : Type 0 where
    pub run_id : String
    pub node_id : String
    pub tenant : String
    pub usd : Num

  pub record World (J T : Type 0) : Type 0 where
    pub inbox : InMemoryInboxGuard (NodeResult J)
    pub projections : Projections J T
    pub recorded : List String
    pub completions : List Completion

  -- how a write to the projections goes, and error[:4000]
  pub record Writes : Type 0 where
    pub reached : Bool
    pub cut : String → String

  -- a call of the client that raises ends the activity
  abbrev refusal : Num → Option Verdict → Option ActivityError
  refusal least none = some crashed
  refusal least (some v) =
      if v.outcome == "admit"
      then none
      else if v.outcome == "reject"
      then some (scheduler_rejected v.reason)
      else some (scheduler_deferred v.rule v.reason (fmax v.retry_after least))

  -- _admit: what it raises. `least` is the code's 0.05 seconds.
  unfoldable pub admission : Num → Bool → Option Verdict → Option ActivityError
  admission least false verdict = none
  admission least true verdict = refusal least verdict

  abbrev pub completion : NodeRequest → Num → Completion
  completion req usd = record {
    run_id = req.wf_id;
    node_id = req.node_id;
    tenant = req.tenant;
    usd = usd;
  }

  -- SchedulerClient.complete: a client that is disabled sends nothing
  unfoldable pub send : Bool → Completion → List Completion → List Completion
  send false c completions = completions
  send true c completions = completions ++ c ∷ []

  module _ {J : Type 0} where
    -- the effect, in the inbox where the node is not idempotent
    unfoldable pub run_effect :
        Bool
        → String
        → Result Failure (NodeResult J)
        → InMemoryInboxGuard (NodeResult J)
        → Result Failure (NodeResult J) × InMemoryInboxGuard (NodeResult J)
    run_effect true key effect g = (effect, g)
    run_effect false key effect g = get_or_run key effect g

  module _ {J T : Type 0} where
    -- what run_node does with the outcome; `enabled` is the scheduler client's
    unfoldable pub report :
        Bool
        → NodeRequest
        → Writes
        → Result Failure (NodeResult J)
        → World J T
        → Result ActivityError (NodeResult J) × World J T
    report enabled req io (ok r) s = (
      ok r,
      record s {
        recorded = s.recorded ++ "Completed" ∷ [];
        projections =
            record_cost io.reached ((req.wf_id, req.node_id), req.attempt) req.type_name r.cost
              s.projections;
        completions = send enabled (completion req (num_or_zero r.cost.usd)) s.completions;
      },
    )
    report enabled req io (raised (node_error message transient retry_after)) s = (
      raised (node_failed message (not transient)),
      record s {
        recorded = s.recorded ++ "Failed" ∷ [];
        projections =
            record_retry io.reached io.cut
              (record {
                wf_id = req.wf_id;
                node_id = req.node_id;
                node_type = req.type_name;
                attempt = req.attempt;
                error = message;
                transient = transient;
                retry_after_seconds = retry_after;
                worker_id = some req.activity_id;
              })
              s.projections;
        completions = send enabled (completion req (fnum 0)) s.completions;
      },
    )
    report enabled req io (raised other_error) s = (raised crashed, s)

    -- an admitted call; a type that is not registered raises
    unfoldable pub run_admitted :
        Bool
        → NodeRequest
        → Writes
        → Option Bool
        → Result Failure (NodeResult J)
        → World J T
        → Result ActivityError (NodeResult J) × World J T
    run_admitted enabled req io none effect s = (raised crashed, s)
    run_admitted enabled req io (some idempotent) effect s =
        let (outcome, inbox) = run_effect idempotent req.key effect s.inbox in
        report enabled req io outcome
          (record s { recorded = s.recorded ++ "Running" ∷ []; inbox = inbox })

    unfoldable pub run_after :
        Bool
        → Option ActivityError
        → NodeRequest
        → Writes
        → Option Bool
        → Result Failure (NodeResult J)
        → World J T
        → Result ActivityError (NodeResult J) × World J T
    run_after enabled (some refused) req io registered effect s = (raised refused, s)
    run_after enabled none req io registered effect s =
        run_admitted enabled req io registered effect s

    -- run_node: the registry says of each type whether its nodes are idempotent
    unfoldable pub run_node :
        Num
        → Bool
        → Option Verdict
        → NodeRequest
        → Writes
        → Dict String Bool
        → Result Failure (NodeResult J)
        → World J T
        → Result ActivityError (NodeResult J) × World J T
    run_node least enabled verdict req io registry effect s =
        run_after enabled (admission least enabled verdict) req io (lookup req.type_name registry)
          effect s
