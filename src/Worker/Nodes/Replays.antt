-- ===== src/Worker/Nodes/Replays.antt =====
-- A node whose attempt is delivered again (nodes_runtime.py: run_node).
use ancora.Prelude.{
  List, if◌then◌else◌, ◌≡◌, refl, Bool, true, false, Option, none, some, String, [], ◌∷◌, ◌++◌,
  string_key, Result, ok,
}
use ancora.Number.{Float, Num}
use ancora.Dict.{Dict, lookup}
use ancora.Dict.Laws.{lookup-insert_self}
use ancora.Common.Inbox.{stored_or_run, get_or_run}
use ancora.Common.Projections.{
  Cost, LedgerKey, ledger_key, Projections, num_or_zero, is_free, row_of, insert_new, record_cost,
}
use ancora.Scheduler.Client.{Verdict}
use ancora.Worker.Nodes.{
  NodeRequest, NodeResult, Completion, send, Failure, World, Writes, admission, run_effect,
  completion, report, run_admitted, run_after, run_node,
}

module _ ⦃f : Float⦄ where
  send_if :
      (enabled : Bool) (c : Completion) (completions : List Completion)
      → send enabled c completions ≡ (if enabled then completions ++ c ∷ [] else completions)
  unfolding send
  send_if false c completions = refl
  send_if true c completions = refl

module _ ⦃f : Float⦄ {J T : Type 0} where
  charged :
      (key : LedgerKey) (node_type : String) (cost : Cost) (p : Projections J T)
      → p.enabled ≡ true
      → is_free cost ≡ false
      → lookup key p.ledger ≡ none
      → lookup key (record_cost true key node_type cost p).ledger ≡ some (row_of node_type cost)
  unfolding record_cost insert_new
  charged key node_type cost p on costs new =
      rw (on, costs, new) (lookup-insert_self key (row_of node_type cost) p.ledger)

  -- Where the scheduler admits a call or its client is disabled, the node is not idempotent, the
  -- inbox has a result for its key, the database takes the write, the projections are enabled, the
  -- result's cost is not zero and the ledger has no row for this attempt: the call answers with
  -- the stored result and leaves the inbox as it was, whatever the effect would do; but the ledger
  -- gets a row with the stored cost under the new attempt's number, and where the client is
  -- enabled the stored dollars are reported to the scheduler.
  pub replay_charges_again :
      (least : Num) (enabled : Bool) (verdict : Option Verdict) (req : NodeRequest) (io : Writes)
      (registry : Dict String Bool) (effect : Result Failure (NodeResult J)) (s : World J T)
      (r : NodeResult J)
      → admission least enabled verdict ≡ none
      → lookup req.type_name registry ≡ some false
      → lookup req.key s.inbox.store ≡ some r
      → io.reached ≡ true
      → s.projections.enabled ≡ true
      → is_free r.cost ≡ false
      → lookup ((req.wf_id, req.node_id), req.attempt) s.projections.ledger ≡ none
      → let (answer, s') = run_node least enabled verdict req io registry effect s in
        (answer ≡ ok r)
        × (s'.inbox ≡ s.inbox)
        × (lookup ((req.wf_id, req.node_id), req.attempt) s'.projections.ledger
            ≡ some (row_of req.type_name r.cost))
        × (s'.completions ≡ (
            if enabled
            then s.completions ++ completion req (num_or_zero r.cost.usd) ∷ []
            else s.completions))
  unfolding run_node run_after run_admitted run_effect get_or_run stored_or_run report
  replay_charges_again least enabled verdict req io registry effect s r admitted guarded stored
        reached on costs new =
      let key : LedgerKey = ((req.wf_id, req.node_id), req.attempt) in
      rw (admitted, guarded, stored, reached)
        (
          refl,
          refl,
          charged key req.type_name r.cost s.projections on costs new,
          send_if enabled (completion req (num_or_zero r.cost.usd)) s.completions,
        )
