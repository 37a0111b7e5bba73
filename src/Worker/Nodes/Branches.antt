-- ===== src/Worker/Nodes/Branches.antt =====
-- What each outcome of a node reports (nodes_runtime.py: run_node).
use mathlib.Core.List.{append-nil}
use ancora.Prelude.{
  ◌≡◌, refl, sym, Bool, true, false, not, Option, none, some, String, List, [], ◌∷◌, ◌++◌, ◌==◌,
  string_key, Result, ok, raised, inl, inr, Bool-cases,
}
use ancora.Number.{Float, Num, fnum, fmax, at_most}
use ancora.Number.Laws.{at_most_fmax_left, at_most_fmax_right}
use ancora.Dict.{Dict, lookup}
use ancora.Common.Projections.{num_or_zero}
use ancora.Scheduler.Client.{Verdict}
use ancora.Worker.Nodes.{
  NodeRequest, NodeResult, Failure, node_error, other_error, ActivityError, node_failed, crashed,
  scheduler_rejected, scheduler_deferred, Completion, World, Writes, admission, run_effect,
  completion, send, report, run_admitted, run_after, run_node,
}

module _ ⦃f : Float⦄ where
  -- the reports that reach the network: none of a client that is disabled
  abbrev pub sent : Bool → List Completion → List Completion
  sent false completions = []
  sent true completions = completions

  send_lem :
      (enabled : Bool) (c : Completion) (completions : List Completion)
      → send enabled c completions ≡ completions ++ sent enabled (c ∷ [])
  unfolding send
  send_lem false c completions = sym (append-nil completions)
  send_lem true c completions = refl

  nothing_sent :
      (enabled : Bool) (completions : List Completion)
      → completions ≡ completions ++ sent enabled []
  nothing_sent false completions = sym (append-nil completions)
  nothing_sent true completions = sym (append-nil completions)

module _ ⦃f : Float⦄ {J : Type 0} where
  -- what an outcome reports to the scheduler
  abbrev pub reported : NodeRequest → Result Failure (NodeResult J) → List Completion
  reported req (ok r) = completion req (num_or_zero r.cost.usd) ∷ []
  reported req (raised (node_error _ _ _)) = completion req (fnum 0) ∷ []
  reported req (raised other_error) = []

  -- what the activity returns or raises for an outcome
  abbrev answered : Result Failure (NodeResult J) → Result ActivityError (NodeResult J)
  answered (ok r) = ok r
  answered (raised (node_error message transient _)) = raised (node_failed message (not transient))
  answered (raised other_error) = raised crashed

  -- a refusal: to be rejected where the flag says so, or else deferred by at least `least` and at
  -- least what the scheduler asks for
  abbrev pub IsRefusal : Num → Verdict → Bool → Result ActivityError (NodeResult J) → Type 0
  IsRefusal least v true answer = answer ≡ raised (scheduler_rejected v.reason)
  IsRefusal least v false answer =
      (delay : Num) × (answer ≡ raised (scheduler_deferred v.rule v.reason delay))
      × (at_most least delay ≡ true)
      × (at_most v.retry_after delay ≡ true)

module _ ⦃f : Float⦄ {J T : Type 0} where
  report_lem :
      (enabled : Bool) (req : NodeRequest) (io : Writes) (outcome : Result Failure (NodeResult J))
      (s : World J T)
      → ((report enabled req io outcome s).0 ≡ answered outcome)
        × ((report enabled req io outcome s).1.completions
            ≡ s.completions ++ sent enabled (reported req outcome))
        × ((report enabled req io outcome s).1.inbox ≡ s.inbox)
  unfolding report
  report_lem enabled req io (ok r) s =
      (refl, send_lem enabled (completion req (num_or_zero r.cost.usd)) s.completions, refl)
  report_lem enabled req io (raised (node_error message transient after)) s =
      (refl, send_lem enabled (completion req (fnum 0)) s.completions, refl)
  report_lem enabled req io (raised other_error) s =
      (refl, nothing_sent enabled s.completions, refl)

  -- What a run that was not refused does: it raises where the type is not registered, and else
  -- answers with the outcome of its effect and reports that.
  abbrev pub IsGranted :
      Bool
      → NodeRequest
      → Result Failure (NodeResult J)
      → World J T
      → Option Bool
      → Result ActivityError (NodeResult J) × World J T
      → Type 0
  IsGranted enabled req effect s none (answer, s') = (answer ≡ raised crashed) × (s' ≡ s)
  IsGranted enabled req effect s (some idempotent) (answer, s') =
      let (outcome, inbox) = run_effect idempotent req.key effect s.inbox in
      (answer ≡ answered outcome)
      × (s'.completions ≡ s.completions ++ sent enabled (reported req outcome))
      × (s'.inbox ≡ inbox)

  -- a run under a verdict, which admits where the flag says so
  abbrev pub IsJudged :
      Num
      → Verdict
      → Bool
      → NodeRequest
      → Result Failure (NodeResult J)
      → World J T
      → Option Bool
      → Result ActivityError (NodeResult J) × World J T
      → Type 0
  IsJudged least v true req effect s registered run = IsGranted true req effect s registered run
  IsJudged least v false req effect s registered (answer, s') =
      (s' ≡ s) × IsRefusal least v (v.outcome == "reject") answer

  -- a run, by the scheduler's client and its verdict, which is none where the client raised
  abbrev pub IsRun :
      Num
      → Bool
      → Option Verdict
      → NodeRequest
      → Result Failure (NodeResult J)
      → World J T
      → Option Bool
      → Result ActivityError (NodeResult J) × World J T
      → Type 0
  IsRun least false verdict req effect s registered run =
      IsGranted false req effect s registered run
  IsRun least true none req effect s registered (answer, s') = (answer ≡ raised crashed) × (s' ≡ s)
  IsRun least true (some v) req effect s registered run =
      IsJudged least v (v.outcome == "admit") req effect s registered run

  granted_lem :
      (enabled : Bool) (req : NodeRequest) (io : Writes) (registered : Option Bool)
      (effect : Result Failure (NodeResult J)) (s : World J T)
      → IsGranted enabled req effect s registered
          (run_after enabled none req io registered effect s)
  unfolding run_after run_admitted
  granted_lem enabled req io none effect s = (refl, refl)
  granted_lem enabled req io (some idempotent) effect s =
      let (outcome, inbox) = run_effect idempotent req.key effect s.inbox in
      report_lem enabled req io outcome
        (record s { recorded = s.recorded ++ "Running" ∷ []; inbox = inbox })

  judged_lem :
      (least : Num) (v : Verdict) (req : NodeRequest) (io : Writes) (registered : Option Bool)
      (effect : Result Failure (NodeResult J)) (s : World J T)
      → IsJudged least v
          (v.outcome == "admit")
          req
          effect
          s
          registered
          (run_after true (admission least true (some v)) req io registered effect s)
  unfolding admission run_after
  judged_lem least v req io registered effect s = elim (Bool-cases (v.outcome == "admit")) [
    | inl admits ↦ rw admits (granted_lem true req io registered effect s)
    | inr refuses ↦ elim (Bool-cases (v.outcome == "reject")) [
      | inl rejects ↦ rw (refuses, rejects) (refl, refl)
      | inr defers ↦
          rw (refuses, defers)
            (
              refl,
              (
                fmax v.retry_after least,
                refl,
                at_most_fmax_right v.retry_after least,
                at_most_fmax_left v.retry_after least,
              ),
            )
    ]
  ]

  pub run_node-IsRun :
      (least : Num) (enabled : Bool) (verdict : Option Verdict) (req : NodeRequest) (io : Writes)
      (registry : Dict String Bool) (effect : Result Failure (NodeResult J)) (s : World J T)
      → IsRun least enabled verdict req effect s
          (lookup req.type_name registry)
          (run_node least enabled verdict req io registry effect s)
  unfolding run_node
  run_node-IsRun least false verdict req io registry effect s =
      unfold admission in granted_lem false req io (lookup req.type_name registry) effect s
  run_node-IsRun least true none req io registry effect s =
      unfold admission run_after in (refl, refl)
  run_node-IsRun least true (some v) req io registry effect s =
      judged_lem least v req io (lookup req.type_name registry) effect s
