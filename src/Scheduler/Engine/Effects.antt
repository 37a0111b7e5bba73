-- ===== src/Scheduler/Engine/Effects.antt =====
-- What one call of AdmissionEngine.admit decides and stores, on every branch (engine.py).
use ancora.Prelude.{
  ℕ, ◌+◌, ◌≡◌, refl, Bool, true, false, Option, none, some, String, Result, ok, raised,
  if◌then◌else◌, ◌==◌, string_key, inl, inr, Bool-cases, Result-cases,
}
use ancora.Number.{Float, Num, fnum, at_most}
use ancora.Common.RateLimit.{RateLimitConfig, rate_limit_config, limiter_admit}
use ancora.Scheduler.Backlog
use ancora.Scheduler.Backlog.{evaluate_backpressure}
use ancora.Scheduler.Fairness
use ancora.Scheduler.Fairness.{FairDecision, FairShare, record_lane}
use ancora.Errors.{ValueError}
use ancora.Scheduler.Config.{RateLimitRule, tenant, rate_limit_for, watermark_for}
use ancora.Scheduler.ConfigStore.{ConfigStore, reload_if_changed}
use ancora.Scheduler.Admission.{
  Outcome, admit, defer, reject, Rule, no_rule, deadline, budget, backpressure, fairness,
  rate_limit, slot_token, AdmissionRequest, AdmissionDecision, record_decision, AdmissionEngine,
  Surroundings, Answer, Found,
}
use ancora.Scheduler.Engine.{
  finish, take_slot, defer_rate_limited, take_tokens, bucket_key, limited, rate_limit_gate,
  fairness_gate, backpressure_gate, budget_verdict, budget_gate, in_time, after_share, share,
  after_reload, deadline_gate, after_depth, first_found, admit_request,
}

-- the outcome that each governor may decide
abbrev pub outcome_of : Rule → Outcome
outcome_of no_rule = admit
outcome_of deadline = reject
outcome_of budget = reject
outcome_of backpressure = defer
outcome_of fairness = defer
outcome_of rate_limit = defer

abbrev pub is_admit : Outcome → Bool
is_admit admit = true
is_admit defer = false
is_admit reject = false

module _ ⦃f : Float⦄ (req : AdmissionRequest) (env : Surroundings) where
  -- What a gate that was asked in state `e`, at a depth, has answered.
  abbrev pub Settled : ℕ → AdmissionEngine → Answer → Type 0
  Settled depth e (raised err, e') =
      (e'.inflight ≡ e.inflight)
      × (e'.lanes ≡ e.lanes)
      × (e'.ledger ≡ e.ledger)
      × (e'.store ≡ e.store)
      × (e'.stats ≡ e.stats)
  Settled depth e (ok d, e') =
      (d.outcome ≡ outcome_of d.rule)
      × (d.queue_depth ≡ (if is_admit d.outcome then depth + 1 else depth))
      × (e'.inflight ≡ (
          if is_admit d.outcome
          then Backlog.admit (slot_token req.run_id req.node_id) req.task_queue env.slot_swept_at
              env.slot_at e.inflight
          else e.inflight))
      × (e'.lanes ≡ (
          if is_admit d.outcome then record_lane req.task_queue req.priority e.lanes else e.lanes))
      × (e'.ledger ≡ e.ledger)
      × (e'.store ≡ e.store)
      × (e'.stats ≡ record_decision req.task_queue d req.provider e.stats)

  take_slot-Settled :
      (found : Found) (e : AdmissionEngine) → Settled found.depth e (take_slot req env found e)
  unfolding take_slot finish
  take_slot-Settled found e = (refl, refl, refl, refl, refl, refl, refl)

  defer_rate_limited-Settled :
      (found : Found) (charged : Bool) (d : AdmissionDecision) (e : AdmissionEngine)
      → d.outcome ≡ defer
      → d.rule ≡ rate_limit
      → d.queue_depth ≡ found.depth
      → Settled found.depth e (defer_rate_limited req env found charged d e)
  unfolding defer_rate_limited finish
  defer_rate_limited-Settled found false d e o r q =
      rw (o, r) (refl, q, refl, refl, refl, refl, refl)
  defer_rate_limited-Settled found true d e o r q =
      elim (Result-cases (
        Fairness.refund req.task_queue req.tenant (tenant req.tenant found.cfg).weight req.tokens
          e.fair)) [
            | inl (err, bad) ↦ rw bad (refl, refl, refl, refl, refl)
            | inr (fair, good) ↦ rw good (rw (o, r) (refl, q, refl, refl, refl, refl, refl))
          ]

  take_tokens-Settled :
      (found : Found) (charged : Bool) (key : String) (rps burst : Num) (bucket : RateLimitConfig)
      (e : AdmissionEngine)
      → Settled found.depth e (take_tokens req env found charged key rps burst bucket e)
  unfolding take_tokens
  take_tokens-Settled found charged key rps burst bucket e =
      let (rl, limiter) = limiter_admit key bucket req.tokens env.rate_at e.limiter in
      let e' = record e { limiter = limiter } in
      elim (Bool-cases rl.admitted) [
        | inl admitted ↦ rw admitted (take_slot-Settled found e')
        | inr refused ↦ rw refused (defer_rate_limited-Settled found charged _ e' refl refl refl)
      ]

  limited-Settled :
      (found : Found) (charged : Bool) (rule : Option RateLimitRule) (provider : Option String)
      (e : AdmissionEngine)
      → Settled found.depth e (limited req env found charged rule provider e)
  unfolding limited
  limited-Settled found charged none provider e = take_slot-Settled found e
  limited-Settled found charged (some rule) none e = take_slot-Settled found e
  limited-Settled found charged (some rule) (some provider) e = elim (Bool-cases (provider == "")) [
    | inl empty ↦ rw empty (take_slot-Settled found e)
    | inr named ↦ elim (Result-cases (rate_limit_config rule.rps rule.burst)) [
      | inl (err, bad) ↦ rw (named, bad) (refl, refl, refl, refl, refl)
      | inr (bucket, good) ↦
          rw (named, good)
            (take_tokens-Settled found charged (bucket_key req env provider req.model) rule.rps
              rule.burst bucket e)
    ]
  ]

  rate_limit_gate-Settled :
      (found : Found) (charged : Bool) (e : AdmissionEngine)
      → Settled found.depth e (rate_limit_gate req env found charged e)
  unfolding rate_limit_gate
  rate_limit_gate-Settled found charged e =
      limited-Settled found charged (rate_limit_for req.provider req.model found.cfg) req.provider e

  after_share-Settled :
      (found : Found) (e : AdmissionEngine) (answer : Result ValueError (FairDecision × FairShare))
      → Settled found.depth e (after_share req env found e answer)
  unfolding after_share finish
  after_share-Settled found e (raised err) = (refl, refl, refl, refl, refl)
  after_share-Settled found e (ok (fd, fair)) = elim (Bool-cases fd.admitted) [
    | inl admitted ↦ rw admitted (rate_limit_gate-Settled found true (record e { fair = fair }))
    | inr deferred ↦ rw deferred (refl, refl, refl, refl, refl, refl, refl)
  ]

  share-Settled :
      (found : Found) (e : AdmissionEngine) (enabled : Bool)
      → Settled found.depth e (share req env found e enabled)
  unfolding share
  share-Settled found e true = after_share-Settled found e (
      Fairness.admit req.task_queue req.tenant (tenant req.tenant found.cfg).weight req.tokens
        env.fair_at e.fair)
  share-Settled found e false = rate_limit_gate-Settled found false e

  fairness_gate-Settled :
      (found : Found) (e : AdmissionEngine) → Settled found.depth e (fairness_gate req env found e)
  unfolding fairness_gate
  fairness_gate-Settled found e = share-Settled found e found.cfg.fairness.enabled

  backpressure_gate-Settled :
      (found : Found) (e : AdmissionEngine)
      → Settled found.depth e (backpressure_gate req env found e)
  unfolding backpressure_gate finish
  backpressure_gate-Settled found e =
      let mark = watermark_for req.task_queue found.cfg in
      let bp =
        evaluate_backpressure found.depth mark.soft mark.hard req.priority
          found.cfg.backpressure_priority_cutoff mark.backoff_seconds mark.max_backoff_seconds in
      elim (Bool-cases bp.admitted) [
        | inl admitted ↦ rw admitted (fairness_gate-Settled found e)
        | inr shed ↦ rw shed (refl, refl, refl, refl, refl, refl, refl)
      ]

  budget_gate-Settled :
      (found : Found) (e : AdmissionEngine) → Settled found.depth e (budget_gate req env found e)
  unfolding budget_gate finish
  budget_gate-Settled found e =
      let verdict = budget_verdict req env found.cfg e.ledger in
      elim (Bool-cases verdict.allowed) [
        | inl allowed ↦
            rw allowed (backpressure_gate-Settled (record found { warning = verdict.warning }) e)
        | inr refused ↦ rw refused (refl, refl, refl, refl, refl, refl, refl)
      ]

  in_time-Settled :
      (found : Found) (deadline : Option Num) (e : AdmissionEngine)
      → Settled found.depth e (in_time req env found deadline e)
  unfolding in_time finish
  in_time-Settled found none e = budget_gate-Settled found e
  in_time-Settled found (some seconds) e = elim (Bool-cases (at_most seconds (fnum 0))) [
    | inl late ↦ rw late (refl, refl, refl, refl, refl, refl, refl)
    | inr left ↦ rw left (budget_gate-Settled (record found { timeout_seconds = some seconds }) e)
  ]

  -- A call whose policy reload does not raise is settled against the state in which the gauge was
  -- read: its outcome is the one that its rule may decide; admitted work, and no other, takes its
  -- in-flight slot and its lane and counts itself in the depth that is reported; no call changes
  -- the ledger; the decision is counted once; and a call that raises has changed none of these.
  pub admit_request-Settled :
      (e : AdmissionEngine) (store : ConfigStore) {swapped : Bool}
      → reload_if_changed false env.stat env.loaded e.store ≡ (ok swapped, store)
      → Settled
          (first_found req env store e).depth
          (after_depth req env store e)
          (admit_request req env e)
  unfolding admit_request after_reload deadline_gate
  admit_request-Settled e store reloaded = rw reloaded (
      in_time-Settled (first_found req env store e) req.deadline_seconds
        (after_depth req env store e))
