-- ===== src/Scheduler/Engine.antt =====
-- services/scheduler/ancora_scheduler/engine.py: AdmissionEngine, one function for each governor,
-- composed in the code's order.
pub mod Effects
pub mod Limits
pub mod Resources
pub mod Clocks
pub mod Totality
pub mod Reports
pub mod Reloads
pub mod Samples
mod Tests
use Prim.Native.String.{◌++◌ as text_append}
use ancora.Prelude.{
  ℕ, ◌+◌, Bool, true, false, Option, none, some, String, [], ◌==◌, leb, string_key, pair_key,
  Result, ok, raised, if◌then◌else◌,
}
use ancora.Number.{Float, Num, fnum, at_most, same}
use ancora.Common.RateLimit.{RateLimitConfig, rate_limit_config, limiter_admit}
use ancora.Scheduler.Backlog
use ancora.Scheduler.Backlog.{evaluate_backpressure}
use ancora.Scheduler.Fairness
use ancora.Scheduler.Fairness.{FairDecision, FairShare, record_lane}
use ancora.Scheduler.Budget
use ancora.Scheduler.Budget.{BudgetLedger, check_budget, run_spend, record_spend, empty_ledger}
use ancora.Scheduler.Config.{
  SchedulerConfig, RateLimitRule, bucket_name, rate_limit_for, watermark_for, tenant,
}
use ancora.Scheduler.ConfigStore.{ConfigStore, LoadError, reload_if_changed}
use ancora.Errors.{ValueError}
use ancora.Scheduler.Admission.{
  admit, defer, reject, Rule, no_rule, deadline, budget, backpressure, fairness, rate_limit,
  slot_token, AdmissionRequest, Reason, no_reason, deadline_passed, over_budget, at_watermark,
  ahead_of_share, rate_limited, AdmissionDecision, record_decision, empty_stats, AdmissionEngine,
  Surroundings, load_error, value_error, Answer, Found,
}

module _ ⦃f : Float⦄ where
  module _ (req : AdmissionRequest) (env : Surroundings) where
    -- the closure `finish`
    unfoldable pub finish : AdmissionDecision → AdmissionEngine → Answer
    finish d e = (ok d, record e { stats = record_decision req.task_queue d req.provider e.stats })

    abbrev deferral : Found → Rule → Num → Reason → AdmissionDecision
    deferral found rule retry_after reason = record {
      outcome = defer;
      rule = rule;
      retry_after = retry_after;
      reason = reason;
      warning = found.warning;
      timeout_seconds = found.timeout_seconds;
      queue_depth = found.depth;
    }

    abbrev rejection : ℕ → Rule → Reason → AdmissionDecision
    rejection depth rule reason = record {
      outcome = reject;
      rule = rule;
      retry_after = fnum 0;
      reason = reason;
      warning = none;
      timeout_seconds = none;
      queue_depth = depth;
    }

    -- Admitted: take an in-flight slot and record the lane.
    unfoldable pub take_slot : Found → AdmissionEngine → Answer
    take_slot found e =
        finish
          (record {
            outcome = admit;
            rule = no_rule;
            retry_after = fnum 0;
            reason = no_reason;
            warning = found.warning;
            timeout_seconds = found.timeout_seconds;
            queue_depth = found.depth + 1;
          })
          (record e {
            inflight =
                Backlog.admit (slot_token req.run_id req.node_id) req.task_queue env.slot_swept_at
                  env.slot_at e.inflight;
            lanes = record_lane req.task_queue req.priority e.lanes;
          })

    -- the deferral of the rate limiter, with the charge taken back
    unfoldable pub defer_rate_limited : Found → Bool → AdmissionDecision → AdmissionEngine → Answer
    defer_rate_limited found charged d e =
        if charged
        then elim (Fairness.refund req.task_queue req.tenant (tenant req.tenant found.cfg).weight
            req.tokens e.fair) [
              | raised err ↦ (raised (value_error err), e)
              | ok fair ↦ finish d (record e { fair = fair })
            ]
        else finish d e

    -- the bucket's key
    abbrev pub bucket_key : String → Option String → String
    bucket_key provider none = provider
    bucket_key provider (some model) = if model == "" then provider else bucket_name provider model

    unfoldable pub take_tokens :
        Found → Bool → String → Num → Num → RateLimitConfig → AdmissionEngine → Answer
    take_tokens found charged key rps burst bucket e =
        let (rl, limiter) = limiter_admit key bucket req.tokens env.rate_at e.limiter in
        let e' = record e { limiter = limiter } in
        if rl.admitted
        then take_slot found e'
        else defer_rate_limited found charged
            (deferral found rate_limit rl.retry_after
              (rate_limited key rps burst req.node_id rl.retry_after))
            e'

    unfoldable pub limited :
        Found → Bool → Option RateLimitRule → Option String → AdmissionEngine → Answer
    limited found charged (some rule) (some provider) e =
        if provider == "" then take_slot found e else elim (rate_limit_config rule.rps rule.burst) [
          | raised err ↦ (raised (value_error err), e)
          | ok bucket ↦
              take_tokens found charged (bucket_key provider req.model) rule.rps rule.burst bucket e
        ]
    limited found charged _ _ e = take_slot found e

    -- 5. Provider rate limit.
    unfoldable pub rate_limit_gate : Found → Bool → AdmissionEngine → Answer
    unfolding limited
    rate_limit_gate found charged e =
        limited found charged (rate_limit_for req.provider req.model found.cfg) req.provider e

    unfoldable pub after_share :
        Found → AdmissionEngine → Result ValueError (FairDecision × FairShare) → Answer
    after_share found e (raised err) = (raised (value_error err), e)
    after_share found e (ok (fd, fair)) =
        if fd.admitted
        then rate_limit_gate found true (record e { fair = fair })
        else finish
            (deferral found fairness fd.retry_after
              (ahead_of_share req.tenant req.task_queue fd.contenders))
            (record e { fair = fair })

    unfoldable pub share : Found → AdmissionEngine → Bool → Answer
    unfolding after_share
    share found e true = after_share found e (
        Fairness.admit req.task_queue req.tenant (tenant req.tenant found.cfg).weight req.tokens
          env.fair_at e.fair)
    share found e false = rate_limit_gate found false e

    -- 4. Fair share.
    unfoldable pub fairness_gate : Found → AdmissionEngine → Answer
    unfolding share
    fairness_gate found e = share found e found.cfg.fairness.enabled

    -- 3. Backpressure.
    unfoldable pub backpressure_gate : Found → AdmissionEngine → Answer
    backpressure_gate found e =
        let mark = watermark_for req.task_queue found.cfg in
        let bp =
          evaluate_backpressure found.depth mark.soft mark.hard req.priority
            found.cfg.backpressure_priority_cutoff mark.backoff_seconds mark.max_backoff_seconds in
        let past_hard = leb bp.hard bp.depth in
        if bp.admitted
        then fairness_gate found e
        else finish
            (deferral found backpressure bp.retry_after (
              at_watermark req.task_queue bp.depth past_hard
                (if past_hard then bp.hard else bp.soft)))
            e

    -- tenant_policy.budget_usd or cfg.budget.default_run_usd
    abbrev limit_of : Option Num → Option Num → Option Num
    limit_of none default = default
    limit_of (some x) default = if same x (fnum 0) then default else some x

    unfoldable pub budget_verdict : SchedulerConfig → BudgetLedger → Budget.BudgetVerdict
    budget_verdict cfg ledger =
        check_budget (run_spend req.run_id ledger) req.estimated_usd
          (limit_of (tenant req.tenant cfg).budget_usd cfg.budget.default_run_usd) cfg.budget.mode
          cfg.budget.warn_at (text_append "run " req.run_id)

    -- 2. Budget.
    unfoldable pub budget_gate : Found → AdmissionEngine → Answer
    budget_gate found e =
        let verdict = budget_verdict found.cfg e.ledger in
        if verdict.allowed
        then backpressure_gate (record found { warning = verdict.warning }) e
        else finish (rejection found.depth budget (over_budget verdict.reason)) e

    unfoldable pub in_time : Found → Option Num → AdmissionEngine → Answer
    in_time found none e = budget_gate found e
    in_time found (some seconds) e =
        if at_most seconds (fnum 0)
        then finish (rejection found.depth deadline (deadline_passed req.node_id)) e
        else budget_gate (record found { timeout_seconds = some seconds }) e

    -- 1. Deadline.
    unfoldable pub deadline_gate : Found → AdmissionEngine → Answer
    unfolding in_time
    deadline_gate found e = in_time found req.deadline_seconds e

    -- the engine after the gauge was read
    abbrev pub after_depth : ConfigStore → AdmissionEngine → AdmissionEngine
    after_depth store e = record e {
      store = store;
      inflight = (Backlog.depth req.task_queue env.depth_at e.inflight).1;
    }

    abbrev pub first_found : ConfigStore → AdmissionEngine → Found
    first_found store e = record {
      cfg = store.config;
      depth = (Backlog.depth req.task_queue env.depth_at e.inflight).0;
      timeout_seconds = none;
      warning = none;
    }

    unfoldable pub after_reload : AdmissionEngine → Result LoadError Bool × ConfigStore → Answer
    after_reload e (raised err, store) = (raised (load_error err), record e { store = store })
    after_reload e (ok _, store) = deadline_gate (first_found store e) (after_depth store e)

    -- AdmissionEngine.admit
    unfoldable pub admit_request : AdmissionEngine → Answer
    unfolding after_reload
    admit_request e = after_reload e (reload_if_changed false env.stat env.loaded e.store)

  -- AdmissionEngine.complete
  unfoldable pub complete :
      String → String → String → Num → AdmissionEngine → Bool × AdmissionEngine
  complete run_id node_id tenant_name usd e =
      let (released, inflight) = Backlog.complete (slot_token run_id node_id) e.inflight in
      (
        released,
        record e { ledger = record_spend run_id tenant_name usd e.ledger; inflight = inflight },
      )

  -- AdmissionEngine.reset
  unfoldable pub reset : AdmissionEngine → AdmissionEngine
  reset e = record e {
    inflight = Backlog.reset e.inflight;
    fair = Fairness.reset e.fair;
    ledger = empty_ledger;
    lanes = [];
    stats = empty_stats;
  }
