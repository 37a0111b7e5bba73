-- ===== src/Scheduler/Engine/Resources.antt =====
-- Which decisions charge the tenant's clock and the rate limiter's buckets (engine.py).
use ancora.Prelude.{
  ◌≡◌, refl, sym, subst, ◌⊎◌, Bool, true, false, Option, none, some, Result, ok, raised, string_key,
  inl, inr, Bool-cases,
}
use ancora.Errors.{ValueError}
use ancora.Number.{Float, Num, fnum, at_most}
use ancora.Common.RateLimit.{Buckets}
use ancora.Scheduler.Backlog.{evaluate_backpressure}
use ancora.Scheduler.Fairness.{FairDecision, FairShare}
use ancora.Scheduler.Config.{SchedulerConfig, rate_limit_for, watermark_for}
use ancora.Scheduler.ConfigStore.{ConfigStore, reload_if_changed}
use ancora.Scheduler.Admission.{
  Rule, no_rule, deadline, budget, backpressure, fairness, rate_limit, AdmissionRequest,
  AdmissionEngine, Surroundings, Answer, Found,
}
use ancora.Scheduler.Engine.{
  finish, rate_limit_gate, after_share, share, fairness_gate, backpressure_gate, budget_verdict,
  budget_gate, in_time, deadline_gate, after_reload, after_depth, first_found, admit_request,
}
use ancora.Scheduler.Engine.Limits.{
  asked, given_back, Granted, Refused, After, Limited, Last, limited-Last,
}

module _ ⦃f : Float⦄ (req : AdmissionRequest) (env : Surroundings) where
  -- What a decision has charged, by its rule: between the engine when it was asked and after it.
  abbrev pub Charges : SchedulerConfig → Rule → FairShare → FairShare → Buckets → Buckets → Type 0
  Charges cfg no_rule fair fair' limiter limiter' =
      (d : FairDecision) × (d.admitted ≡ true)
      × (asked req env cfg fair ≡ ok (d, fair'))
      × Granted req env cfg limiter limiter'
  Charges cfg rate_limit fair fair' limiter limiter' =
      (d : FairDecision) × (charged : FairShare) × (d.admitted ≡ true)
      × (asked req env cfg fair ≡ ok (d, charged))
      × (given_back req env cfg charged ≡ ok fair')
      × Refused req env cfg limiter limiter'
  Charges cfg fairness fair fair' limiter limiter' =
      (d : FairDecision) × (d.admitted ≡ false)
      × (asked req env cfg fair ≡ ok (d, fair'))
      × (limiter' ≡ limiter)
  Charges cfg _ fair fair' limiter limiter' = (fair' ≡ fair) × (limiter' ≡ limiter)

  abbrev pub Charged : SchedulerConfig → AdmissionEngine → Answer → Type 0
  Charged cfg e (raised _, _) = Unit
  Charged cfg e (ok d, e') = Charges cfg d.rule e.fair e'.fair e.limiter e'.limiter

  charge-Last :
      (found : Found) (d : FairDecision) (charged : FairShare) (e : AdmissionEngine)
      → d.admitted ≡ true
      → asked req env found.cfg e.fair ≡ ok (d, charged)
      → (answer : Answer) → Last req env found true charged e.limiter answer
      → Charged found.cfg e answer
  charge-Last found d charged e admitted given (raised err, e') last = tt
  charge-Last found d charged e admitted given (ok decision, e') (rule, kept, taken) =
      by_rule decision.rule rule kept taken
    where
      by_rule :
          (r : Rule)
          → (r ≡ no_rule) ⊎ (r ≡ rate_limit)
          → After req env found.cfg true r charged e'.fair
          → Limited req env found.cfg r e.limiter e'.limiter
          → Charges found.cfg r e.fair e'.fair e.limiter e'.limiter
      by_rule no_rule r k l = (d, admitted, rw k given, l)
      by_rule rate_limit r k l = (d, charged, admitted, given, k, l)
      by_rule deadline (inl r) k l = cc
      by_rule deadline (inr r) k l = cc
      by_rule budget (inl r) k l = cc
      by_rule budget (inr r) k l = cc
      by_rule backpressure (inl r) k l = cc
      by_rule backpressure (inr r) k l = cc
      by_rule fairness (inl r) k l = cc
      by_rule fairness (inr r) k l = cc

  after_share-Charged :
      (found : Found) (e : AdmissionEngine) (answer : Result ValueError (FairDecision × FairShare))
      → asked req env found.cfg e.fair ≡ answer
      → Charged found.cfg e (after_share req env found e answer)
  unfolding after_share finish rate_limit_gate
  after_share-Charged found e (raised err) given = tt
  after_share-Charged found e (ok (d, fair)) given = elim (Bool-cases d.admitted) [
    | inl admitted ↦
        let e' = record e { fair = fair } in
        rw admitted (
          charge-Last found d fair e admitted given (rate_limit_gate req env found true e') (
            limited-Last req env found true (rate_limit_for req.provider req.model found.cfg)
              req.provider e' refl))
    | inr deferred ↦ rw deferred (d, deferred, given, refl)
  ]

  fairness_gate-Charged :
      (found : Found) (e : AdmissionEngine)
      → found.cfg.fairness.enabled ≡ true
      → Charged found.cfg e (fairness_gate req env found e)
  unfolding fairness_gate share
  fairness_gate-Charged found e enabled =
      subst (λ b. Charged found.cfg e (share req env found e b)) (sym enabled)
        (after_share-Charged found e (asked req env found.cfg e.fair) refl)

  backpressure_gate-Charged :
      (found : Found) (e : AdmissionEngine)
      → found.cfg.fairness.enabled ≡ true
      → Charged found.cfg e (backpressure_gate req env found e)
  unfolding backpressure_gate finish
  backpressure_gate-Charged found e enabled =
      let mark = watermark_for req.task_queue found.cfg in
      let bp =
        evaluate_backpressure found.depth mark.soft mark.hard req.priority
          found.cfg.backpressure_priority_cutoff mark.backoff_seconds mark.max_backoff_seconds in
      elim (Bool-cases bp.admitted) [
        | inl admitted ↦ rw admitted (fairness_gate-Charged found e enabled)
        | inr shed ↦ rw shed (refl, refl)
      ]

  budget_gate-Charged :
      (found : Found) (e : AdmissionEngine)
      → found.cfg.fairness.enabled ≡ true
      → Charged found.cfg e (budget_gate req env found e)
  unfolding budget_gate finish
  budget_gate-Charged found e enabled =
      let verdict = budget_verdict req env found.cfg e.ledger in
      elim (Bool-cases verdict.allowed) [
        | inl allowed ↦
            rw allowed
              (backpressure_gate-Charged (record found { warning = verdict.warning }) e enabled)
        | inr refused ↦ rw refused (refl, refl)
      ]

  in_time-Charged :
      (found : Found) (deadline : Option Num) (e : AdmissionEngine)
      → found.cfg.fairness.enabled ≡ true
      → Charged found.cfg e (in_time req env found deadline e)
  unfolding in_time finish
  in_time-Charged found none e enabled = budget_gate-Charged found e enabled
  in_time-Charged found (some seconds) e enabled = elim (Bool-cases (at_most seconds (fnum 0))) [
    | inl late ↦ rw late (refl, refl)
    | inr left ↦
        rw left (budget_gate-Charged (record found { timeout_seconds = some seconds }) e enabled)
  ]

  -- Under a policy with fair sharing, a decision charges exactly what its governors have granted:
  -- a refusal for the deadline, the budget or the backlog leaves the clocks and the rate limiter's
  -- buckets as they are; a deferral for fairness leaves the buckets; a deferral by the rate
  -- limiter charges the tenant and gives the same cost back, and leaves the buckets that the
  -- limiter leaves when it refuses the request's tokens; and admitted work has been charged once,
  -- by a fair share that admitted it, and where the policy has a rate limit for its provider the
  -- limiter has granted its tokens once, and else the buckets are as before.
  pub admit_request_charges :
      (e : AdmissionEngine) (store : ConfigStore) {swapped : Bool}
      → reload_if_changed false env.stat env.loaded e.store ≡ (ok swapped, store)
      → store.config.fairness.enabled ≡ true
      → Charged store.config e (admit_request req env e)
  unfolding admit_request after_reload deadline_gate
  admit_request_charges e store reloaded enabled = rw reloaded (
      in_time-Charged (first_found req env store e) req.deadline_seconds
        (after_depth req env store e) enabled)
