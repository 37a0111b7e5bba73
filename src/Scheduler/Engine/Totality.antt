-- ===== src/Scheduler/Engine/Totality.antt =====
-- Under a policy that validation accepts, the engine answers (engine.py).
use ancora.Prelude.{
  ◌≡◌, refl, Bool, true, false, Option, none, some, String, arith, ok, ◌==◌, string_key, inl, inr,
  Bool-cases,
}
use ancora.Number.{Float, Num, fnum, at_most, same}
use ancora.Common.RateLimit.{RateLimitConfig, rate_limit_config, limiter_admit}
use ancora.Scheduler.Backlog.{evaluate_backpressure}
use ancora.Scheduler.Fairness
use ancora.Scheduler.Fairness.{TenantState, FairDecision, FairShare, tenants_of}
use ancora.Scheduler.Config.{RateLimitRule, config_valid, tenant, watermark_for}
use ancora.Scheduler.Config.Valid.{valid_entries}
use ancora.Scheduler.ConfigStore.{ConfigStore, reload_if_changed}
use ancora.Scheduler.Admission.{
  AdmissionRequest, AdmissionDecision, AdmissionEngine, Surroundings, Answer, Found,
}
use ancora.Scheduler.Engine.{
  finish, take_slot, defer_rate_limited, take_tokens, bucket_key, limited, rate_limit_gate,
  after_share, share, fairness_gate, backpressure_gate, budget_verdict, budget_gate, in_time,
  deadline_gate, after_reload, after_depth, first_found, admit_request,
}
use ancora.Dict.{lookup}

module _ ⦃f : Float⦄ where
  abbrev pub IsAnswered : Answer → Type 0
  IsAnswered answer = (d : AdmissionDecision) × (answer.0 ≡ ok d)

  admit_succeeds :
      (queue name : String) (weight cost now : Num) (s : FairShare)
      → at_most weight (fnum 0) ≡ false
      → (d : FairDecision) × (s' : FairShare) × (Fairness.admit queue name weight cost now s
          ≡ ok (d, s'))
  unfolding Fairness.admit
  admit_succeeds queue name weight cost now s good = rw good (_, _, refl)

  refund_succeeds :
      (queue name : String) (weight cost : Num) (s : FairShare)
      → at_most weight (fnum 0) ≡ false
      → (s' : FairShare) × (Fairness.refund queue name weight cost s ≡ ok s')
  unfolding Fairness.refund Fairness.refund_state
  refund_succeeds queue name weight cost s good = by_state (lookup name (tenants_of queue s))
    where
      by_state :
          (o : Option TenantState)
          → (s' : FairShare) × (Fairness.refund_state queue name weight cost s o ≡ ok s')
      by_state none = (s, refl)
      by_state (some state) =
          let nonzero : same weight (fnum 0) ≡ false = ground arith in rw nonzero (_, refl)

  module _ (req : AdmissionRequest) (env : Surroundings) where
    take_slot-IsAnswered :
        (found : Found) (e : AdmissionEngine) → IsAnswered (take_slot req env found e)
    unfolding take_slot finish
    take_slot-IsAnswered found e = (_, refl)

    defer_rate_limited-IsAnswered :
        (found : Found) (charged : Bool) (d : AdmissionDecision) (e : AdmissionEngine)
        → at_most (tenant req.tenant found.cfg).weight (fnum 0) ≡ false
        → IsAnswered (defer_rate_limited req env found charged d e)
    unfolding defer_rate_limited finish
    defer_rate_limited-IsAnswered found false d e good = (_, refl)
    defer_rate_limited-IsAnswered found true d e good =
        let (s', gave) =
          refund_succeeds req.task_queue req.tenant (tenant req.tenant found.cfg).weight req.tokens
            e.fair good in
        rw gave (_, refl)

    take_tokens-IsAnswered :
        (found : Found) (charged : Bool) (key : String) (rps burst : Num) (bucket : RateLimitConfig)
        (e : AdmissionEngine)
        → at_most (tenant req.tenant found.cfg).weight (fnum 0) ≡ false
        → IsAnswered (take_tokens req env found charged key rps burst bucket e)
    unfolding take_tokens
    take_tokens-IsAnswered found charged key rps burst bucket e good =
        let (rl, limiter) = limiter_admit key bucket req.tokens env.rate_at e.limiter in
        let e' = record e { limiter = limiter } in
        elim (Bool-cases rl.admitted) [
          | inl admitted ↦ rw admitted (take_slot-IsAnswered found e')
          | inr refused ↦ rw refused (defer_rate_limited-IsAnswered found charged _ e' good)
        ]

    limited-IsAnswered :
        (found : Found) (charged : Bool) (rule : RateLimitRule) (provider : Option String)
        (e : AdmissionEngine)
        → at_most (tenant req.tenant found.cfg).weight (fnum 0) ≡ false
        → at_most rule.rps (fnum 0) ≡ false
        → at_most rule.burst (fnum 0) ≡ false
        → IsAnswered (limited req env found charged (some rule) provider e)
    unfolding limited
    limited-IsAnswered found charged rule none e good rps burst = take_slot-IsAnswered found e
    limited-IsAnswered found charged rule (some provider) e good rps burst =
        let made : rate_limit_config rule.rps rule.burst
            ≡ ok (record { rps = rule.rps; burst = rule.burst }) =
          unfold rate_limit_config in ground arith in
        elim (Bool-cases (provider == "")) [
          | inl empty ↦ rw empty (take_slot-IsAnswered found e)
          | inr named ↦
              rw (named, made)
                (take_tokens-IsAnswered found charged (bucket_key req env provider req.model)
                  rule.rps rule.burst (record { rps = rule.rps; burst = rule.burst }) e good)
        ]

    rate_limit_gate-IsAnswered :
        (found : Found) (charged : Bool) (e : AdmissionEngine)
        → config_valid found.cfg ≡ true
        → IsAnswered (rate_limit_gate req env found charged e)
    unfolding rate_limit_gate
    rate_limit_gate-IsAnswered found charged e valid =
        let (rules, _, _, _, weight) =
          valid_entries found.cfg req.provider req.model req.task_queue req.tenant valid in
        elim rules [
          | inl unlimited ↦ rw unlimited (unfold limited in take_slot-IsAnswered found e)
          | inr (rule, set, rps, burst) ↦
              rw set (limited-IsAnswered found charged rule req.provider e weight rps burst)
        ]

    fairness_gate-IsAnswered :
        (found : Found) (e : AdmissionEngine)
        → config_valid found.cfg ≡ true
        → IsAnswered (fairness_gate req env found e)
    unfolding fairness_gate share after_share finish
    fairness_gate-IsAnswered found e valid = by_switch found.cfg.fairness.enabled
      where
        by_share :
            (d : FairDecision) (fair : FairShare)
            → IsAnswered (after_share req env found e (ok (d, fair)))
        by_share d fair = elim (Bool-cases d.admitted) [
          | inl admitted ↦
              rw admitted (rate_limit_gate-IsAnswered found true (record e { fair = fair }) valid)
          | inr deferred ↦ rw deferred (_, refl)
        ]

        by_switch : (enabled : Bool) → IsAnswered (share req env found e enabled)
        by_switch false = rate_limit_gate-IsAnswered found false e valid
        by_switch true =
            let (_, _, _, _, weight) =
              valid_entries found.cfg req.provider req.model req.task_queue req.tenant valid in
            let (d, fair, asked) =
              admit_succeeds req.task_queue req.tenant (tenant req.tenant found.cfg).weight
                req.tokens env.fair_at e.fair weight in
            rw asked (by_share d fair)

    backpressure_gate-IsAnswered :
        (found : Found) (e : AdmissionEngine)
        → config_valid found.cfg ≡ true
        → IsAnswered (backpressure_gate req env found e)
    unfolding backpressure_gate finish
    backpressure_gate-IsAnswered found e valid =
        let mark = watermark_for req.task_queue found.cfg in
        let bp =
          evaluate_backpressure found.depth mark.soft mark.hard req.priority
            found.cfg.backpressure_priority_cutoff mark.backoff_seconds mark.max_backoff_seconds in
        elim (Bool-cases bp.admitted) [
          | inl admitted ↦ rw admitted (fairness_gate-IsAnswered found e valid)
          | inr shed ↦ rw shed (_, refl)
        ]

    budget_gate-IsAnswered :
        (found : Found) (e : AdmissionEngine)
        → config_valid found.cfg ≡ true
        → IsAnswered (budget_gate req env found e)
    unfolding budget_gate finish
    budget_gate-IsAnswered found e valid =
        let verdict = budget_verdict req env found.cfg e.ledger in
        elim (Bool-cases verdict.allowed) [
          | inl allowed ↦
              rw allowed
                (backpressure_gate-IsAnswered (record found { warning = verdict.warning }) e valid)
          | inr refused ↦ rw refused (_, refl)
        ]

    in_time-IsAnswered :
        (found : Found) (deadline : Option Num) (e : AdmissionEngine)
        → config_valid found.cfg ≡ true
        → IsAnswered (in_time req env found deadline e)
    unfolding in_time finish
    in_time-IsAnswered found none e valid = budget_gate-IsAnswered found e valid
    in_time-IsAnswered found (some seconds) e valid = elim (Bool-cases (at_most seconds (fnum 0))) [
      | inl late ↦ rw late (_, refl)
      | inr left ↦
          rw left (budget_gate-IsAnswered (record found { timeout_seconds = some seconds }) e valid)
    ]

    -- A call whose policy reload does not raise, and leaves a policy that validation accepts,
    -- returns a decision: no governor raises.
    pub admit_request-IsAnswered :
        (e : AdmissionEngine) (store : ConfigStore) {swapped : Bool}
        → reload_if_changed false env.stat env.loaded e.store ≡ (ok swapped, store)
        → config_valid store.config ≡ true
        → IsAnswered (admit_request req env e)
    unfolding admit_request after_reload deadline_gate
    admit_request-IsAnswered e store reloaded valid = rw reloaded (
        in_time-IsAnswered (first_found req env store e) req.deadline_seconds
          (after_depth req env store e) valid)
