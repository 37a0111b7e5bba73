-- ===== src/Scheduler/Engine/Limits.antt =====
-- What the rate limiter, the last governor, does to the clocks and the buckets (engine.py).
use ancora.Prelude.{
  ◌≡◌, refl, ◌∙◌, ◌||◌, arith, if◌then◌else◌, ◌⊎◌, Bool, true, false, Option, none, some, String,
  Result, ok, raised, ◌==◌, string_key, inl, inr, Bool-cases, Result-cases,
}
use ancora.Errors.{ValueError}
use ancora.Number.{Float, Num, fnum, at_most}
use ancora.Common.RateLimit.{
  RateLimitConfig, Buckets, AdmitDecision, rate_limit_config, limiter_admit,
}
use ancora.Scheduler.Fairness
use ancora.Scheduler.Fairness.{FairDecision, FairShare, active, decide, tenants_of}
use ancora.Scheduler.Config.{SchedulerConfig, RateLimitRule, tenant, rate_limit_for}
use ancora.Scheduler.Admission.{
  Rule, no_rule, rate_limit, AdmissionRequest, AdmissionDecision, AdmissionEngine, Surroundings,
  Answer, Found,
}
use ancora.Scheduler.Engine.{
  finish, take_slot, defer_rate_limited, take_tokens, bucket_key, limited,
}

module _ ⦃f : Float⦄ (req : AdmissionRequest) (env : Surroundings) where
  -- the fair share's answer to the request, and its refund, under a policy
  abbrev pub asked : SchedulerConfig → FairShare → Result ValueError (FairDecision × FairShare)
  asked cfg fair =
      Fairness.admit req.task_queue req.tenant (tenant req.tenant cfg).weight req.tokens env.fair_at
        fair

  abbrev pub given_back : SchedulerConfig → FairShare → Result ValueError FairShare
  given_back cfg fair =
      Fairness.refund req.task_queue req.tenant (tenant req.tenant cfg).weight req.tokens fair

  -- what the rate limiter answers for a rule and a provider, and its buckets afterwards; none
  -- where it is not asked
  abbrev pub asked_by :
      Option RateLimitRule → Option String → Buckets → Option (AdmitDecision × Buckets)
  asked_by (some rule) (some provider) limiter =
      if provider == ""
      then none
      else some (
          limiter_admit (bucket_key req env provider req.model)
            (record { rps = rule.rps; burst = rule.burst }) req.tokens env.rate_at limiter)
  asked_by _ _ limiter = none

  abbrev pub limiter_asked : SchedulerConfig → Buckets → Option (AdmitDecision × Buckets)
  limiter_asked cfg limiter =
      asked_by (rate_limit_for req.provider req.model cfg) req.provider limiter

  -- The limiter is not asked and its buckets are as before, or it grants the tokens and its
  -- buckets are those that it leaves.
  abbrev pub Granted : SchedulerConfig → Buckets → Buckets → Type 0
  Granted cfg limiter limiter' =
      ((limiter_asked cfg limiter ≡ none) × (limiter' ≡ limiter))
      ⊎ ((rl : AdmitDecision) × (limiter_asked cfg limiter ≡ some (rl, limiter'))
          × (rl.admitted ≡ true))

  -- The limiter refuses the tokens, and its buckets are those that it leaves.
  abbrev pub Refused : SchedulerConfig → Buckets → Buckets → Type 0
  Refused cfg limiter limiter' =
      (rl : AdmitDecision) × (limiter_asked cfg limiter ≡ some (rl, limiter'))
      × (rl.admitted ≡ false)

  -- the clocks after the last governor, by its rule
  abbrev pub After : SchedulerConfig → Bool → Rule → FairShare → FairShare → Type 0
  After cfg true rate_limit before after = given_back cfg before ≡ ok after
  After cfg _ _ before after = after ≡ before

  -- the buckets after the last governor, by its rule
  abbrev pub Limited : SchedulerConfig → Rule → Buckets → Buckets → Type 0
  Limited cfg no_rule limiter limiter' = Granted cfg limiter limiter'
  Limited cfg rate_limit limiter limiter' = Refused cfg limiter limiter'
  Limited cfg _ limiter limiter' = Unit

  abbrev pub Last : Found → Bool → FairShare → Buckets → Answer → Type 0
  Last found charged before limiter (raised _, _) = Unit
  Last found charged before limiter (ok d, e') =
      ((d.rule ≡ no_rule) ⊎ (d.rule ≡ rate_limit))
      × After found.cfg charged d.rule before e'.fair
      × Limited found.cfg d.rule limiter e'.limiter

  take_slot-Last :
      (found : Found) (charged : Bool) (limiter : Buckets) (e : AdmissionEngine)
      → Granted found.cfg limiter e.limiter
      → Last found charged e.fair limiter (take_slot req env found e)
  unfolding take_slot finish
  take_slot-Last found true limiter e granted = (inl refl, refl, granted)
  take_slot-Last found false limiter e granted = (inl refl, refl, granted)

  defer_rate_limited-Last :
      (found : Found) (charged : Bool) (d : AdmissionDecision) (limiter : Buckets)
      (e : AdmissionEngine)
      → d.rule ≡ rate_limit
      → Refused found.cfg limiter e.limiter
      → Last found charged e.fair limiter (defer_rate_limited req env found charged d e)
  unfolding defer_rate_limited finish
  defer_rate_limited-Last found false d limiter e r refused = rw r (inr refl, refl, refused)
  defer_rate_limited-Last found true d limiter e r refused =
      elim (Result-cases (given_back found.cfg e.fair)) [
        | inl (err, bad) ↦ rw bad tt
        | inr (fair, good) ↦ rw good (rw r (inr refl, good, refused))
      ]

  take_tokens-Last :
      (found : Found) (charged : Bool) (rule : RateLimitRule) (provider : String)
      (e : AdmissionEngine)
      → limiter_asked found.cfg e.limiter
        ≡ some (
            limiter_admit
              (bucket_key req env provider req.model)
              (record { rps = rule.rps; burst = rule.burst })
              req.tokens
              env.rate_at
              e.limiter)
      → Last found charged e.fair e.limiter (
          take_tokens req env found charged
            (bucket_key req env provider req.model)
            rule.rps
            rule.burst
            (record { rps = rule.rps; burst = rule.burst })
            e)
  unfolding take_tokens
  take_tokens-Last found charged rule provider e asks =
      let (rl, limiter) =
        limiter_admit (bucket_key req env provider req.model)
          (record { rps = rule.rps; burst = rule.burst }) req.tokens env.rate_at e.limiter in
      let e' = record e { limiter = limiter } in
      elim (Bool-cases rl.admitted) [
        | inl admitted ↦
            rw admitted (take_slot-Last found charged e.limiter e' (inr (rl, asks, admitted)))
        | inr refused ↦
            rw refused
              (defer_rate_limited-Last found charged _ e.limiter e' refl (rl, asks, refused))
      ]

  made_from :
      (rps burst : Num) (bucket : RateLimitConfig)
      → rate_limit_config rps burst ≡ ok bucket
      → bucket ≡ record { rps = rps; burst = burst }
  unfolding rate_limit_config
  made_from rps burst bucket h =
      elim (Bool-cases (at_most rps (fnum 0) || at_most burst (fnum 0))) [
        | inl bad ↦ absurd (cc (h, bad))
        | inr good ↦ ground arith
      ]

  pub limited-Last :
      (found : Found) (charged : Bool) (rule : Option RateLimitRule) (provider : Option String)
      (e : AdmissionEngine)
      → limiter_asked found.cfg e.limiter ≡ asked_by rule provider e.limiter
      → Last found charged e.fair e.limiter (limited req env found charged rule provider e)
  unfolding limited
  limited-Last found charged none provider e asks =
      take_slot-Last found charged e.limiter e (inl (asks, refl))
  limited-Last found charged (some rule) none e asks =
      take_slot-Last found charged e.limiter e (inl (asks, refl))
  limited-Last found charged (some rule) (some provider) e asks =
      elim (Bool-cases (provider == "")) [
        | inl empty ↦
            rw empty (take_slot-Last found charged e.limiter e (inl (asks ∙ rw empty refl, refl)))
        | inr named ↦ elim (Result-cases (rate_limit_config rule.rps rule.burst)) [
          | inl (err, bad) ↦ rw (named, bad) tt
          | inr (bucket, good) ↦
              rw (named, good, made_from rule.rps rule.burst bucket good)
                (take_tokens-Last found charged rule provider e (asks ∙ rw named refl))
        ]
      ]
