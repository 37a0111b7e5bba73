-- ===== src/Scheduler/Engine/Clocks.antt =====
-- The tenants' clocks after a deferral by the rate limiter (engine.py).
use ancora.Prelude.{
  ◌≡◌, sym, subst, Bool, true, false, some, String, Result, ok, ◌==◌, string_key, if◌then◌else◌,
}
use ancora.Number.{Float, fnum, over, minus, plus, at_most}
use ancora.Dict.{lookup}
use ancora.Scheduler.Fairness.{FairDecision, FairShare, active, decide, tenants_of}
use ancora.Scheduler.Fairness.Decisions.{Admits, admit_effect, clock_of}
use ancora.Scheduler.Fairness.Refund.{refund-admit}
use ancora.Scheduler.Config.{SchedulerConfig, tenant}
use ancora.Scheduler.ConfigStore.{ConfigStore, reload_if_changed}
use ancora.Scheduler.Admission.{
  rate_limit, AdmissionRequest, AdmissionDecision, AdmissionEngine, Surroundings,
}
use ancora.Scheduler.Engine.{admit_request}
use ancora.Scheduler.Engine.Limits.{asked, given_back}
use ancora.Scheduler.Engine.Resources.{Charges, Charged, admit_request_charges}

module _ ⦃f : Float⦄ (req : AdmissionRequest) (env : Surroundings) where
  asked_decision :
      (cfg : SchedulerConfig) (fair : FairShare) {d : FairDecision} {charged : FairShare}
      → asked req env cfg fair ≡ ok (d, charged)
      → let weight = (tenant req.tenant cfg).weight in
        (at_most weight (fnum 0) ≡ false)
        × (d
            ≡ (decide req.tenant fair.defer_seconds
                (over req.tokens weight)
                env.fair_at
                (active req.task_queue env.fair_at fair)).0)
  asked_decision cfg fair {d} {charged} given =
      let weight = (tenant req.tenant cfg).weight in
      let (good, decided, _, _) =
        subst
          (Admits req.task_queue req.tenant weight
            (decide req.tenant fair.defer_seconds (over req.tokens weight) env.fair_at
              (active req.task_queue env.fair_at fair))
            (active req.task_queue env.fair_at fair) fair)
          given (admit_effect req.task_queue req.tenant weight req.tokens env.fair_at fair) in
      (good, decided)

  same_result : {E A : Type 0} {r : Result E A} {x y : A} → r ≡ ok x → r ≡ ok y → x ≡ y
  same_result h k = cc

  restored :
      (cfg : SchedulerConfig) (fair fair' : FairShare) (d : FairDecision) (charged : FairShare)
      → d.admitted ≡ true
      → asked req env cfg fair ≡ ok (d, charged)
      → given_back req env cfg charged ≡ ok fair'
      → let clock = clock_of req.tenant env.fair_at (active req.task_queue env.fair_at fair) in
        let cost = over req.tokens (tenant req.tenant cfg).weight in
        at_most (fnum 0) clock ≡ true
        → minus (plus clock cost) cost ≡ clock
        → (j : String)
        → lookup j (tenants_of req.task_queue fair') ≡ (
            if req.tenant == j
            then some (record { virtual_time = clock; last_seen = env.fair_at })
            else lookup j (active req.task_queue env.fair_at fair))
  restored cfg fair fair' d charged admitted given back nonneg exact j =
      let (good, decided) = asked_decision cfg fair given in
      let (d', s', s'', took, gave, clocks) =
        refund-admit req.task_queue req.tenant (tenant req.tenant cfg).weight req.tokens env.fair_at
          fair good (rw⁻¹ decided admitted) nonneg exact in
      let same : (d', s') ≡ (d, charged) = same_result took given in
      let same' : s'' ≡ fair' =
        same_result gave (subst (λ p. given_back req env cfg p.1 ≡ ok fair') (sym same) back) in
      subst
        (λ s. lookup j (tenants_of req.task_queue s) ≡ (
          if req.tenant == j
          then some (record {
            virtual_time = clock_of req.tenant env.fair_at (active req.task_queue env.fair_at fair);
            last_seen = env.fair_at;
          })
          else lookup j (active req.task_queue env.fair_at fair)))
        same' (clocks j)

  -- Under a policy with fair sharing, where adding and subtracting the cost does not round and the
  -- tenant's clock was not negative: after a request that the rate limiter defers, the tenant has
  -- the clock with which it asked, and the queue's other tenants are as they were, the idle ones
  -- left out.
  pub rate_limited_unbilled :
      (e : AdmissionEngine) (store : ConfigStore) {swapped : Bool} (d : AdmissionDecision)
      (e' : AdmissionEngine)
      → reload_if_changed false env.stat env.loaded e.store ≡ (ok swapped, store)
      → store.config.fairness.enabled ≡ true
      → admit_request req env e ≡ (ok d, e')
      → d.rule ≡ rate_limit
      → let clock = clock_of req.tenant env.fair_at (active req.task_queue env.fair_at e.fair) in
        let cost = over req.tokens (tenant req.tenant store.config).weight in
        at_most (fnum 0) clock ≡ true
        → minus (plus clock cost) cost ≡ clock
        → (j : String)
        → lookup j (tenants_of req.task_queue e'.fair) ≡ (
            if req.tenant == j
            then some (record { virtual_time = clock; last_seen = env.fair_at })
            else lookup j (active req.task_queue env.fair_at e.fair))
  rate_limited_unbilled e store d e' reloaded enabled answered by_rate nonneg exact =
      let charges =
        subst (Charged req env store.config e) answered
          (admit_request_charges req env e store reloaded enabled) in
      let (fd, charged, admitted, given, back, _) =
        subst (λ r. Charges req env store.config r e.fair e'.fair e.limiter e'.limiter) by_rate
          charges in
      restored store.config e.fair e'.fair fd charged admitted given back nonneg exact
