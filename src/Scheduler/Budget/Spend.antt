-- ===== src/Scheduler/Budget/Spend.antt =====
-- What the ledger knows after the workers' reports (budget.py).
use ancora.Prelude.{
  ◌≡◌, refl, ap, ◌∙◌, String, List, [], ◌∷◌, arith, ◌==◌, string_key, if◌then◌else◌,
}
use ancora.Number.{Float, Num, fnum, plus, at_most}
use ancora.Dict.{Dict, lookup_or, IsDict}
use ancora.Dict.Laws.{lookup-insert, lookup-erase}
use ancora.Scheduler.Budget.{
  BudgetLedger, add_spend, record_spend, run_spend, tenant_spend, forget_run,
}

module _ ⦃f : Float⦄ where
  -- one completion report
  pub record Report : Type 0 where
    pub run_id : String
    pub tenant : String
    pub usd : Num

  unfoldable record_all : List Report → BudgetLedger → BudgetLedger
  record_all [] l = l
  record_all (r ∷ rs) l = record_all rs (record_spend r.run_id r.tenant r.usd l)

  -- the sum, in the order of the reports, of the amounts above 0 under one key
  unfoldable spend_from : (Report → String) → String → Num → List Report → Num
  spend_from key k acc [] = acc
  spend_from key k acc (r ∷ rs) =
      spend_from key k
        (if at_most r.usd (fnum 0) then acc else if key r == k then plus acc r.usd else acc) rs

  lookup-add_spend :
      (j k : String) (usd : Num) (d : Dict String Num)
      → lookup_or (fnum 0) j (add_spend k usd d)
        ≡ (if k == j then plus (lookup_or (fnum 0) j d) usd else lookup_or (fnum 0) j d)
  unfolding add_spend lookup_or
  lookup-add_spend j k usd d =
      ground
        (arith, lookup-insert j k (plus (lookup_or (fnum 0) k d) usd) d, string_key.agree_iff k j)

  pub run_spend-record :
      (run run_id tenant : String) (usd : Num) (l : BudgetLedger)
      → run_spend run (record_spend run_id tenant usd l) ≡ (
          if at_most usd (fnum 0)
          then run_spend run l
          else if run_id == run
          then plus (run_spend run l) usd
          else run_spend run l)
  unfolding run_spend record_spend
  run_spend-record run run_id tenant usd l =
      ground (arith, lookup-add_spend run run_id usd l.by_run)

  tenant_spend-record :
      (t run_id tenant : String) (usd : Num) (l : BudgetLedger)
      → tenant_spend t (record_spend run_id tenant usd l) ≡ (
          if at_most usd (fnum 0)
          then tenant_spend t l
          else if tenant == t
          then plus (tenant_spend t l) usd
          else tenant_spend t l)
  unfolding tenant_spend record_spend
  tenant_spend-record t run_id tenant usd l =
      ground (arith, lookup-add_spend t tenant usd l.by_tenant)

  -- After any reports the spend of a run, and the spend of a tenant, is what it was and the sum
  -- of the amounts above 0 reported under its name, in order; other names' reports do not count.
  spend-record_all :
      (run tenant : String) (rs : List Report) (l : BudgetLedger)
      → (run_spend run (record_all rs l) ≡ spend_from (λ r. r.run_id) run (run_spend run l) rs)
        × (tenant_spend tenant (record_all rs l)
            ≡ spend_from (λ r. r.tenant) tenant (tenant_spend tenant l) rs)
  unfolding record_all spend_from
  spend-record_all run tenant [] l = (refl, refl)
  spend-record_all run tenant (r ∷ rs) l =
      let l' = record_spend r.run_id r.tenant r.usd l in
      let (runs, tenants) = spend-record_all run tenant rs l' in
      (
        runs
            ∙ ap (λ v. spend_from (λ r. r.run_id) run v rs)
                (run_spend-record run r.run_id r.tenant r.usd l),
        tenants
            ∙ ap (λ v. spend_from (λ r. r.tenant) tenant v rs)
                (tenant_spend-record tenant r.run_id r.tenant r.usd l),
      )

  -- Forgetting a run that the ledger lists once sets its spend to 0 and changes no other run's
  -- spend and no tenant's.
  forget_run_effect :
      (run_id run tenant : String) (l : BudgetLedger)
      → IsDict l.by_run
      → (run_spend run (forget_run run_id l) ≡ (if run_id == run then fnum 0 else run_spend run l))
        × (tenant_spend tenant (forget_run run_id l) ≡ tenant_spend tenant l)
  unfolding run_spend tenant_spend forget_run lookup_or
  forget_run_effect run_id run tenant l h =
      (ground (arith, lookup-erase run run_id l.by_run h), refl)
