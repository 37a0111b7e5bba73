-- ===== src/Scheduler/Budget.antt =====
-- services/scheduler/ancora_scheduler/budget.py: the spend ledger and the budget rule of one scope.
-- A message keeps the values that the code formats into it.
pub mod Rule
pub mod Spend
mod Tests
use ancora.Prelude.{
  Bool, true, false, Option, none, some, String, [], ◌||◌, ◌==◌, string_key, if◌then◌else◌,
}
use ancora.Number.{Float, Num, fnum, fmax, plus, times, over, at_most, below, same}
use ancora.Dict.{Dict, insert, erase, lookup_or}

module _ ⦃f : Float⦄ where
  pub data Message : Type 0 where
    -- scope, projected, limit, spent
    exceeded : String → Num → Num → Num → Message
    -- scope, projected / limit, projected, limit
    nearing : String → Num → Num → Num → Message

  pub record BudgetVerdict : Type 0 where
    pub allowed : Bool
    pub warning : Option Message
    pub reason : Option Message
    pub spent_usd : Num
    pub limit_usd : Option Num

  fraction_of : Num → Option Num → Num
  fraction_of spent none = fnum 0
  fraction_of spent (some limit) = if same limit (fnum 0) then fnum 0 else over spent limit

  -- BudgetVerdict.fraction
  unfoldable fraction : BudgetVerdict → Num
  unfolding fraction_of
  fraction v = fraction_of v.spent_usd v.limit_usd

  pub record BudgetLedger : Type 0 where
    pub by_run : Dict String Num
    pub by_tenant : Dict String Num

  abbrev pub empty_ledger : BudgetLedger
  empty_ledger = record { by_run = []; by_tenant = [] }

  unfoldable pub add_spend : String → Num → Dict String Num → Dict String Num
  add_spend k usd d = insert k (plus (lookup_or (fnum 0) k d) usd) d

  -- BudgetLedger.record
  unfoldable pub record_spend : String → String → Num → BudgetLedger → BudgetLedger
  record_spend run_id tenant usd l = if at_most usd (fnum 0) then l else record {
    by_run = add_spend run_id usd l.by_run;
    by_tenant = add_spend tenant usd l.by_tenant;
  }

  unfoldable pub run_spend : String → BudgetLedger → Num
  run_spend run_id l = lookup_or (fnum 0) run_id l.by_run

  unfoldable pub tenant_spend : String → BudgetLedger → Num
  tenant_spend tenant l = lookup_or (fnum 0) tenant l.by_tenant

  unfoldable pub forget_run : String → BudgetLedger → BudgetLedger
  forget_run run_id l = record l { by_run = erase run_id l.by_run }

  -- BudgetLedger.snapshot: runs, tenants
  unfoldable pub snapshot : BudgetLedger → Dict String Num × Dict String Num
  snapshot l = (l.by_run, l.by_tenant)

  abbrev allow : Option Message → Num → Option Num → BudgetVerdict
  allow warning spent limit = record {
    allowed = true;
    warning = warning;
    reason = none;
    spent_usd = spent;
    limit_usd = limit;
  }

  within_limit : Num → Num → Num → String → Num → String → BudgetVerdict
  within_limit spent estimated limit mode warn_at scope =
      let projected = plus spent (fmax estimated (fnum 0)) in
      let message = exceeded scope projected limit spent in
      let refusal : BudgetVerdict = record {
        allowed = false;
        warning = none;
        reason = some message;
        spent_usd = spent;
        limit_usd = some limit;
      } in
      if below limit projected
      then (if mode == "hard" then refusal else allow (some message) spent (some limit))
      else if at_most (times limit warn_at) projected
      then allow (some (nearing scope (over projected limit) projected limit)) spent (some limit)
      else allow none spent (some limit)

  -- check_budget: spent, estimated, limit, mode, warn_at, scope
  unfoldable pub check_budget : Num → Num → Option Num → String → Num → String → BudgetVerdict
  unfolding within_limit
  check_budget spent estimated none mode warn_at scope = allow none spent none
  check_budget spent estimated (some limit) mode warn_at scope =
      if mode == "off" || at_most limit (fnum 0)
      then allow none spent (some limit)
      else within_limit spent estimated limit mode warn_at scope
