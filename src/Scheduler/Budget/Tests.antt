-- ===== src/Scheduler/Budget/Tests.antt =====
-- Spend and limits of budget.py, in whole dollars.
use ancora.Prelude.{◌≡◌, refl, true, some, [], ◌∷◌, string_key}
use ancora.Prelude.Int.{pos, ◌+ℤ◌}
use ancora.Number.Whole.{whole}
use ancora.Dict.{lookup, IsDict}
use ancora.Scheduler.Budget.{BudgetLedger, check_budget, within_limit, exceeded}

refuses :
    (check_budget (pos 8) (pos 5) (some (pos 10)) "hard" (pos 1) "run r").reason
    ≡ some (exceeded "run r" (pos 13) (pos 10) (pos 8))
unfolding check_budget within_limit ◌+ℤ◌
refuses = refl

-- a limit of 0 does not limit
zero_is_no_limit :
    (check_budget (pos 8) (pos 5) (some (pos 0)) "hard" (pos 1) "run r").allowed ≡ true
unfolding check_budget
zero_is_no_limit = refl

abbrev ledger : BudgetLedger
ledger = record { by_run = ("r", pos 1) ∷ ("q", pos 4) ∷ []; by_tenant = ("t", pos 5) ∷ [] }

ledger-IsDict : IsDict ledger.by_run
unfolding lookup
ledger-IsDict = (refl, (refl, tt))
