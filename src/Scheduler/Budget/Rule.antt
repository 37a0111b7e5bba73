-- ===== src/Scheduler/Budget/Rule.antt =====
-- When a budget refuses, and when it warns (budget.py).
use ancora.Prelude.{
  ◌≡◌, refl, Bool, true, false, Option, none, some, String, arith, ◌==◌, ◌&&◌, ◌||◌, not,
  string_key,
}
use ancora.Number.{Float, Num, fnum, fmax, plus, times, at_most, below}
use ancora.Scheduler.Budget.{Message, check_budget}

module _ ⦃f : Float⦄ where
  -- a limit that is enforced
  abbrev enforced : Option Num → String → Bool
  enforced none mode = false
  enforced (some limit) mode = not (mode == "off") && not (at_most limit (fnum 0))

  abbrev overrun : Num → Option Num → Bool
  overrun projected none = false
  overrun projected (some limit) = below limit projected

  abbrev pub has : Option Message → Bool
  has none = false
  has (some _) = true

  abbrev pub reached : Num → Option Num → Num → Bool
  reached projected none warn_at = false
  reached projected (some limit) warn_at = at_most (times limit warn_at) projected

  -- Spend is refused exactly in mode "hard", under a limit above 0 that the spend and the
  -- estimate together pass; a refusal has a reason. Any other request is allowed, with no reason,
  -- and warned of exactly if a limit is enforced and is passed, or the warning share of it is
  -- reached. The verdict repeats the spend and the limit.
  budget_rule :
      (spent estimated : Num) (limit : Option Num) (mode : String) (warn_at : Num) (scope : String)
      → let v = check_budget spent estimated limit mode warn_at scope in
        let projected = plus spent (fmax estimated (fnum 0)) in
        let active = enforced limit mode in
        (v.allowed ≡ not (active && (overrun projected limit && mode == "hard")))
        × (has v.reason ≡ not v.allowed)
        × (has v.warning ≡ (
            active && ((overrun projected limit || reached projected limit warn_at) && v.allowed)))
        × (v.spent_usd ≡ spent)
        × (v.limit_usd ≡ limit)
  unfolding check_budget
  budget_rule spent estimated none mode warn_at scope = (refl, refl, refl, refl, refl)
  budget_rule spent estimated (some limit) mode warn_at scope =
      (ground arith, ground arith, ground arith, ground arith, ground arith)
