-- ===== src/Dict/Totals.antt =====
-- Dicts of counts: a counter's value, and one more on one key.
use ancora.Prelude.{ℕ, ◌+◌, ◌≡◌, arith, Key, ◌==◌, if◌then◌else◌}
use ancora.Dict.{Dict, lookup_or, bump}
use ancora.Dict.Laws.{lookup-insert}

module _ {ℓ} {K : Type ℓ} ⦃key : Key K⦄ where
  abbrev pub total : K → Dict K ℕ → ℕ
  total q d = lookup_or 0 q d

  pub total-bump :
      (q k : K) (d : Dict K ℕ) → total q (bump k d) ≡ total q d + (if k == q then 1 else 0)
  unfolding bump lookup_or
  total-bump q k d = ground (arith, lookup-insert q k (lookup_or 0 k d + 1) d, key.agree_iff k q)
