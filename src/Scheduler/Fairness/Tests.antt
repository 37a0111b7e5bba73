-- ===== src/Scheduler/Fairness/Tests.antt =====
-- Tenants of fairness.py, in whole steps.
use ancora.Prelude.{
  ℕ, ◌≡◌, ◌≢◌, ◌⊎◌, refl, true, false, none, some, String, [], ◌∷◌, ◌==◌, string_key, int_key,
  pair_key, ok, if◌then◌else◌,
}
use ancora.Prelude.Int.{pos, ◌+ℤ◌, ◌-ℤ◌}
use ancora.Number.{at_most, plus, over}
use ancora.Number.Whole.{whole}
use ancora.Dict.{lookup, insert, prune, lookup_or, IsDict}
use ancora.Scheduler.Fairness.{
  TenantState, FairDecision, FairShare, Tenants, tenants_of, active, min_virtual, min_from, decide,
  admit, refund, by_queue,
}
use ancora.Scheduler.Fairness.Decisions.{clock_of, progress, decision_rule}
use ancora.Scheduler.Fairness.Refund.{refund-admit}

abbrev state_at : ℕ → TenantState
state_at v = record { virtual_time = pos v; last_seen = pos 50 }

abbrev rivals : Tenants
rivals = ("a", state_at 3) ∷ ("b", state_at 8) ∷ []

abbrev share : FairShare
share = record { idle_seconds = pos 30; defer_seconds = pos 2; queues = ("cpu", rivals) ∷ [] }

rivals-IsDict : IsDict rivals
unfolding lookup
rivals-IsDict = (refl, (refl, tt))

rivals_compete : rivals ≢ []
rivals_compete h = cc

leader_waits : (decide "b" (pos 2) (pos 4) (pos 60) rivals).0.admitted ≡ false
unfolding decide min_virtual min_from insert lookup ◌+ℤ◌
leader_waits = refl

lanes_of_cpu : by_queue "cpu" ((("cpu", pos 1), 4) ∷ (("io", pos 1), 9) ∷ []) ≡ (pos 1, 4) ∷ []
unfolding by_queue
lanes_of_cpu = refl

progress_example :
    ((j : String)
      → lookup j rivals ≡ none
      → (decide j (pos 2) (pos 4) (pos 60) rivals).0.admitted ≡ true)
    × ((j : String) × (lookup j rivals ≢ none)
        × ((decide j (pos 2) (pos 4) (pos 60) rivals).0.admitted ≡ true))
progress_example = progress (pos 2) (pos 4) (pos 60) rivals rivals-IsDict rivals_compete refl

decision_rule_example :
    let (d, state) = decide "b" (pos 2) (pos 4) (pos 60) rivals in
    let clock = clock_of "b" (pos 60) rivals in
    let limit = plus (min_virtual rivals) (pos 4) in
    (d.admitted ≡ at_most clock limit)
    × (state.virtual_time ≡ (if d.admitted then plus clock (pos 4) else clock))
    × (d.virtual_time ≡ state.virtual_time)
    × (state.last_seen ≡ pos 60)
    × (d.retry_after ≡ (if d.admitted then pos 0 else pos 2))
    × ((d.admitted ≡ false) ⊎ (at_most state.virtual_time (plus limit (pos 4)) ≡ true))
decision_rule_example = decision_rule "b" (pos 2) (pos 4) (pos 60) rivals refl

admitted_a :
    (decide "a" (pos 2) (over (pos 8) (pos 2)) (pos 60) (active "cpu" (pos 60) share)).0.admitted
    ≡ true
unfolding decide active min_virtual min_from insert lookup prune lookup_or ◌+ℤ◌ ◌-ℤ◌
admitted_a = refl

clock_of_a : clock_of "a" (pos 60) (active "cpu" (pos 60) share) ≡ pos 3
unfolding active min_virtual min_from lookup prune lookup_or ◌-ℤ◌
clock_of_a = refl

clock_not_negative : at_most (pos 0) (clock_of "a" (pos 60) (active "cpu" (pos 60) share)) ≡ true
clock_not_negative = rw clock_of_a refl

charge_is_exact :
    clock_of "a" (pos 60) (active "cpu" (pos 60) share) +ℤ pos 4 -ℤ pos 4
    ≡ clock_of "a" (pos 60) (active "cpu" (pos 60) share)
unfolding ◌+ℤ◌ ◌-ℤ◌
charge_is_exact = rw clock_of_a refl

refund-admit_example :
    let clock = clock_of "a" (pos 60) (active "cpu" (pos 60) share) in
    (d : FairDecision) × (s' : FairShare) × (s'' : FairShare) × (admit "cpu" "a"
        (pos 2)
        (pos 8)
        (pos 60)
        share
      ≡ ok (d, s'))
    × (refund "cpu" "a" (pos 2) (pos 8) s' ≡ ok s'')
    × ((j : String)
        → lookup j (tenants_of "cpu" s'') ≡ (
            if "a" == j
            then some (record { virtual_time = clock; last_seen = pos 60 })
            else lookup j (active "cpu" (pos 60) share)))
refund-admit_example =
    refund-admit "cpu" "a" (pos 2) (pos 8) (pos 60) share refl admitted_a clock_not_negative
      charge_is_exact
