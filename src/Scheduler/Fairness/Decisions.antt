-- ===== src/Scheduler/Fairness/Decisions.antt =====
-- Who is deferred by fair share, how far a tenant may lead, and what a decision changes
-- (fairness.py).
use ancora.Prelude.{
  ◌≡◌, refl, sym, ◌≢◌, ◌⊎◌, true, false, none, some, String, [], arith, ◌==◌, string_key, length,
  ltb, ◌&&◌, Result, ok, raised, if◌then◌else◌, inl, inr, Bool-cases,
}
use ancora.Number.{Float, Num, fnum, plus, over, at_most, below}
use ancora.Dict.{lookup, lookup_or, insert, IsDict}
use ancora.Dict.Laws.{lookup-insert, lookup-insert_self}
use ancora.Errors.{ValueError, weight_not_positive}
use ancora.Scheduler.Fairness.{
  TenantState, FairDecision, FairShare, Tenants, tenants_of, with_tenants, active, min_virtual,
  seated, decide, admit,
}
use ancora.Scheduler.Fairness.Minimum.{min_virtual-attained, alone_at_minimum}

module _ ⦃f : Float⦄ where
  -- the tenant's clock as the decision reads it
  abbrev pub clock_of : String → Num → Tenants → Num
  clock_of tenant now tenants =
      (seated (min_virtual tenants) now (lookup tenant tenants)).virtual_time

  pub tenants_of-with_tenants :
      (queue : String) (tenants : Tenants) (s : FairShare)
      → tenants_of queue (with_tenants queue tenants s) ≡ tenants
  unfolding lookup_or
  tenants_of-with_tenants queue tenants s =
      rw (lookup-insert_self queue tenants s.queues, lookup_or)

  front_admitted :
      (tenant : String) (defer step now : Num) (tenants : Tenants)
      → at_most (fnum 0) step ≡ true
      → clock_of tenant now tenants ≡ min_virtual tenants
      → (decide tenant defer step now tenants).0.admitted ≡ true
  unfolding decide
  front_admitted tenant defer step now tenants h e =
      ground (arith, f.at_most_plus (min_virtual tenants) step h)

  -- Whatever the step, which is not negative: a tenant without a clock yet is admitted; and of any
  -- tenants that compete, at least one that has a clock is admitted.
  pub progress :
      (defer step now : Num) (tenants : Tenants)
      → IsDict tenants
      → tenants ≢ []
      → at_most (fnum 0) step ≡ true
      → ((j : String)
          → lookup j tenants ≡ none
          → (decide j defer step now tenants).0.admitted ≡ true)
        × ((j : String) × (lookup j tenants ≢ none)
            × ((decide j defer step now tenants).0.admitted ≡ true))
  progress defer step now tenants h ne nonneg =
      let (j, s, found, e) = min_virtual-attained tenants h ne in
      (
        λ k new. front_admitted k defer step now tenants nonneg (rw (new, clock_of)),
        (
          j,
          λ missing. cc (found, missing),
          front_admitted j defer step now tenants nonneg (rw (found, clock_of) (sym e)),
        ),
      )

  -- A tenant is admitted exactly when its clock is past the minimum by at most the step: one that
  -- nobody competes with always is. Admitted, its clock moves by the step, and so stays within
  -- two steps of the minimum; deferred, its clock stays and it is told to wait the configured
  -- time. The decision reports the clock that is stored.
  pub decision_rule :
      (tenant : String) (defer step now : Num) (tenants : Tenants)
      → at_most (fnum 0) step ≡ true
      → let (d, state) = decide tenant defer step now tenants in
        let clock = clock_of tenant now tenants in
        let limit = plus (min_virtual tenants) step in
        (d.admitted ≡ at_most clock limit)
        × (state.virtual_time ≡ (if d.admitted then plus clock step else clock))
        × (d.virtual_time ≡ state.virtual_time)
        × (state.last_seen ≡ now)
        × (d.retry_after ≡ (if d.admitted then fnum 0 else defer))
        × ((d.admitted ≡ false) ⊎ (at_most state.virtual_time (plus limit step) ≡ true))
  unfolding decide
  decision_rule tenant defer step now tenants nonneg =
      let clock = clock_of tenant now tenants in
      let limit = plus (min_virtual tenants) step in
      let state = seated (min_virtual tenants) now (lookup tenant tenants) in
      elim (Bool-cases (at_most clock limit)) [
        | inl within ↦
            let rule : (ltb 1 (length (insert tenant state tenants)) && below limit clock) ≡ false =
              ground arith in
            rw (rule, within)
              (refl, refl, refl, refl, refl, inr (f.plus_mono clock limit step within))
        | inr past ↦
            let rule : (ltb 1 (length (insert tenant state tenants)) && below limit clock) ≡ true =
              ground (
                arith,
                alone_at_minimum tenant state now tenants,
                f.at_most_plus (min_virtual tenants) step nonneg,
              ) in
            rw (rule, past) (refl, refl, refl, refl, refl, inl refl)
      ]

  -- What a call of `admit` promises of its result.
  abbrev pub Admits :
      String
      → String
      → Num
      → FairDecision × TenantState
      → Tenants
      → FairShare
      → Result ValueError (FairDecision × FairShare)
      → Type 0
  Admits queue tenant weight decided before s (raised e) =
      (e ≡ weight_not_positive) × (at_most weight (fnum 0) ≡ true)
  Admits queue tenant weight decided before s (ok (d, s')) =
      (at_most weight (fnum 0) ≡ false)
      × (d ≡ decided.0)
      × ((j : String)
          → lookup j (tenants_of queue s')
            ≡ (if tenant == j then some decided.1 else lookup j before))
      × ((q : String) → (queue == q) ≡ false → lookup q s'.queues ≡ lookup q s.queues)

  -- `admit` raises exactly for a weight that is not positive. Else it stores the decided state
  -- for the tenant; of the other tenants of the queue it keeps those that are not idle, as they
  -- are, and it leaves every other queue alone.
  pub admit_effect :
      (queue tenant : String) (weight cost now : Num) (s : FairShare)
      → Admits queue tenant weight
          (decide tenant s.defer_seconds (over cost weight) now (active queue now s))
          (active queue now s)
          s
          (admit queue tenant weight cost now s)
  unfolding admit
  admit_effect queue tenant weight cost now s =
      let before = active queue now s in
      let (decision, state) = decide tenant s.defer_seconds (over cost weight) now before in
      let tenants = insert tenant state before in
      elim (Bool-cases (at_most weight (fnum 0))) [
        | inl bad ↦ rw bad (refl, bad)
        | inr good ↦ rw good (
          good,
          refl,
          λ j. rw (tenants_of-with_tenants queue tenants s) (lookup-insert j tenant state before),
          λ q other. ground (arith, lookup-insert q queue tenants s.queues),
        )
      ]
