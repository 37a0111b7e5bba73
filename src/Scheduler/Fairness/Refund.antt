-- ===== src/Scheduler/Fairness/Refund.antt =====
-- A refund takes an admission's charge back (fairness.py).
use ancora.Prelude.{◌≡◌, ap, true, false, some, String, arith, ◌==◌, string_key, ok, if◌then◌else◌}
use ancora.Number.{Float, Num, fnum, fmax, plus, minus, over, at_most}
use ancora.Number.Laws.{fmax_eq_right}
use ancora.Dict.{lookup, insert}
use ancora.Dict.Laws.{lookup-insert, lookup-insert_self}
use ancora.Scheduler.Fairness.{
  TenantState, FairShare, tenants_of, with_tenants, active, decide, admit, refund, refund_state,
}
use ancora.Scheduler.Fairness.Decisions.{clock_of, tenants_of-with_tenants}

module _ ⦃f : Float⦄ where
  -- an admitted tenant's new state
  charged :
      (tenant : String) (defer step now : Num) (s : FairShare) (queue : String)
      → (decide tenant defer step now (active queue now s)).0.admitted ≡ true
      → (decide tenant defer step now (active queue now s)).1 ≡ record {
        virtual_time = plus (clock_of tenant now (active queue now s)) step;
        last_seen = now;
      }
  unfolding decide
  charged tenant defer step now s queue h = ground arith

  settle : Num → Num → TenantState → TenantState
  settle weight cost state = record {
    virtual_time = fmax (fnum 0) (minus state.virtual_time (over cost weight));
    last_seen = state.last_seen;
  }

  refund_known :
      (queue tenant : String) (weight cost : Num) (s : FairShare) (state : TenantState)
      → at_most weight (fnum 0) ≡ false
      → lookup tenant (tenants_of queue s) ≡ some state
      → refund queue tenant weight cost s
        ≡ ok (with_tenants queue (insert tenant (settle weight cost state) (tenants_of queue s)) s)
  unfolding refund settle
  refund_known queue tenant weight cost s state good found = rw (found, refund_state) (ground arith)

  settled :
      (clock step now : Num)
      → at_most (fnum 0) clock ≡ true
      → minus (plus clock step) step ≡ clock
      → fmax (fnum 0) (minus (plus clock step) step) ≡ clock
  settled clock step now nonneg exact = rw exact (fmax_eq_right (fnum 0) clock nonneg)

  -- Where the charge is added and taken back without rounding, and the clock was not negative: a
  -- refund after an admission, with the same weight and cost, succeeds, and leaves every tenant of
  -- the queue with the clock that it had when it was asked for, so a tenant that a later governor
  -- defers is not billed. The tenant counts as seen now, and the idle ones are gone.
  pub refund-admit :
      (queue tenant : String) (weight cost now : Num) (s : FairShare)
      → at_most weight (fnum 0) ≡ false
      → (decide tenant s.defer_seconds (over cost weight) now (active queue now s)).0.admitted
        ≡ true
      → let clock = clock_of tenant now (active queue now s) in
        at_most (fnum 0) clock ≡ true
        → minus (plus clock (over cost weight)) (over cost weight) ≡ clock
        → (d : _) × (s' : FairShare) × (s'' : FairShare) × (admit queue tenant weight cost now s
            ≡ ok (d, s'))
          × (refund queue tenant weight cost s' ≡ ok s'')
          × ((j : String)
              → lookup j (tenants_of queue s'') ≡ (
                  if tenant == j
                  then some (record { virtual_time = clock; last_seen = now })
                  else lookup j (active queue now s)))
  unfolding admit
  refund-admit queue tenant weight cost now s good admitted nonneg exact =
      let before = active queue now s in
      let step = over cost weight in
      let (decision, state) = decide tenant s.defer_seconds step now before in
      let tenants = insert tenant state before in
      let s' = with_tenants queue tenants s in
      let clock = clock_of tenant now before in
      let known = tenants_of-with_tenants queue tenants s in
      let tenants' = insert tenant (settle weight cost state) (tenants_of queue s') in
      let charge = charged tenant s.defer_seconds step now s queue admitted in
      let restored : settle weight cost state ≡ record { virtual_time = clock; last_seen = now } =
        rw charge (
          unfold settle in
          ap (λ v. record { virtual_time = v; last_seen = now })
            (settled clock step now nonneg exact)) in
      (
        decision,
        s',
        with_tenants queue tenants' s',
        rw good,
        refund_known queue tenant weight cost s' state good
            (rw known (lookup-insert_self tenant state before)),
        λ j. rw (tenants_of-with_tenants queue tenants' s') (
            rw
              (
                lookup-insert j tenant (settle weight cost state) (tenants_of queue s'),
                known,
                lookup-insert j tenant state before,
                restored,
              )
              (ground arith)),
      )
