-- ===== src/Scheduler/Backlog/Watermarks.antt =====
-- The watermark rule (backlog.py): who is shed, and for how long.
use ancora.Prelude.{ℕ, ◌-◌, suc, ◌≤◌, ◌≡◌, true, false, arith, ltb, ◌&&◌, ◌||◌, max, if◌then◌else◌}
use ancora.Prelude.Int.{ℤ, leb_ℤ}
use ancora.Number.{Float, Num, fnum, at_most}
use ancora.Number.Laws.{fmin_at_most_right, fmin_mono, plus_mono_right}
use ancora.Scheduler.Backlog.{backoff, evaluate_backpressure}

module _ ⦃f : Float⦄ where
  capped :
      (depth soft hard : ℕ) (base cap : Num) → at_most (backoff depth soft hard base cap) cap ≡ true
  unfolding backoff
  capped depth soft hard base cap = fmin_at_most_right _ cap

  backoff_mono :
      (d d' soft hard : ℕ) (base cap : Num)
      → d ≤ d'
      → at_most (fnum 0) base ≡ true
      → at_most (backoff d soft hard base cap) (backoff d' soft hard base cap) ≡ true
  unfolding backoff
  backoff_mono d d' soft hard base cap le nonneg =
      let span = max (hard - soft) 1 in
      let positive : at_most (fnum span) (fnum 0) ≡ false =
        let e : span ≡ suc (span - 1) = omega arith in rw e (f.of_ℕ_pos (span - 1)) in
      let overshoot =
        f.over_mono (fnum (d - soft)) (fnum (d' - soft)) (fnum span)
          (f.of_ℕ_mono (d - soft) (d' - soft) (omega arith)) positive in
      fmin_mono _ _ cap (f.times_mono base _ _ nonneg (plus_mono_right _ _ (fnum 1) overshoot))

  -- Work is admitted exactly below the soft mark, or below the hard mark in a lane at or above
  -- the cutoff's urgency. Admitted work waits 0, and work that is shed waits the backoff, which
  -- is at most the cap; the decision repeats the depth and both marks.
  pub backpressure_rule :
      (depth soft hard : ℕ) (priority cutoff : ℤ) (base cap : Num)
      → let d = evaluate_backpressure depth soft hard priority cutoff base cap in
        (d.admitted ≡ (ltb depth soft || (ltb depth hard && leb_ℤ priority cutoff)))
        × (d.retry_after ≡ (if d.admitted then fnum 0 else backoff depth soft hard base cap))
        × (at_most (backoff depth soft hard base cap) cap ≡ true)
        × (d.depth ≡ depth)
        × (d.soft ≡ soft)
        × (d.hard ≡ hard)
  unfolding evaluate_backpressure
  backpressure_rule depth soft hard priority cutoff base cap = (
    ground arith,
    ground arith,
    capped depth soft hard base cap,
    ground arith,
    ground arith,
    ground arith,
  )

  -- A deeper queue is never kinder: work in a lane that is shed at one depth is shed in every
  -- lane of no more urgency at every greater depth, and the wait that it is given does not
  -- shrink.
  shedding_monotone :
      (d d' soft hard : ℕ) (priority priority' cutoff : ℤ) (base cap : Num)
      → d ≤ d'
      → leb_ℤ priority priority' ≡ true
      → at_most (fnum 0) base ≡ true
      → (evaluate_backpressure d soft hard priority cutoff base cap).admitted ≡ false
      → let before = evaluate_backpressure d soft hard priority cutoff base cap in
        let after = evaluate_backpressure d' soft hard priority' cutoff base cap in
        (after.admitted ≡ false) × (at_most before.retry_after after.retry_after ≡ true)
  unfolding evaluate_backpressure
  shedding_monotone d d' soft hard priority priority' cutoff base cap le lanes nonneg shed =
      (ground arith, ground (arith, backoff_mono d d' soft hard base cap le nonneg))
