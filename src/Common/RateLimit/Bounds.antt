-- ===== src/Common/RateLimit/Bounds.antt =====
-- The bounds of one bucket, and when a request is refused.
use ancora.Prelude.{◌≡◌, refl, true, false, arith, inl, inr, Bool-cases, if◌then◌else◌}
use ancora.Number.{Float, Num, fnum, fmin, fmax, plus, minus, times, at_most}
use ancora.Number.Laws.{
  at_most_refl, at_most_of_not, fmin_at_most_left, at_most_fmin, at_most_fmax_left, plus_nonneg,
}
use ancora.Common.RateLimit.{RateLimitConfig, available_at, refill_and_take}

module _ ⦃f : Float⦄ where
  -- A configuration that validation lets through.
  pub record IsPositive (cfg : RateLimitConfig) : Type 0 where
    pub rps : at_most cfg.rps (fnum 0) ≡ false
    pub burst : at_most cfg.burst (fnum 0) ≡ false

  available_at_bounds :
      (tokens last_ts now : Num) (cfg : RateLimitConfig)
      → IsPositive cfg
      → at_most (fnum 0) tokens ≡ true
      → (at_most (fnum 0) (available_at tokens last_ts now cfg) ≡ true)
        × (at_most (available_at tokens last_ts now cfg) cfg.burst ≡ true)
  unfolding available_at
  available_at_bounds tokens last_ts now cfg p h =
      let elapsed = fmax (fnum 0) (minus now last_ts) in
      let refill = times elapsed cfg.rps in
      (
        at_most_fmin cfg.burst (plus tokens refill) (fnum 0) (at_most_of_not _ _ p.burst) (
            plus_nonneg tokens refill h (
              f.times_nonneg elapsed cfg.rps (at_most_fmax_left (fnum 0) (minus now last_ts))
                (at_most_of_not _ _ p.rps))),
        fmin_at_most_left cfg.burst (plus tokens refill),
      )

  -- A bucket that holds between nothing and its burst does so after any request for a number of
  -- tokens that is not negative, whatever the clock says; its stamp is the clock. A request is
  -- admitted exactly when the refilled bucket covers it, and then pays in full; a refused one
  -- takes nothing and is told to wait a time that is not negative.
  refill_and_take_bounds :
      (tokens last_ts now : Num) (cfg : RateLimitConfig) (want : Num)
      → IsPositive cfg
      → at_most (fnum 0) tokens ≡ true
      → at_most (fnum 0) want ≡ true
      → let (left, stamp, decision) = refill_and_take tokens last_ts now cfg want in
        let available = available_at tokens last_ts now cfg in
        (at_most (fnum 0) left ≡ true)
        × (at_most left cfg.burst ≡ true)
        × (stamp ≡ now)
        × (decision.admitted ≡ at_most want available)
        × (left ≡ (if decision.admitted then minus available want else available))
        × (at_most (fnum 0) decision.retry_after ≡ true)
  unfolding refill_and_take
  refill_and_take_bounds tokens last_ts now cfg want p h w =
      let available = available_at tokens last_ts now cfg in
      let bounds = available_at_bounds tokens last_ts now cfg p h in
      elim (Bool-cases (at_most want available)) [
        | inl fits ↦ rw fits (
          f.minus_nonneg available want fits,
          f.at_most_trans _ _ _ (f.minus_at_most available want w) bounds.1,
          refl,
          refl,
          refl,
          at_most_refl (fnum 0),
        )
        | inr short ↦ rw short (
          bounds.0,
          bounds.1,
          refl,
          refl,
          refl,
          f.over_nonneg _ _ (f.minus_nonneg want available (at_most_of_not _ _ short)) p.rps,
        )
      ]

  -- A request for more tokens than the burst is refused at every time and from every bucket: the
  -- caller is deferred for ever.
  oversized_never_admitted :
      (tokens last_ts now : Num) (cfg : RateLimitConfig) (want : Num)
      → at_most want cfg.burst ≡ false
      → (refill_and_take tokens last_ts now cfg want).2.admitted ≡ false
  unfolding refill_and_take available_at
  oversized_never_admitted tokens last_ts now cfg want h =
      let refilled = plus tokens (times (fmax (fnum 0) (minus now last_ts)) cfg.rps) in
      ground (
        arith,
        fmin_at_most_left cfg.burst refilled,
        f.at_most_trans want (fmin cfg.burst refilled) cfg.burst,
      )
