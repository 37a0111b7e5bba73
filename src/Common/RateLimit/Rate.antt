-- ===== src/Common/RateLimit/Rate.antt =====
-- What one bucket grants over a sequence of requests (ratelimit.py).
use ancora.Prelude.{
  ◌≡◌, refl, sym, subst, ◌∙◌, true, List, [], ◌∷◌, arith, inl, inr, Bool-cases, if◌then◌else◌,
}
use ancora.Number.{Float, Num, fnum, fmin, fmax, plus, minus, times, at_most}
use ancora.Number.Laws.{at_most_refl, fmin_at_most_left, fmin_at_most_right, plus_mono_right}
use ancora.Common.RateLimit.{RateLimitConfig, available_at, refill_and_take}

module _ ⦃f : Float⦄ (cfg : RateLimitConfig) where
  -- what was granted before, and then in all by the requests, each a time and a number of tokens
  unfoldable pub granted : Num → List (Num × Num) → Num → Num → Num
  granted paid [] tokens last_ts = paid
  granted paid ((now, want) ∷ rest) tokens last_ts =
      let (left, stamp, decision) = refill_and_take tokens last_ts now cfg want in
      granted (if decision.admitted then plus paid want else paid) rest left stamp

  -- what the bucket holds after them
  unfoldable pub left_over : List (Num × Num) → Num → Num → Num
  left_over [] tokens last_ts = tokens
  left_over ((now, want) ∷ rest) tokens last_ts =
      let (left, stamp, _) = refill_and_take tokens last_ts now cfg want in
      left_over rest left stamp

  -- rps times the time that passed since the last request
  abbrev pub refill : Num → Num → Num
  refill last_ts now = times (fmax (fnum 0) (minus now last_ts)) cfg.rps

  -- a budget, and rps times the time that passes between the requests
  unfoldable pub allowance : Num → List (Num × Num) → Num → Num
  allowance budget [] last_ts = budget
  allowance budget ((now, want) ∷ rest) last_ts =
      allowance (plus budget (refill last_ts now)) rest now

  -- The sums of this run are not rounded: what was granted and a refill are added in either
  -- order, and tokens that are taken from the bucket and granted make up what was there.
  unfoldable pub IsExactRun : Num → List (Num × Num) → Num → Num → Type 0
  IsExactRun paid [] tokens last_ts = Unit
  IsExactRun paid ((now, want) ∷ rest) tokens last_ts =
      let available = fmin cfg.burst (plus tokens (refill last_ts now)) in
      let (left, stamp, decision) = refill_and_take tokens last_ts now cfg want in
      (plus (plus paid want) (minus available want) ≡ plus paid available)
      × (plus paid (plus tokens (refill last_ts now))
          ≡ plus (plus paid tokens) (refill last_ts now))
      × IsExactRun (if decision.admitted then plus paid want else paid) rest left stamp

  stamp-eq-now :
      (tokens last_ts now want : Num) → (refill_and_take tokens last_ts now cfg want).1 ≡ now
  unfolding refill_and_take
  stamp-eq-now tokens last_ts now want = ground arith

  -- what is granted and left after a request is what was granted and available before it
  step_kept :
      (paid tokens last_ts now want : Num)
      → let available = fmin cfg.burst (plus tokens (refill last_ts now)) in
        let (left, _, decision) = refill_and_take tokens last_ts now cfg want in
        plus (plus paid want) (minus available want) ≡ plus paid available
        → plus (if decision.admitted then plus paid want else paid) left ≡ plus paid available
  unfolding refill_and_take available_at
  step_kept paid tokens last_ts now want exact =
      let available = fmin cfg.burst (plus tokens (refill last_ts now)) in
      elim (Bool-cases (at_most want available)) [
        | inl fits ↦ rw fits exact
        | inr short ↦ rw short refl
      ]

  within_allowance :
      (paid budget : Num) (requests : List (Num × Num)) (tokens last_ts : Num)
      → IsExactRun paid requests tokens last_ts
      → at_most (plus paid tokens) budget ≡ true
      → at_most
          (plus (granted paid requests tokens last_ts) (left_over requests tokens last_ts))
          (allowance budget requests last_ts)
        ≡ true
  unfolding granted left_over allowance IsExactRun
  within_allowance paid budget [] tokens last_ts exact h = h
  within_allowance paid budget ((now, want) ∷ rest) tokens last_ts (taken, moved, exact) h =
      let more = refill last_ts now in
      let available = fmin cfg.burst (plus tokens more) in
      let (left, stamp, decision) = refill_and_take tokens last_ts now cfg want in
      let paid' = if decision.admitted then plus paid want else paid in
      let filled : at_most (plus paid available) (plus (plus paid tokens) more) ≡ true =
        subst (λ x. at_most (plus paid available) x ≡ true) moved
          (plus_mono_right available (plus tokens more) paid
            (fmin_at_most_right cfg.burst (plus tokens more))) in
      let next : at_most (plus paid' left) (plus budget more) ≡ true =
        f.at_most_trans (plus paid' left) (plus (plus paid tokens) more) (plus budget more)
          (subst (λ x. at_most x (plus (plus paid tokens) more) ≡ true)
            (sym (step_kept paid tokens last_ts now want taken)) filled)
          (f.plus_mono (plus paid tokens) budget more h) in
      subst
        (λ t.
          at_most (plus (granted paid' rest left stamp) (left_over rest left stamp))
            (allowance (plus budget more) rest t)
          ≡ true)
        (stamp-eq-now tokens last_ts now want)
        (within_allowance paid' (plus budget more) rest left stamp exact next)

  from_burst :
      (now want : Num) (rest : List (Num × Num)) (tokens last_ts : Num)
      → IsExactRun (fnum 0) ((now, want) ∷ rest) tokens last_ts
      → at_most
          (plus
            (granted (fnum 0) ((now, want) ∷ rest) tokens last_ts)
            (left_over ((now, want) ∷ rest) tokens last_ts))
          (allowance cfg.burst rest now)
        ≡ true
  unfolding granted left_over IsExactRun
  from_burst now want rest tokens last_ts (taken, moved, exact') =
      let total = plus tokens (refill last_ts now) in
      let available = fmin cfg.burst total in
      let (left, stamp, decision) = refill_and_take tokens last_ts now cfg want in
      let paid' = if decision.admitted then plus (fnum 0) want else fnum 0 in
      let kept : plus paid' left ≡ available =
        step_kept (fnum 0) tokens last_ts now want taken
        ∙ (f.plus_comm (fnum 0) available ∙ f.plus_zero available) in
      subst
        (λ t.
          at_most (plus (granted paid' rest left stamp) (left_over rest left stamp))
            (allowance cfg.burst rest t)
          ≡ true)
        (stamp-eq-now tokens last_ts now want)
        (within_allowance paid' cfg.burst rest left stamp exact'
          (rw kept (fmin_at_most_left cfg.burst total)))

  -- Where the sums of the run are not rounded, the tokens that any requests are granted, and those
  -- that are left at their end, are together at most what the bucket held and `rps` times the time
  -- that passed since; and at most the burst and `rps` times the time that passed since the first
  -- of the requests: whatever they ask for and whatever the clock does.
  pub granted_bound :
      (now want : Num) (rest : List (Num × Num)) (tokens last_ts : Num)
      → IsExactRun (fnum 0) ((now, want) ∷ rest) tokens last_ts
      → let total =
          plus
            (granted (fnum 0) ((now, want) ∷ rest) tokens last_ts)
            (left_over ((now, want) ∷ rest) tokens last_ts) in
        (at_most total (allowance tokens ((now, want) ∷ rest) last_ts) ≡ true)
        × (at_most total (allowance cfg.burst rest now) ≡ true)
  granted_bound now want rest tokens last_ts exact =
      let zero_plus : (x : Num) → plus (fnum 0) x ≡ x =
        λ x. f.plus_comm (fnum 0) x ∙ f.plus_zero x in
      (
        within_allowance (fnum 0) tokens ((now, want) ∷ rest) tokens last_ts exact
            (rw (zero_plus tokens) (at_most_refl tokens)),
        from_burst now want rest tokens last_ts exact,
      )
