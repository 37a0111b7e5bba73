-- ===== src/Common/RateLimit/Tests.antt =====
-- Runs of ratelimit.py over whole numbers.
use ancora.Prelude.{none, some, ◌≡◌, refl, ◌≢◌, true, false, String, List, [], ◌∷◌, string_key}
use ancora.Prelude.Int.{ℤ, pos, ◌+ℤ◌, ◌-ℤ◌, ◌*ℤ◌}
use ancora.Number.{plus, at_most}
use ancora.Number.Whole.{whole}
use ancora.Dict.{lookup}
use ancora.Common.RateLimit.{
  RateLimitConfig, Buckets, LuaNumbers, refill_and_take, limiter_admit, redis_admit,
}
use ancora.Common.RateLimit.Rate.{granted, left_over, allowance, IsExactRun, granted_bound}
use ancora.Common.RateLimit.Backends.{hash_of, replied, idle_ms, limiter_refines_script}

-- five tokens a second, ten at most
abbrev bucket : RateLimitConfig
bucket = record { rps = pos 5; burst = pos 10 }

-- Three tokens and one second later there are eight: a call for four leaves four.
takes_four :
    refill_and_take (pos 3) (pos 0) (pos 1) bucket (pos 4)
    ≡ (pos 4, pos 1, record { admitted = true; retry_after = pos 0 })
unfolding refill_and_take ◌+ℤ◌ ◌-ℤ◌ ◌*ℤ◌
takes_four = refl

-- A call for ten more is told to wait until ten are there.
waits :
    refill_and_take (pos 0) (pos 1) (pos 1) bucket (pos 10)
    ≡ (pos 0, pos 1, record { admitted = false; retry_after = pos 2 })
unfolding refill_and_take ◌+ℤ◌ ◌-ℤ◌ ◌*ℤ◌
waits = refl

abbrev later : List (ℤ × ℤ)
later = (pos 1, pos 8) ∷ (pos 2, pos 3) ∷ []

abbrev calls : List (ℤ × ℤ)
calls = (pos 0, pos 8) ∷ later

granted-calls : granted bucket (pos 0) calls (pos 10) (pos 0) ≡ pos 11
unfolding granted refill_and_take ◌+ℤ◌ ◌-ℤ◌ ◌*ℤ◌
granted-calls = refl

calls-IsExactRun : IsExactRun bucket (pos 0) calls (pos 10) (pos 0)
unfolding IsExactRun refill_and_take ◌+ℤ◌ ◌-ℤ◌ ◌*ℤ◌
calls-IsExactRun = (refl, refl, (refl, refl, (refl, refl, tt)))

granted_bound_example :
    let total =
      plus
        (granted bucket (pos 0) calls (pos 10) (pos 0))
        (left_over bucket calls (pos 10) (pos 0)) in
    (at_most total (allowance bucket (pos 10) calls (pos 0)) ≡ true)
    × (at_most total (allowance bucket (pos 10) later (pos 0)) ≡ true)
granted_bound_example = granted_bound bucket (pos 0) (pos 8) later (pos 10) (pos 0) calls-IsExactRun

abbrev buckets : Buckets
buckets = ("gemini", (pos 3, pos 0)) ∷ ("mock", (pos 9, pos 0)) ∷ []

-- texts of numbers that are all read as 2
abbrev lua : LuaNumbers
lua = record { tostring = λ x. "2"; float_of = λ t. pos 2; ceil = λ x. x }

limiter_refines_script_example :
    let (decision, state') = limiter_admit "gemini" bucket (pos 4) (pos 1) buckets in
    (redis_admit lua bucket (pos 4) (pos 1) (hash_of none (lookup "gemini" buckets))
      ≡ (replied lua decision, hash_of (some (idle_ms lua bucket)) (lookup "gemini" state')))
    × ((j : String) → j ≢ "gemini" → lookup j state' ≡ lookup j buckets)
limiter_refines_script_example =
    limiter_refines_script lua "gemini" bucket (pos 4) (pos 1) none buckets
