-- ===== src/Common/RateLimit/Backends.antt =====
-- The in-process limiter and the Redis script decide alike (ratelimit.py).
use ancora.Prelude.{
  refl, inl, inr, Bool-cases, ◌≡◌, ◌≢◌, Option, none, some, String, arith, string_key,
  if◌then◌else◌,
}
use ancora.Number.{Float, Num, fnum, fmax, fmin, plus, times, over, at_most, minus, below}
use ancora.Dict.{lookup}
use ancora.Dict.Laws.{lookup-insert, lookup-insert_self}
use ancora.Common.RateLimit.{
  RateLimitConfig, AdmitDecision, LuaNumbers, Bucket, Buckets, Hash, refill_and_take, bucket_or,
  limiter_admit, redis_admit, or_default,
}

module _ ⦃f : Float⦄ where
  -- the Redis hash that stands for an entry of the in-process limiter, with the milliseconds after
  -- which it is dropped
  abbrev pub hash_of : Option Num → Option Bucket → Hash
  hash_of expire_ms none = record { tokens = none; ts = none; expire_ms = expire_ms }
  hash_of expire_ms (some (tokens, ts)) = record {
    tokens = some tokens;
    ts = some ts;
    expire_ms = expire_ms;
  }

  -- a decision as it comes through the script's reply
  abbrev pub replied : LuaNumbers → AdmitDecision → AdmitDecision
  replied lua d = record d { retry_after = lua.float_of (lua.tostring d.retry_after) }

  -- the time in which an empty bucket fills, and a second
  abbrev pub idle_ms : LuaNumbers → RateLimitConfig → Num
  idle_ms lua cfg = plus (lua.ceil (times (over cfg.burst cfg.rps) (fnum 1000))) (fnum 1000)

  -- `if elapsed < 0 then elapsed = 0 end` is `max(0.0, …)`
  elapsed_agree : (x : Num) → (if below x (fnum 0) then fnum 0 else x) ≡ fmax (fnum 0) x
  elapsed_agree x = ground (arith, f.at_most_total x (fnum 0), f.at_most_antisymm x (fnum 0))

  script_agree :
      (lua : LuaNumbers) (cfg : RateLimitConfig) (want now tokens ts : Num) (h : Hash)
      → or_default cfg.burst h.tokens ≡ tokens
      → or_default now h.ts ≡ ts
      → redis_admit lua cfg want now h ≡ (
          let (left, stamp, decision) = refill_and_take tokens ts now cfg want in
          (replied lua decision, hash_of (some (idle_ms lua cfg)) (some (left, stamp))))
  unfolding redis_admit refill_and_take
  script_agree lua cfg want now tokens ts h p q =
      let available = fmin cfg.burst (plus tokens (times (fmax (fnum 0) (minus now ts)) cfg.rps)) in
      elim (Bool-cases (at_most want available)) [
        | inl fits ↦ rw (p, q, elapsed_agree (minus now ts), fits) refl
        | inr short ↦ rw (p, q, elapsed_agree (minus now ts), short) refl
      ]

  -- From a hash that Redis has not dropped, with the fields of the limiter's bucket, or with none
  -- where the limiter has no bucket: the script admits what the limiter admits, tells to wait as
  -- long, but for the text in which it tells it, and leaves the fields of the limiter's new bucket,
  -- to be dropped after the time in which an empty bucket fills, rounded up, and a second; the
  -- limiter touches no other key.
  pub limiter_refines_script :
      (lua : LuaNumbers) (key : String) (cfg : RateLimitConfig) (want now : Num)
      (expire_ms : Option Num) (state : Buckets)
      → let (decision, state') = limiter_admit key cfg want now state in
        (redis_admit lua cfg want now (hash_of expire_ms (lookup key state))
          ≡ (replied lua decision, hash_of (some (idle_ms lua cfg)) (lookup key state')))
        × ((j : String) → j ≢ key → lookup j state' ≡ lookup j state)
  unfolding limiter_admit
  limiter_refines_script lua key cfg want now expire_ms state =
      let (tokens, ts) = bucket_or (cfg.burst, now) (lookup key state) in
      let (left, stamp, decision) = refill_and_take tokens ts now cfg want in
      (
        rw (lookup-insert_self key (left, stamp) state) (
            script_agree lua cfg want now tokens ts (hash_of expire_ms (lookup key state))
              (ground arith) (ground arith)),
        λ j ne. ground (arith, lookup-insert j key (left, stamp) state, string_key.agree_iff key j),
      )
