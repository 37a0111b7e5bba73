-- ===== src/Common/RateLimit.antt =====
-- packages/common/ancora_common/ratelimit.py: the token bucket, the in-process limiter, and the
-- Lua script of the Redis limiter. Every clock reading is an argument.
pub mod Bounds
pub mod Rate
pub mod Backends
mod Tests
use ancora.Prelude.{
  ℕ, Bool, true, false, Option, none, some, String, Result, ok, raised, ◌||◌, not, nat_eq,
  if◌then◌else◌, string_key,
}
use ancora.Errors.{ValueError, rate_limit_not_positive}
use ancora.Number.{Float, Num, fnum, fmin, fmax, plus, minus, times, over, at_most, below}
use ancora.Dict.{Dict, lookup, insert}

module _ ⦃f : Float⦄ where
  pub record RateLimitConfig : Type 0 where
    pub rps : Num
    pub burst : Num

  pub record AdmitDecision : Type 0 where
    pub admitted : Bool
    pub retry_after : Num

  -- RateLimitConfig(rps=…, burst=…) with its __post_init__
  unfoldable pub rate_limit_config : Num → Num → Result ValueError RateLimitConfig
  rate_limit_config rps burst =
      if at_most rps (fnum 0) || at_most burst (fnum 0)
      then raised rate_limit_not_positive
      else ok (record { rps = rps; burst = burst })

  -- tokens and time stamp of one bucket
  abbrev pub Bucket : Type 0
  Bucket = Num × Num

  unfoldable pub available_at : Num → Num → Num → RateLimitConfig → Num
  available_at tokens last_ts now cfg =
      let elapsed = fmax (fnum 0) (minus now last_ts) in
      fmin cfg.burst (plus tokens (times elapsed cfg.rps))

  unfoldable pub refill_and_take :
      Num → Num → Num → RateLimitConfig → Num → Num × Num × AdmitDecision
  unfolding available_at
  refill_and_take tokens last_ts now cfg want =
      let available = available_at tokens last_ts now cfg in
      if at_most want available
      then (minus available want, now, record { admitted = true; retry_after = fnum 0 })
      else (
        available,
        now,
        record { admitted = false; retry_after = over (minus want available) cfg.rps },
      )

  -- InMemoryRateLimiter._state
  abbrev pub Buckets : Type 0
  Buckets = Dict String Bucket

  abbrev pub bucket_or : Bucket → Option Bucket → Bucket
  bucket_or b none = b
  bucket_or _ (some b) = b

  -- InMemoryRateLimiter.admit
  unfoldable pub limiter_admit :
      String → RateLimitConfig → Num → Num → Buckets → AdmitDecision × Buckets
  unfolding refill_and_take
  limiter_admit key cfg want now state =
      let (tokens, last_ts) = bucket_or (cfg.burst, now) (lookup key state) in
      let (new_tokens, new_ts, decision) = refill_and_take tokens last_ts now cfg want in
      (decision, insert key (new_tokens, new_ts) state)

  -- Lua's tostring of a number, which keeps 14 digits, Python's float of a text, and math.ceil.
  pub record LuaNumbers : Type 0 where
    pub tostring : Num → String
    pub float_of : String → Num
    pub ceil : Num → Num

  -- The Redis hash of one bucket, either of whose fields may be missing, and the milliseconds
  -- after which Redis drops it, where they were set.
  pub record Hash : Type 0 where
    pub tokens : Option Num
    pub ts : Option Num
    pub expire_ms : Option Num

  abbrev pub or_default : Num → Option Num → Num
  or_default d none = d
  or_default d (some x) = x

  -- _LUA_TOKEN_BUCKET: the reply, and the hash after HSET and PEXPIRE. Redis passes the script's
  -- numbers in and out of the hash without rounding; the reply's second part is a text.
  unfoldable lua_token_bucket : LuaNumbers → Num → Num → Num → Num → Hash → (ℕ × String) × Hash
  lua_token_bucket lua rps burst now want hash =
      let tokens = or_default burst hash.tokens in
      let ts = or_default now hash.ts in
      let passed = minus now ts in
      let elapsed = if below passed (fnum 0) then fnum 0 else passed in
      let available = fmin burst (plus tokens (times elapsed rps)) in
      let fits = at_most want available in
      (
        (
          if fits then 1 else 0,
          lua.tostring (if fits then fnum 0 else over (minus want available) rps),
        ),
        record {
          tokens = some (if fits then minus available want else available);
          ts = some now;
          expire_ms = some (plus (lua.ceil (times (over burst rps) (fnum 1000))) (fnum 1000));
        },
      )

  -- RedisRateLimiter.admit on the hash of its key: bool(int(reply[0])), float(reply[1])
  unfoldable pub redis_admit :
      LuaNumbers → RateLimitConfig → Num → Num → Hash → AdmitDecision × Hash
  unfolding lua_token_bucket
  redis_admit lua cfg want now hash =
      let ((admitted, retry_after), hash') = lua_token_bucket lua cfg.rps cfg.burst now want hash in
      (record { admitted = not (nat_eq admitted 0); retry_after = lua.float_of retry_after }, hash')
