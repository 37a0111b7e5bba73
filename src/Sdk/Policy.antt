-- ===== src/Sdk/Policy.antt =====
-- packages/sdk-python/ancora/policy.py: the dispatch options of a node call. The overrides are a
-- record of the keys that are read; a timedelta is its number of seconds.
pub mod Resolution
mod Tests
use ancora.Prelude.{
  ℕ, Bool, true, false, Option, none, some, String, List, [], ◌∷◌, ◌&&◌, ◌||◌, ◌==◌, string_key,
  int_key, Result, ok, raised, ◌>>=◌, if◌then◌else◌,
}
use ancora.Prelude.Int.{ℤ, pos}
use ancora.Number.{Float, Num, fnum, fmin, fmax, same}
use ancora.Common.Resources.{Capability, cpu, io, capability_of, queue_for}

abbrev priority_high : ℤ
priority_high = pos 1

abbrev priority_normal : ℤ
priority_normal = pos 3

abbrev priority_bulk : ℤ
priority_bulk = pos 5

-- The value of the key "priority": an integer, or the text of any other value, stripped and in
-- lower case.
pub data Priority : Type 0 where
  lane : ℤ → Priority
  named : String → Priority

-- ValueError of Capability(…), or of _as_priority
pub data PolicyError : Type 0 where
  unknown_capability : Option String → PolicyError
  unknown_priority : String → PolicyError

module _ ⦃f : Float⦄ where
  pub record RetrySpec : Type 0 where
    pub initial_seconds : Num
    pub backoff_coefficient : Num
    pub maximum_seconds : Num
    pub maximum_attempts : ℤ
    pub non_retryable : List String

  -- the arguments of temporalio's RetryPolicy; its error types are None where there are none
  pub record RetryPolicy : Type 0 where
    pub initial_interval : Num
    pub backoff_coefficient : Num
    pub maximum_interval : Num
    pub maximum_attempts : ℤ
    pub non_retryable_error_types : Option (List String)

  abbrev list_or_none : List String → Option (List String)
  list_or_none [] = none
  list_or_none (x ∷ xs) = some (x ∷ xs)

  unfoldable pub to_temporal : RetrySpec → RetryPolicy
  to_temporal r = record {
    initial_interval = r.initial_seconds;
    backoff_coefficient = r.backoff_coefficient;
    maximum_interval = r.maximum_seconds;
    maximum_attempts = r.maximum_attempts;
    non_retryable_error_types = list_or_none r.non_retryable;
  }

  pub record NodePolicy : Type 0 where
    pub task_queue : String
    pub priority : ℤ
    pub start_to_close : Num
    pub retry : RetrySpec
    pub schedule_to_close : Option Num
    pub heartbeat : Option Num

  -- _ClassDefaults
  pub record ClassDefaults : Type 0 where
    pub capability : Capability
    pub start_to_close_seconds : Num
    pub retry : RetrySpec
    pub heartbeat_seconds : Option Num

  -- RetrySpec with its default coefficient and error types
  abbrev retry_spec : ℕ → ℕ → ℕ → RetrySpec
  retry_spec initial maximum attempts = record {
    initial_seconds = fnum initial;
    backoff_coefficient = fnum 2;
    maximum_seconds = fnum maximum;
    maximum_attempts = pos attempts;
    non_retryable = [];
  }

  abbrev class_defaults : Capability → ℕ → Option ℕ → RetrySpec → ClassDefaults
  class_defaults c start heartbeat retry = record {
    capability = c;
    start_to_close_seconds = fnum start;
    retry = retry;
    heartbeat_seconds = elim heartbeat [ none ↦ none | some n ↦ some (fnum n) ];
  }

  -- _DEFAULTS.get(type_name, _GENERIC)
  unfoldable pub defaults_of : String → ClassDefaults
  defaults_of type_name =
      if type_name == "llm"
      then class_defaults cpu 60 (some 6) (retry_spec 2 120 6)
      else if type_name == "http"
      then class_defaults io 60 (some 6) (retry_spec 1 30 4)
      else if type_name == "database"
      then class_defaults io 120 (some 6) (retry_spec 1 15 3)
      else if type_name == "python"
      then class_defaults cpu 600 (some 30) (retry_spec 1 10 2)
      else if type_name == "approval"
      then class_defaults io 10 none (retry_spec 1 60 1)
      else class_defaults cpu 60 (some 6) (retry_spec 1 60 3)

  -- The keys of `overrides`. An absent key of the first one differs from an explicit None.
  pub record Overrides : Type 0 where
    pub capability : Option (Option String)
    pub task_queue : Option String
    pub priority : Option Priority
    pub timeout_seconds : Option Num
    pub heartbeat_seconds : Option Num
    pub retry_initial_seconds : Option Num
    pub retry_backoff_coefficient : Option Num
    pub retry_maximum_seconds : Option Num
    pub max_attempts : Option ℤ

  abbrev pub no_overrides : Overrides
  no_overrides = record {
    capability = none;
    task_queue = none;
    priority = none;
    timeout_seconds = none;
    heartbeat_seconds = none;
    retry_initial_seconds = none;
    retry_backoff_coefficient = none;
    retry_maximum_seconds = none;
    max_attempts = none;
  }

  -- Capability(over.get("capability", base.capability))
  capability_over : Capability → Option (Option String) → Result PolicyError Capability
  capability_over base none = ok base
  capability_over base (some none) = raised (unknown_capability none)
  capability_over base (some (some text)) = elim (capability_of text) [
    | none ↦ raised (unknown_capability (some text))
    | some c ↦ ok c
  ]

  -- str(over.get("task_queue") or queue_for(capability))
  abbrev pub queue_over : Capability → Option String → String
  queue_over c none = queue_for c
  queue_over c (some queue) = if queue == "" then queue_for c else queue

  -- _as_priority
  unfoldable pub as_priority : Option Priority → Result PolicyError (Option ℤ)
  as_priority none = ok none
  as_priority (some (lane n)) = ok (some n)
  as_priority (some (named name)) =
      if name == "high"
      then ok (some priority_high)
      else if name == "normal"
      then ok (some priority_normal)
      else if name == "bulk"
      then ok (some priority_bulk)
      else raised (unknown_priority name)

  -- … or PRIORITY_NORMAL
  abbrev pub lane_or_normal : Option ℤ → ℤ
  lane_or_normal none = priority_normal
  lane_or_normal (some n) = if n == pos 0 then priority_normal else n

  abbrev over_or {ℓ} : {A : Type ℓ} → A → Option A → A
  over_or base none = base
  over_or base (some x) = x

  -- replace(retry, **retry_over)
  unfoldable pub retry_over : RetrySpec → Overrides → RetrySpec
  retry_over base o = record base {
    initial_seconds = over_or base.initial_seconds o.retry_initial_seconds;
    backoff_coefficient = over_or base.backoff_coefficient o.retry_backoff_coefficient;
    maximum_seconds = over_or base.maximum_seconds o.retry_maximum_seconds;
    maximum_attempts = over_or base.maximum_attempts o.max_attempts;
  }

  -- _seconds(…), where 0 counts as not given
  abbrev pub given : Option Num → Option Num
  given none = none
  given (some x) = if same x (fnum 0) then none else some x

  abbrev pub given_or : Option Num → Option Num → Option Num
  given_or none base = base
  given_or (some x) base = some x

  abbrev pub start_seconds : Num → Option Num → Num
  start_seconds base override = over_or base (given override)

  -- max(deadline_remaining, 0), and the clamped attempt
  abbrev pub remaining_of : Option Num → Option Num
  remaining_of none = none
  remaining_of (some r) = some (fmax r (fnum 0))

  abbrev pub clamped : Num → Option Num → Num
  clamped start none = start
  clamped start (some remaining) = fmin start (fmax remaining (fnum 1))

  -- resolve_policy
  unfoldable pub resolve_policy : String → Overrides → Option Num → Result PolicyError NodePolicy
  unfolding capability_over
  resolve_policy type_name o deadline_remaining =
      let base = defaults_of type_name in
      let remaining = remaining_of deadline_remaining in
      capability_over base.capability o.capability >>= (λ c. as_priority o.priority >>= (λ p.
        ok (record {
          task_queue = queue_over c o.task_queue;
          priority = lane_or_normal p;
          start_to_close =
              clamped (start_seconds base.start_to_close_seconds o.timeout_seconds) remaining;
          retry = retry_over base.retry o;
          schedule_to_close = remaining;
          heartbeat = given (given_or (given o.heartbeat_seconds) base.heartbeat_seconds);
        })))

  -- retry_policy_for
  unfoldable pub retry_policy_for : String → RetryPolicy
  retry_policy_for type_name = to_temporal (defaults_of type_name).retry
