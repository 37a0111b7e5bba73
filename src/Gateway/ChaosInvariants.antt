-- ===== src/Gateway/ChaosInvariants.antt =====
-- services/api-gateway/ancora_api/chaos_invariants.py: the checks of a run's history and of its
-- inbox rows. A detail keeps the values that are formatted into it. A time is a number of seconds.
pub mod Verdicts
mod Tests
use ancora.Prelude.{
  ℕ, Bool, true, false, Option, none, some, String, List, [], ◌∷◌, length, any, ltb, not, ◌==◌,
  string_key, nat_key, if◌then◌else◌,
}
use ancora.Number.{Float, Num, fmin, minus, at_most}
use ancora.Dict.{Dict, bump}

-- the event types that the checks read; a completion carries its scheduled event's id
pub data EventType : Type 0 where
  activity_task_completed : ℕ → EventType
  activity_task_started : EventType
  workflow_execution_completed : EventType
  workflow_execution_failed : EventType
  workflow_execution_terminated : EventType
  workflow_execution_timed_out : EventType
  other_event : EventType

pub data Detail : Type 0 where
  each_once : ℕ → Detail
  completed_twice : List ℕ → Detail
  reached_completed : Detail
  failed_after_fault : Detail
  not_terminal_yet : Detail
  all_committed : ℕ → Detail
  left_pending : List String → Detail

pub record Invariant : Type 0 where
  pub name : String
  pub passed : Bool
  pub detail : Detail

abbrev pub is_empty {ℓ} : {A : Type ℓ} → List A → Bool
is_empty [] = true
is_empty (_ ∷ _) = false

-- the loop of _completions_by_scheduled
unfoldable pub count_completions : List EventType → Dict ℕ ℕ → Dict ℕ ℕ
count_completions [] counts = counts
count_completions (activity_task_completed sid ∷ events) counts =
    count_completions events (bump sid counts)
count_completions (_ ∷ events) counts = count_completions events counts

unfoldable pub completions_by_scheduled : List EventType → Dict ℕ ℕ
completions_by_scheduled events = count_completions events []

-- [sid for sid, n in counts.items() if n > 1]
unfoldable pub doubled_in : Dict ℕ ℕ → List ℕ
doubled_in [] = []
doubled_in ((sid, n) ∷ counts) =
    let rest = doubled_in counts in if ltb 1 n then sid ∷ rest else rest

unfoldable pub no_reexecuted_activities : List EventType → Invariant
no_reexecuted_activities events =
    let counts = completions_by_scheduled events in
    let doubled = doubled_in counts in
    let passed = is_empty doubled in
    record {
      name = "no_reexecuted_activities";
      passed = passed;
      detail = if passed then each_once (length counts) else completed_twice doubled;
    }

abbrev pub is_completed : EventType → Bool
is_completed workflow_execution_completed = true
is_completed _ = false

abbrev is_failed : EventType → Bool
is_failed workflow_execution_failed = true
is_failed workflow_execution_terminated = true
is_failed workflow_execution_timed_out = true
is_failed _ = false

unfoldable pub run_completed : List EventType → Invariant
run_completed events =
    let completed = any is_completed events in
    record {
      name = "no_lost_state";
      passed = completed;
      detail =
          if completed
          then reached_completed
          else if any is_failed events
          then failed_after_fault
          else not_terminal_yet;
    }

pub record InboxRecord : Type 0 where
  pub key : String
  pub status : String

-- [r.key for r in inbox if r.status != "done"]
unfoldable pub pending_of : List InboxRecord → List String
pending_of [] = []
pending_of (r ∷ inbox) =
    let rest = pending_of inbox in if r.status == "done" then rest else r.key ∷ rest

unfoldable pub exactly_once_effects : List InboxRecord → Invariant
exactly_once_effects inbox =
    let pending = pending_of inbox in
    let passed = is_empty pending in
    record {
      name = "exactly_once_effects";
      passed = passed;
      detail = if passed then all_committed (length inbox) else left_pending pending;
    }

unfoldable evaluate : List EventType → List InboxRecord → List Invariant
evaluate events inbox =
    run_completed events ∷ no_reexecuted_activities events ∷ exactly_once_effects inbox ∷ []

module _ ⦃f : Float⦄ where
  -- an event with its time, where it has one
  pub record TimedEvent : Type 0 where
    pub event_type : EventType
    pub when : Option Num

  abbrev is_recovery : EventType → Bool
  is_recovery activity_task_started = true
  is_recovery workflow_execution_completed = true
  is_recovery _ = false

  after_kill : Num → EventType → Option Num → List Num → List Num
  after_kill kill_at kind none candidates = candidates
  after_kill kill_at kind (some when) candidates =
      if at_most when kill_at
      then candidates
      else if is_recovery kind
      then when ∷ candidates
      else candidates

  unfoldable pub candidates_of : Num → List TimedEvent → List Num
  unfolding after_kill
  candidates_of kill_at [] = []
  candidates_of kill_at (e ∷ events) =
      after_kill kill_at e.event_type e.when (candidates_of kill_at events)

  unfoldable pub earliest : Num → List Num → Num
  earliest m [] = m
  earliest m (x ∷ xs) = earliest (fmin m x) xs

  -- min(candidates) - kill_at, before it is rounded to milliseconds
  seconds_since : Num → List Num → Option Num
  unfolding earliest
  seconds_since kill_at [] = none
  seconds_since kill_at (x ∷ xs) = some (minus (earliest x xs) kill_at)

  -- measure_rto, before the rounding
  unfoldable pub measure_rto : List TimedEvent → Num → Option Num
  unfolding seconds_since
  measure_rto events kill_at = seconds_since kill_at (candidates_of kill_at events)
