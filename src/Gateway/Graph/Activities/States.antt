-- ===== src/Gateway/Graph/Activities/States.antt =====
-- The state of an activity's vertex (graph.py: _activity_state).
use ancora.Prelude.{
  ℕ, ◌≤◌, ◌≡◌, refl, inl, inr, Option, none, some, String, List, [], ◌∷◌, ltb, ◌==◌, string_key,
  nat_key, arith, if◌then◌else◌, Bool-cases,
}
use ancora.Number.{Float, Num}
use ancora.Dict.{Dict, lookup, insert}
use ancora.Dict.Laws.{lookup-insert}
use ancora.Gateway.History.{
  Wire, Datetime, PendingActivity, is_started, HistoryEvent, Attributes, dt,
  workflow_execution_started, activity_task_scheduled, activity_task_started,
  activity_task_completed, activity_task_failed, activity_task_timed_out, activity_task_canceled,
  timer_started, timer_fired, timer_canceled, workflow_execution_signaled, workflow_task_completed,
  workflow_task_started, workflow_task_timed_out, other_attributes,
}
use ancora.Gateway.Graph.{Sched, Reduction}
use ancora.Gateway.Graph.Reducing.{attempt_or_one, reduce_event, reduce_from, reduce, nothing_seen}
use ancora.Gateway.Graph.Activities.{
  ActivityState, Start, start_worker, start_attempt, live_attempts, live_worker, unfinished,
  state_of, activity_state,
}

attempt_or_one_pos : (n : ℕ) → 1 ≤ attempt_or_one n
unfolding attempt_or_one
attempt_or_one_pos n = ground arith

live_attempts_pos : (live : Option PendingActivity) (n : ℕ) → 1 ≤ n → 1 ≤ live_attempts live n
live_attempts_pos none n h = h
live_attempts_pos (some live) n h = omega arith

module _ ⦃f : Float⦄ ⦃w : Wire Num⦄ where
  -- The states of an activity that no event has ended.
  abbrev IsOpen : String → ℕ → Option Start → Option PendingActivity → Type 0
  IsOpen state attempts none none = state ≡ "queued"
  IsOpen state attempts (some _) none = state ≡ "running"
  IsOpen state attempts start (some live) =
      if is_started live.state
      then state ≡ "running"
      else state ≡ (if ltb 1 attempts then "retrying" else "queued")

  -- An ended activity has its event's outcome and time; another one has no end, and what is pending
  -- says whether it runs.
  abbrev IsState :
      Option (String × Option Datetime × Option String)
      → Option Start
      → Option PendingActivity
      → ActivityState
      → Type 0
  IsState (some (outcome, ended_at, failure)) start live s =
      (s.state ≡ outcome) × (s.ended_at ≡ ended_at) × (s.failure ≡ failure)
  IsState none start live s = IsOpen s.state s.attempts start live × (s.ended_at ≡ none)

  unfinished-IsState :
      (sched : Sched) (live : Option PendingActivity) (start : Option Start) (attempts : ℕ)
      (worker : Option String)
      → IsState none start live (unfinished sched live start attempts worker)
        × ((unfinished sched live start attempts worker).attempts ≡ attempts)
  unfolding unfinished
  unfinished-IsState sched (some live) start attempts worker =
      elim (Bool-cases (is_started live.state)) [
        | inl runs ↦ ground arith
        | inr waits ↦ ground arith
      ]
  unfinished-IsState sched none (some start) attempts worker = ((refl, refl), refl)
  unfinished-IsState sched none none attempts worker = ((refl, refl), refl)

  abbrev StartPos : Option Start → Type 0
  StartPos start = 1 ≤ start_attempt start

  abbrev AllStarted : Reduction → Type 0
  AllStarted r = (i : ℕ) → StartPos (lookup i r.started)

  started_once :
      (i sid : ℕ) (at : Option Datetime) (identity : String) (attempt : ℕ) (d : Dict ℕ Start)
      → ((j : ℕ) → StartPos (lookup j d))
      → StartPos (lookup i (insert sid (at, identity, attempt_or_one attempt) d))
  started_once i sid at identity attempt d h = elim (Bool-cases (sid == i)) [
    | inl this ↦
        rw (lookup-insert i sid (at, identity, attempt_or_one attempt) d, this)
          (attempt_or_one_pos attempt)
    | inr other ↦ rw (lookup-insert i sid (at, identity, attempt_or_one attempt) d, other) (h i)
  ]

  reduce_event-AllStarted :
      (e : HistoryEvent) (a : Attributes) (r : Reduction)
      → AllStarted r
      → AllStarted (reduce_event e a r)
  unfolding reduce_event
  reduce_event-AllStarted e (activity_task_started sid identity attempt _) r h =
      λ i. started_once i sid (dt (some e.event_time)) identity attempt r.started h
  reduce_event-AllStarted e (workflow_execution_started _) r h = h
  reduce_event-AllStarted e (activity_task_scheduled _) r h = h
  reduce_event-AllStarted e (activity_task_completed _) r h = h
  reduce_event-AllStarted e (activity_task_failed _ _) r h = h
  reduce_event-AllStarted e (activity_task_timed_out _ _) r h = h
  reduce_event-AllStarted e (activity_task_canceled _) r h = h
  reduce_event-AllStarted e (timer_started _ _) r h = h
  reduce_event-AllStarted e (timer_fired _) r h = h
  reduce_event-AllStarted e (timer_canceled _) r h = h
  reduce_event-AllStarted e (workflow_execution_signaled _) r h = h
  reduce_event-AllStarted e workflow_task_completed r h = h
  reduce_event-AllStarted e (workflow_task_started _) r h = h
  reduce_event-AllStarted e (workflow_task_timed_out _) r h = h
  reduce_event-AllStarted e other_attributes r h = h

  reduce_from-AllStarted :
      (events : List HistoryEvent) (r : Reduction)
      → AllStarted r
      → AllStarted (reduce_from r events)
  unfolding reduce_from
  reduce_from-AllStarted [] r h = h
  reduce_from-AllStarted (e ∷ events) r h =
      reduce_from-AllStarted events (reduce_event e e.attributes r)
        (reduce_event-AllStarted e e.attributes r h)

  state_of-IsState :
      (sched : Sched) (end : Option (String × Option Datetime × Option String))
      (start : Option Start) (live : Option PendingActivity)
      → IsState end start live (state_of sched end start live)
        × ((state_of sched end start live).attempts ≡ live_attempts live (start_attempt start))
  unfolding state_of
  state_of-IsState sched none start live =
      unfinished-IsState sched live start (live_attempts live (start_attempt start))
        (live_worker live (start_worker start))
  state_of-IsState sched (some (outcome, ended_at, failure)) start live = ((refl, refl, refl), refl)

  -- In the reduction of any history, an activity with a terminal event has that event's outcome,
  -- time and failure, whatever is pending; one without has no end, runs where the server says so
  -- or, with nothing pending, where a start is recorded, and is else queued, or retried after more
  -- than one attempt. Its attempts are the greater of the recorded and the pending ones, and at
  -- least one.
  activity_state_rule :
      (events : List HistoryEvent) (sid : ℕ) (sched : Sched) (pending : Dict String PendingActivity)
      → let r = reduce events in
        let s = activity_state sid sched r pending in
        let live = lookup sched.activity_id pending in
        IsState (lookup sid r.terminal) (lookup sid r.started) live s
        × (s.attempts ≡ live_attempts live (start_attempt (lookup sid r.started)))
        × (1 ≤ s.attempts)
  unfolding activity_state
  activity_state_rule events sid sched pending =
      let r = reduce events in
      let live = lookup sched.activity_id pending in
      let (state, attempts) =
        state_of-IsState sched (lookup sid r.terminal) (lookup sid r.started) live in
      let some_attempt =
        reduce_from-AllStarted events nothing_seen (λ i. unfold lookup in omega arith) sid in
      (
        state,
        attempts,
        rw attempts (live_attempts_pos live (start_attempt (lookup sid r.started)) some_attempt),
      )
