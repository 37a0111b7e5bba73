-- ===== src/Gateway/Recovery/Windows/Clocks.antt =====
-- The clock that a started attempt waits for, and who holds it (recovery.py: _activity_window).
use ancora.Prelude.{
  ◌≡◌, refl, true, false, Option, none, some, String, List, ◌==◌, string_key, inl, inr, Bool-cases,
}
use ancora.Number.{Float, Num}
use ancora.Gateway.History.{
  Wire, Datetime, PendingActivity, PendingState, pending_scheduled, pending_started, pending_other,
  text_or, dt,
}
use ancora.Gateway.Recovery.{FleetLiveness, Scheduled, Window}
use ancora.Gateway.Recovery.Liveness.{liveness_state}
use ancora.Gateway.Recovery.Deadlines.{after, or_time, deadline_of}
use ancora.Gateway.Recovery.Windows.{
  is_displaced, worker_state_of, window, detecting, backoff, queued, scheduled_window, kind_of,
  window_in, activity_window,
}

module _ ⦃f : Float⦄ ⦃w : Wire Num⦄ where
  -- A time does not come after a deadline that is given.
  abbrev NotAfter : Option Datetime → Option Datetime → Type 0
  NotAfter none other = Unit
  NotAfter (some a) none = Unit
  NotAfter (some a) (some b) = w.before b a ≡ false

  abbrev pub heartbeat_deadline : Datetime → Option Datetime → Option Num → Option Datetime
  heartbeat_deadline started_at heartbeat_at none = none
  heartbeat_deadline started_at heartbeat_at (some heartbeat) =
      some (w.ahead (or_time heartbeat_at started_at) heartbeat)

  abbrev pub Asymmetric : Type 0
  Asymmetric = (a b : Datetime) → w.before a b ≡ true → w.before b a ≡ false

  NotAfter-self : Asymmetric → (o : Option Datetime) → NotAfter o o
  NotAfter-self irr none = tt
  NotAfter-self irr (some a) = elim (Bool-cases (w.before a a)) [
    | inl lt ↦ irr a a lt
    | inr ge ↦ ge
  ]

  unlimited : (o : Option Datetime) → NotAfter o none
  unlimited none = tt
  unlimited (some a) = tt

  -- The deadline of a started attempt comes after neither of the two that it was granted, the
  -- start-to-close deadline and the heartbeat's, where no two times are each before the other.
  deadline_of_first :
      (started_at : Datetime) (heartbeat_at : Option Datetime)
      (start_to_close heartbeat : Option Num)
      → Asymmetric
      → let d = (deadline_of started_at heartbeat_at start_to_close heartbeat).at_time in
        NotAfter d (after started_at start_to_close)
        × NotAfter d (heartbeat_deadline started_at heartbeat_at heartbeat)
  unfolding deadline_of
  deadline_of_first started_at heartbeat_at start_to_close none irr = (
    NotAfter-self irr (after started_at start_to_close),
    unlimited (after started_at start_to_close),
  )
  deadline_of_first started_at heartbeat_at none (some heartbeat) irr =
      (tt, NotAfter-self irr (heartbeat_deadline started_at heartbeat_at (some heartbeat)))
  deadline_of_first started_at heartbeat_at (some limit) (some heartbeat) irr =
      let beat = w.ahead (or_time heartbeat_at started_at) heartbeat in
      let close = w.ahead started_at limit in
      elim (Bool-cases (w.before beat close)) [
        | inl sooner ↦ rw sooner (irr beat close sooner, NotAfter-self irr (some beat))
        | inr later ↦ rw later (NotAfter-self irr (some close), later)
      ]

  -- A window, where there is one, has a given worker's state.
  abbrev HasState : String → Option Window → Type 0
  HasState state none = Unit
  HasState state (some win) = win.worker_state ≡ state

  detecting-HasState :
      (base : Window) (pa : PendingActivity) (sched : Option Scheduled) (now : Datetime)
      (at_time : Option Datetime)
      → HasState base.worker_state (detecting base pa sched now at_time)
  unfolding detecting
  detecting-HasState base pa sched now none = tt
  detecting-HasState base pa sched now (some t) = refl

  scheduled_window_state :
      (base : Window) (pa : PendingActivity) (at_time : Option Datetime) (now : Datetime)
      → (scheduled_window base pa at_time now).worker_state ≡ base.worker_state
  unfolding scheduled_window backoff queued
  scheduled_window_state base pa none now = refl
  scheduled_window_state base pa (some t) now = elim (Bool-cases (w.before now t)) [
    | inl later ↦ rw later refl
    | inr past ↦ rw past refl
  ]

  window_in-HasState :
      (state : PendingState) (base : Window) (pa : PendingActivity) (sched : Option Scheduled)
      (now : Datetime)
      → HasState base.worker_state (window_in state base pa sched now)
  unfolding window_in
  window_in-HasState pending_started base pa sched now =
      detecting-HasState base pa sched now (dt (some pa.last_started_time))
  window_in-HasState pending_scheduled base pa sched now =
      scheduled_window_state base pa (dt (some pa.next_attempt_schedule_time)) now
  window_in-HasState pending_other base pa sched now = tt

  -- A window does not call its worker live.
  abbrev NotLive : Option Window → Type 0
  NotLive none = Unit
  NotLive (some win) = (win.worker_state == "live") ≡ false

  not_live_lem :
      (o : Option Window) (state : String)
      → HasState state o
      → (state == "live") ≡ false
      → NotLive o
  not_live_lem none state h e = tt
  not_live_lem (some win) state h e = rw h e

  displaced_state :
      (liveness : FleetLiveness) (pa : PendingActivity) (now : Datetime) (killed_at : List Datetime)
      → is_displaced now (dt (some pa.last_started_time)) killed_at ≡ true
      → (worker_state_of liveness pa now killed_at == "live") ≡ false
  unfolding worker_state_of
  displaced_state liveness pa now killed_at h =
      elim (Bool-cases (liveness_state liveness (text_or none pa.last_worker_identity) == "live")) [
        | inl live ↦ rw (live, h) refl
        | inr other ↦ rw other other
      ]

  -- Where a worker was killed after the attempt started and not after now, no window of the
  -- activity calls the attempt's holder live, whatever the registry says of its name.
  window-NotLive :
      (pa : PendingActivity) (sched : Option Scheduled) (liveness : FleetLiveness) (now : Datetime)
      (killed_at : List Datetime)
      → is_displaced now (dt (some pa.last_started_time)) killed_at ≡ true
      → NotLive (activity_window pa sched liveness now killed_at)
  unfolding activity_window window
  window-NotLive pa sched liveness now killed_at h =
      not_live_lem (activity_window pa sched liveness now killed_at)
        (worker_state_of liveness pa now killed_at)
        (window_in-HasState pa.state (window pa sched liveness now killed_at (kind_of pa.state)) pa
          sched now)
        (displaced_state liveness pa now killed_at h)
