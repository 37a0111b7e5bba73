-- ===== src/Gateway/Recovery/Deadlines.antt =====
-- Which timeout of a started attempt runs out first, and why it is waited for (recovery.py:
-- _activity_window).
use ancora.Prelude.{
  ℕ, Bool, true, ◌||◌, Option, none, some, String, [], ◌∷◌, ◌==◌, string_key, decimal, join,
  if◌then◌else◌,
}
use ancora.Number.{Float, Num}
use ancora.Gateway.History.{Wire, Datetime}
use ancora.Gateway.Recovery.Liveness.{text_of}

module _ ⦃f : Float⦄ ⦃w : Wire Num⦄ where
  -- which clock runs out first, its length and when
  pub record Deadline : Type 0 where
    pub clock : String
    pub timeout : Option Num
    pub at_time : Option Datetime

  abbrev pub after : Datetime → Option Num → Option Datetime
  after at_time none = none
  after at_time (some s) = some (w.ahead at_time s)

  abbrev pub or_time : Option Datetime → Datetime → Datetime
  or_time none b = b
  or_time (some a) b = a

  -- deadline is None or hb_deadline < deadline
  abbrev sooner : Datetime → Option Datetime → Bool
  sooner heartbeat_deadline none = true
  sooner heartbeat_deadline (some deadline) = w.before heartbeat_deadline deadline

  -- a timeout of zero is none: secs leaves none
  unfoldable pub deadline_of : Datetime → Option Datetime → Option Num → Option Num → Deadline
  deadline_of started_at heartbeat_at start_to_close none = record {
    clock = "start_to_close";
    timeout = start_to_close;
    at_time = after started_at start_to_close;
  }
  deadline_of started_at heartbeat_at start_to_close (some heartbeat) =
      let heartbeat_deadline = w.ahead (or_time heartbeat_at started_at) heartbeat in
      if sooner heartbeat_deadline (after started_at start_to_close)
      then record {
        clock = "heartbeat";
        timeout = some heartbeat;
        at_time = some heartbeat_deadline;
      }
      else record {
        clock = "start_to_close";
        timeout = start_to_close;
        at_time = after started_at start_to_close;
      }

  abbrev pub until : Option Datetime → Datetime → Option Num
  until none now = none
  until (some deadline) now = some (w.elapsed deadline now)

  unfoldable pub holder_reason : String → ℕ → Option String → String
  holder_reason state attempt identity =
      if state == "gone" || state == "replaced"
      then join (
          "Attempt "
          ∷ decimal attempt
          ∷ " is held by "
          ∷ text_of identity "None"
          ∷ ", a process that no longer exists. Temporal cannot tell a dead worker from a slow one, so it will not reassign the work until the timeout that attempt was granted expires."
          ∷ [])
      else if state == "live"
      then join (
          "Attempt "
          ∷ decimal attempt
          ∷ " is running on "
          ∷ text_of identity "None"
          ∷ ". This is work, not a stall."
          ∷ [])
      else join (
          "Attempt "
          ∷ decimal attempt
          ∷ " is held by "
          ∷ text_of identity "a worker"
          ∷ " that has not checked in recently enough to confirm it is alive. That ambiguity is the whole reason for the timeout: rather than guess, the server waits it out and only then reassigns the work."
          ∷ [])

  unfoldable pub clock_reason : String → Option Num → Option Num → String
  clock_reason clock start_to_close (some heartbeat) =
      if clock == "heartbeat"
      then join (
          " It heartbeats every "
          ∷ w.general heartbeat
          ∷ "s, which is what shortens the wait from the full start-to-close budget."
          ∷ [])
      else ""
  clock_reason clock (some start_to_close) none = join (
      " This node declares no heartbeat, so the full "
      ∷ w.general start_to_close
      ∷ "s start-to-close budget has to elapse first."
      ∷ [])
  clock_reason clock none none = ""
