-- ===== src/Gateway/Recovery/Spans.antt =====
-- The attempts of each activity on the time axis (recovery.py: _spans).
pub mod Attempts
use ancora.Prelude.{
  ℕ, ◌-◌, Bool, true, false, not, Option, none, some, String, List, [], ◌∷◌, ◌++◌, ltb, leb, nat_eq,
  sort_by, ◌==◌, string_key, nat_key, if◌then◌else◌,
}
use ancora.Number.{Float, Num, fnum, below}
use ancora.Dict.{Dict, lookup, insert}
use ancora.Gateway.History.{Wire, Datetime, PendingActivity, is_started, text_or, dt}
use ancora.Gateway.Recovery.{Scheduled, Reduction, Span}

-- int(attempt) or 1
unfoldable pub attempt_or_one : ℕ → ℕ
attempt_or_one n = if nat_eq n 0 then 1 else n

-- {pa.activity_id: pa for the started pa}
unfoldable pub in_flight :
    Dict String PendingActivity → List PendingActivity → Dict String PendingActivity
in_flight found [] = found
in_flight found (pa ∷ pending) =
    in_flight (if is_started pa.state then insert pa.activity_id pa found else found) pending

module _ ⦃f : Float⦄ ⦃w : Wire Num⦄ where
  -- a span with RecoverySpanOut's defaults
  abbrev pub span : Scheduled → ℕ → String → Option Datetime → Option Datetime → Span
  span sched attempt outcome started_at ended_at = record {
    activity_id = sched.activity_id;
    node_id = sched.node_id;
    activity_type = sched.activity_type;
    attempt = attempt;
    worker = none;
    outcome = outcome;
    started_at = started_at;
    ended_at = ended_at;
    failure = none;
    lost_attempts = 0;
    approximate = false;
  }

  -- the attempts that died before this one started
  abbrev pub lost : Scheduled → ℕ → Option Datetime → Option String → Span
  lost sched attempt started_at failure =
      record (span sched (attempt - 1) "lost" sched.scheduled_at started_at) {
        failure = failure;
        lost_attempts = attempt - 1;
        approximate = true;
      }

  -- whether both times are known and more than QUEUE_GAP_FLOOR_SECONDS lie between them
  unfoldable pub waited : Option Datetime → Option Datetime → Bool
  waited (some scheduled_at) (some started_at) = below (fnum 1) (w.elapsed started_at scheduled_at)
  waited _ _ = false

  abbrev pub queued_before : Scheduled → Option Datetime → List Span
  queued_before sched started_at =
      if waited sched.scheduled_at started_at
      then span sched 1 "queued" sched.scheduled_at started_at ∷ []
      else []

  abbrev pub or_time : Option Datetime → Option Datetime → Option Datetime
  or_time none b = b
  or_time (some a) b = some a

  abbrev is_known : Option Datetime → Bool
  is_known none = false
  is_known (some _) = true

  -- an attempt that runs now, which history does not show yet
  unfoldable pub pending_spans : Scheduled → PendingActivity → List Span
  pending_spans sched pending =
      let started_now = dt (some pending.last_started_time) in
      let attempt_now = attempt_or_one pending.attempt in
      let earlier = queued_before sched started_now in
      (if ltb 1 attempt_now
        then if is_known started_now
          then lost sched attempt_now started_now pending.last_failure ∷ []
          else earlier
        else earlier)
      ++ record (span sched attempt_now "running" (or_time started_now sched.scheduled_at) none) {
        worker = text_or none pending.last_worker_identity;
      }
        ∷ []

  abbrev pub Ended : Type 0
  Ended = Option (String × Option Datetime × Option String)

  -- scheduled and never started
  unfoldable pub unstarted_spans : Scheduled → Ended → Option PendingActivity → List Span
  unstarted_spans sched none none = span sched 1 "queued" sched.scheduled_at none ∷ []
  unstarted_spans sched none (some pending) = pending_spans sched pending
  unstarted_spans sched (some (outcome, ended_at, failure)) pending =
      record (span sched 1 outcome sched.scheduled_at ended_at) {
        failure = failure;
        approximate = not (outcome == "queued");
      }
      ∷ []

  -- the last attempt's span: ended as the history says, or running
  unfoldable pub final_span : Scheduled → ℕ → Option Datetime → String → Ended → Span
  final_span sched attempt started_at identity none =
      record (span sched attempt "running" started_at none) { worker = text_or none identity }
  final_span sched attempt started_at identity (some (outcome, ended_at, failure)) =
      record (span sched attempt outcome started_at ended_at) {
        worker = text_or none identity;
        failure = failure;
      }

  -- one scheduled activity
  unfoldable pub activity_spans :
      Scheduled
      → Option (Option Datetime × String × ℕ × Option String)
      → Ended
      → Option PendingActivity
      → List Span
  activity_spans sched none term pending = unstarted_spans sched term pending
  activity_spans sched (some (started_at, identity, attempt, last_failure)) term pending =
      (if ltb 1 attempt
        then lost sched attempt started_at last_failure ∷ []
        else queued_before sched started_at)
      ++ final_span sched attempt started_at identity term ∷ []

  unfoldable pub spans_from :
      Reduction → Dict String PendingActivity → List (ℕ × Scheduled) → List Span
  spans_from r flight [] = []
  spans_from r flight ((sid, sched) ∷ rest) =
      activity_spans sched (lookup sid r.started) (lookup sid r.terminal)
        (lookup sched.activity_id flight)
      ++ spans_from r flight rest

  -- sorted(reduction.scheduled.items()): the ids are distinct
  abbrev pub by_id : Dict ℕ Scheduled → List (ℕ × Scheduled)
  by_id scheduled = sort_by (λ (a b : ℕ × Scheduled). leb a.0 b.0) scheduled

  -- _spans
  unfoldable pub spans : Reduction → List PendingActivity → List Span
  spans r pending = spans_from r (in_flight [] pending) (by_id r.scheduled)
