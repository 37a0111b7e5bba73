-- ===== src/Gateway/Recovery/Spans/Attempts.antt =====
-- Every attempt is drawn (recovery.py: _spans).
use ancora.Prelude.{
  ℕ, ◌+◌, ◌≤◌, ◌≡◌, refl, ◌∙◌, Option, none, some, String, List, [], ◌∷◌, ◌++◌, ltb, arith,
  if◌then◌else◌, inl, inr, Bool-cases,
}
use ancora.Number.{Float, Num}
use ancora.Gateway.History.{Wire, Datetime, PendingActivity}
use ancora.Gateway.Recovery.{Scheduled, Span}
use ancora.Gateway.Recovery.Spans.{lost, waited, queued_before, Ended, final_span, activity_spans}

module _ ⦃f : Float⦄ ⦃w : Wire Num⦄ where
  -- the attempts that an activity's spans stand for as lost
  abbrev lost_in : List Span → ℕ
  lost_in [] = 0
  lost_in (s ∷ spans) = s.lost_attempts + lost_in spans

  abbrev last_of : List Span → Option Span
  last_of [] = none
  last_of (s ∷ []) = some s
  last_of (s ∷ t ∷ spans) = last_of (t ∷ spans)

  -- the outcome, the end and the failure, and the state without one
  abbrev pub outcome_of : String → Ended → String
  outcome_of other none = other
  outcome_of other (some (outcome, ended_at, failure)) = outcome

  abbrev end_of : Ended → Option Datetime
  end_of none = none
  end_of (some (outcome, ended_at, failure)) = ended_at

  -- The attempts before the last are lost ones, and the last span is the last attempt.
  abbrev pub AreDrawn : ℕ → String → Option Datetime → List Span → Type 0
  AreDrawn attempt outcome ended_at spans =
      (lost_in spans + 1 ≡ attempt)
      × ((s : Span) × (last_of spans ≡ some s)
          × (s.attempt ≡ attempt)
          × (s.outcome ≡ outcome)
          × (s.ended_at ≡ ended_at))

  drawn_after_gap :
      (sched : Scheduled) (started_at : Option Datetime) (s : Span)
      → s.attempt ≡ 1
      → s.lost_attempts ≡ 0
      → AreDrawn 1 s.outcome s.ended_at (queued_before sched started_at ++ s ∷ [])
  drawn_after_gap sched started_at s one none_lost =
      elim (Bool-cases (waited sched.scheduled_at started_at)) [
        | inl gap ↦ rw gap (omega arith, (s, refl, one, refl, refl))
        | inr close ↦ rw close (omega arith, (s, refl, one, refl, refl))
      ]

  drawn_after_loss :
      (sched : Scheduled) (attempt : ℕ) (started_at : Option Datetime) (failure : Option String)
      (s : Span)
      → 1 ≤ attempt
      → s.attempt ≡ attempt
      → s.lost_attempts ≡ 0
      → AreDrawn attempt s.outcome s.ended_at (lost sched attempt started_at failure ∷ s ∷ [])
  drawn_after_loss sched attempt started_at failure s pos same none_lost =
      (omega arith, (s, refl, same, refl, refl))

  drawn_if :
      (sched : Scheduled) (attempt : ℕ) (started_at : Option Datetime) (failure : Option String)
      (s : Span)
      → 1 ≤ attempt
      → s.attempt ≡ attempt
      → s.lost_attempts ≡ 0
      → AreDrawn attempt s.outcome s.ended_at (
          (if ltb 1 attempt
            then lost sched attempt started_at failure ∷ []
            else queued_before sched started_at)
          ++ s ∷ [])
  drawn_if sched attempt started_at failure s pos same none_lost =
      elim (Bool-cases (ltb 1 attempt)) [
        | inl many ↦
            rw many (drawn_after_loss sched attempt started_at failure s pos same none_lost)
        | inr one ↦
            let first : attempt ≡ 1 = ground arith in
            rw first (drawn_after_gap sched started_at s (same ∙ first) none_lost)
      ]

  -- An activity that history shows as started with some attempt is drawn with every attempt: those
  -- before it as one lost span, and it as the last span, with the outcome and the end of its
  -- terminal event, or running without an end.
  pub activity_spans-AreDrawn :
      (sched : Scheduled) (started_at : Option Datetime) (identity : String) (attempt : ℕ)
      (failure : Option String) (term : Ended) (pending : Option PendingActivity)
      → 1 ≤ attempt
      → AreDrawn attempt
          (outcome_of "running" term)
          (end_of term)
          (activity_spans sched (some (started_at, identity, attempt, failure)) term pending)
  unfolding activity_spans final_span
  activity_spans-AreDrawn sched started_at identity attempt failure none pending pos =
      drawn_if sched attempt started_at failure (final_span sched attempt started_at identity none)
        pos refl refl
  activity_spans-AreDrawn sched started_at identity attempt failure (some (o, e, reason)) pending
        pos =
      drawn_if sched attempt started_at failure
        (final_span sched attempt started_at identity (some (o, e, reason))) pos refl refl
