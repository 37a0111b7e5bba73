-- ===== src/Gateway/Recovery/Reducing/Handoffs.antt =====
-- How often a run changed hands (recovery.py: _reduce_history).
use ancora.Prelude.{
  ℕ, ◌+◌, ◌≤◌, ◌≡◌, refl, ◌∙◌, ap, Bool, Option, none, some, String, List, [], ◌∷◌, ◌++◌, count_if,
  ◌==◌, string_key, nat_key, arith, if◌then◌else◌, inl, inr, Bool-cases,
}
use ancora.Number.{Float, Num}
use ancora.Gateway.History.{
  Wire, Datetime, HistoryEvent, Attributes, dt, workflow_execution_started, activity_task_scheduled,
  activity_task_started, activity_task_completed, activity_task_failed, activity_task_timed_out,
  activity_task_canceled, timer_started, timer_fired, timer_canceled, workflow_execution_signaled,
  workflow_task_completed, workflow_task_started, workflow_task_timed_out, other_attributes,
}
use ancora.Gateway.Recovery.{Marker, Reduction}
use ancora.Gateway.Recovery.Reducing.{
  see_worker, changed, or_now, take_over, timed_out_marker, reduce_event, reduce_from,
  reduce_history, nothing_seen,
}

-- the worker that took a workflow task, where it is named
abbrev taken_by : Attributes → Option String
taken_by (workflow_task_started identity) = if identity == "" then none else some identity
taken_by _ = none

-- one workflow task after a worker, with the count of the rest
abbrev changes_at : Option String → Option String → (Option String → ℕ) → ℕ
changes_at last none rest = rest last
changes_at none (some identity) rest = rest (some identity)
changes_at (some last) (some identity) rest =
    (if identity == last then 0 else 1) + rest (some identity)

-- how often a history's workflow tasks change from one worker to another, after a worker
abbrev pub changes : Option String → List HistoryEvent → ℕ
changes last [] = 0
changes last (e ∷ events) = changes_at last (taken_by e.attributes) (λ l. changes l events)

count_if-append_one :
    {A : Type 0} (p : A → Bool) (xs : List A) (x : A)
    → count_if p (xs ++ x ∷ []) ≡ count_if p xs + (if p x then 1 else 0)
count_if-append_one p [] x = ground arith
count_if-append_one p (y ∷ xs) x = ground (arith, count_if-append_one p xs x)

module _ ⦃f : Float⦄ ⦃w : Wire Num⦄ where
  abbrev pub is_change : Marker → Bool
  is_change m = m.kind == "worker_changed"

  -- What a reduction says of the changes so far.
  record IsCounted (r : Reduction) : Type 0 where
    pub drawn : count_if is_change r.markers ≡ r.handoffs
    pub recorded : r.replayed_activities ≤ r.completed_activities

  abbrev Step : Reduction → Option String → Reduction → Type 0
  Step r none r' = (r'.handoffs ≡ r.handoffs) × (r'.last_identity ≡ r.last_identity) × IsCounted r'
  Step r (some identity) r' =
      (r'.handoffs ≡ r.handoffs + changes_at r.last_identity (some identity) (λ l. 0))
      × (r'.last_identity ≡ some identity)
      × IsCounted r'

  take_over-Step :
      (now : Datetime) (at_time : Option Datetime) (identity : String) (last : Option String)
      (r : Reduction)
      → r.last_identity ≡ last
      → IsCounted r
      → Step r (some identity) (take_over now at_time identity last r)
  unfolding take_over changed
  take_over-Step now at_time identity none r e c =
      (rw e (omega arith), refl, record { drawn = c.drawn; recorded = c.recorded })
  take_over-Step now at_time identity (some last) r e c = elim (Bool-cases (identity == last)) [
    | inl same ↦ rw (e, same) (omega arith, refl, record { drawn = c.drawn; recorded = c.recorded })
    | inr other ↦
        rw (e, other)
          (
            omega arith,
            refl,
            record {
              drawn =
                  count_if-append_one is_change r.markers
                    (changed (or_now now at_time) identity last r.completed_activities)
                  ∙ ap (λ n. n + 1) c.drawn;
              recorded = omega (arith, c.recorded);
            },
          )
  ]

  reduce_event-Step :
      (now : Datetime) (e : HistoryEvent) (a : Attributes) (r : Reduction)
      → IsCounted r
      → Step r (taken_by a) (reduce_event now e a r)
  unfolding reduce_event timed_out_marker
  reduce_event-Step now e (workflow_task_started identity) r c =
      elim (Bool-cases (identity == "")) [
        | inl blank ↦ rw blank (refl, refl, record { drawn = c.drawn; recorded = c.recorded })
        | inr named ↦ rw named (
            take_over-Step now (dt (some e.event_time)) identity r.last_identity
              (record r { workers = see_worker identity r.workers }) refl
              (record { drawn = c.drawn; recorded = c.recorded }))
      ]
  reduce_event-Step now e (workflow_task_timed_out kind) r c = (
    refl,
    refl,
    record {
      drawn =
          count_if-append_one is_change r.markers
            (timed_out_marker (or_now now (dt (some e.event_time))) kind)
          ∙ (omega (arith, c.drawn));
      recorded = c.recorded;
    },
  )
  reduce_event-Step now e (activity_task_completed sid) r c =
      (refl, refl, record { drawn = c.drawn; recorded = omega (arith, c.recorded) })
  reduce_event-Step now e (activity_task_scheduled _) r c =
      (refl, refl, record { drawn = c.drawn; recorded = c.recorded })
  reduce_event-Step now e (activity_task_started _ _ _ _) r c =
      (refl, refl, record { drawn = c.drawn; recorded = c.recorded })
  reduce_event-Step now e (activity_task_failed _ _) r c =
      (refl, refl, record { drawn = c.drawn; recorded = c.recorded })
  reduce_event-Step now e (activity_task_timed_out _ _) r c =
      (refl, refl, record { drawn = c.drawn; recorded = c.recorded })
  reduce_event-Step now e (activity_task_canceled _) r c =
      (refl, refl, record { drawn = c.drawn; recorded = c.recorded })
  reduce_event-Step now e (workflow_execution_started _) r c = (refl, refl, c)
  reduce_event-Step now e (timer_started _ _) r c = (refl, refl, c)
  reduce_event-Step now e (timer_fired _) r c = (refl, refl, c)
  reduce_event-Step now e (timer_canceled _) r c = (refl, refl, c)
  reduce_event-Step now e (workflow_execution_signaled _) r c = (refl, refl, c)
  reduce_event-Step now e workflow_task_completed r c = (refl, refl, c)
  reduce_event-Step now e other_attributes r c = (refl, refl, c)

  counted :
      (last : Option String) (identity : String) (n : ℕ) (rest : Option String → ℕ)
      → n + changes_at last (some identity) (λ l. 0) + rest (some identity)
        ≡ n + changes_at last (some identity) rest
  counted none identity n rest = omega arith
  counted (some last) identity n rest = omega arith

  Step-IsCounted : (taken : Option String) (r r' : Reduction) → Step r taken r' → IsCounted r'
  Step-IsCounted none r r' s = s.2
  Step-IsCounted (some identity) r r' s = s.2

  stepped :
      (taken : Option String) (r r' end : Reduction) (rest : Option String → ℕ)
      → Step r taken r'
      → end.handoffs ≡ r'.handoffs + rest r'.last_identity
      → end.handoffs ≡ r.handoffs + changes_at r.last_identity taken rest
  stepped none r r' end rest s e = e ∙ (rw (s.0, s.1) refl)
  stepped (some identity) r r' end rest s e =
      e ∙ (rw (s.0, s.1) (counted r.last_identity identity r.handoffs rest))

  reduce_from-IsCounted :
      (now : Datetime) (events : List HistoryEvent) (r : Reduction)
      → IsCounted r
      → let r' = reduce_from now r events in
        (r'.handoffs ≡ r.handoffs + changes r.last_identity events) × IsCounted r'
  unfolding reduce_from
  reduce_from-IsCounted now [] r c = (omega arith, c)
  reduce_from-IsCounted now (e ∷ events) r c =
      let r' = reduce_event now e e.attributes r in
      let step = reduce_event-Step now e e.attributes r c in
      let (n, c') =
        reduce_from-IsCounted now events r' (Step-IsCounted (taken_by e.attributes) r r' step) in
      (
        stepped (taken_by e.attributes) r r' (reduce_from now r' events) (λ l. changes l events)
            step n,
        c',
      )

  -- The handoffs of a run are the changes from one worker to another among its workflow tasks that
  -- name a worker; each has one marker, and the results that a worker rebuilt from are never more
  -- than the results that the history records.
  pub handoffs_lem :
      (now : Datetime) (events : List HistoryEvent)
      → let r = reduce_history now events in
        (r.handoffs ≡ changes none events)
        × (count_if is_change r.markers ≡ r.handoffs)
        × (r.replayed_activities ≤ r.completed_activities)
  handoffs_lem now events =
      let (n, c) =
        reduce_from-IsCounted now events nothing_seen
          (record { drawn = refl; recorded = omega arith }) in
      (omega (arith, n), c.drawn, c.recorded)
