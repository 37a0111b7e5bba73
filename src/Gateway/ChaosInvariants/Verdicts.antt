-- ===== src/Gateway/ChaosInvariants/Verdicts.antt =====
-- What each verdict means (chaos_invariants.py).
use ancora.Prelude.{
  ℕ, ◌+◌, ◌≤◌, ◌≡◌, ◌↔◌, refl, Bool, true, false, List, [], ◌∷◌, arith, any, count_if, not, ◌==◌,
  ==_refl, string_key, nat_key, inl, inr, Bool-cases,
}
use ancora.Dict.{Dict, lookup, lookup_or, bump, IsDict}
use ancora.Dict.Laws.{insert-IsDict}
use ancora.Dict.Totals.{total, total-bump}
use ancora.Gateway.ChaosInvariants.{
  EventType, activity_task_completed, activity_task_started, workflow_execution_completed,
  workflow_execution_failed, workflow_execution_terminated, workflow_execution_timed_out,
  other_event, InboxRecord, is_empty, count_completions, completions_by_scheduled, doubled_in,
  no_reexecuted_activities, is_completed, run_completed, pending_of, exactly_once_effects,
}

-- a completion of one scheduled activity
abbrev completes : ℕ → EventType → Bool
completes sid (activity_task_completed i) = i == sid
completes sid _ = false

abbrev is_done : InboxRecord → Bool
is_done r = r.status == "done"

total-count_completions :
    (sid : ℕ) (events : List EventType) (counts : Dict ℕ ℕ)
    → total sid (count_completions events counts)
      ≡ total sid counts + count_if (completes sid) events
unfolding count_completions
total-count_completions sid [] counts = omega arith
total-count_completions sid (activity_task_completed i ∷ events) counts =
    ground (arith, total-count_completions sid events (bump i counts), total-bump sid i counts)
total-count_completions sid (activity_task_started ∷ events) counts =
    omega (arith, total-count_completions sid events counts)
total-count_completions sid (workflow_execution_completed ∷ events) counts =
    omega (arith, total-count_completions sid events counts)
total-count_completions sid (workflow_execution_failed ∷ events) counts =
    omega (arith, total-count_completions sid events counts)
total-count_completions sid (workflow_execution_terminated ∷ events) counts =
    omega (arith, total-count_completions sid events counts)
total-count_completions sid (workflow_execution_timed_out ∷ events) counts =
    omega (arith, total-count_completions sid events counts)
total-count_completions sid (other_event ∷ events) counts =
    omega (arith, total-count_completions sid events counts)

count_completions-IsDict :
    (events : List EventType) (counts : Dict ℕ ℕ)
    → IsDict counts
    → IsDict (count_completions events counts)
unfolding count_completions
count_completions-IsDict [] counts h = h
count_completions-IsDict (activity_task_completed i ∷ events) counts h =
    count_completions-IsDict events (bump i counts)
      (unfold bump in insert-IsDict i (lookup_or 0 i counts + 1) counts h)
count_completions-IsDict (activity_task_started ∷ events) counts h =
    count_completions-IsDict events counts h
count_completions-IsDict (workflow_execution_completed ∷ events) counts h =
    count_completions-IsDict events counts h
count_completions-IsDict (workflow_execution_failed ∷ events) counts h =
    count_completions-IsDict events counts h
count_completions-IsDict (workflow_execution_terminated ∷ events) counts h =
    count_completions-IsDict events counts h
count_completions-IsDict (workflow_execution_timed_out ∷ events) counts h =
    count_completions-IsDict events counts h
count_completions-IsDict (other_event ∷ events) counts h = count_completions-IsDict events counts h

-- no entry above 1, at every key
none_doubled :
    (counts : Dict ℕ ℕ) → is_empty (doubled_in counts) ≡ true → (sid : ℕ) → total sid counts ≤ 1
unfolding doubled_in lookup_or lookup
none_doubled [] h sid = omega arith
none_doubled ((i, n) ∷ counts) h sid =
    let rest : is_empty (doubled_in counts) ≡ true = ground arith in
    ground (arith, none_doubled counts rest sid)

some_doubled :
    (counts : Dict ℕ ℕ)
    → IsDict counts
    → ((sid : ℕ) → total sid counts ≤ 1)
    → is_empty (doubled_in counts) ≡ true
unfolding doubled_in lookup_or lookup
some_doubled [] h small = refl
some_doubled ((i, n) ∷ counts) (new, h) small =
    let here : n ≤ 1 = ground (arith, small i, ==_refl i) in
    let rest = some_doubled counts h (λ sid. below_one sid) in ground arith
  where
    below_one : (sid : ℕ) → total sid counts ≤ 1
    below_one sid = elim (Bool-cases (i == sid)) [
      | inl same ↦ ground (arith, nat_key.agree_iff i sid)
      | inr other ↦ ground (arith, small sid)
    ]

none_pending :
    (inbox : List InboxRecord)
    → is_empty (pending_of inbox) ≡ not (any (λ r. not (is_done r)) inbox)
unfolding pending_of
none_pending [] = refl
none_pending (r ∷ inbox) = ground (arith, none_pending inbox)

-- The history of a run passes the check for repeated work exactly if no scheduled activity has
-- more than one completion in it; it passes the check for lost state exactly if it has the run's
-- completion; and the inbox passes the check for effects exactly if no row's status differs from
-- "done".
verdicts :
    (events : List EventType) (inbox : List InboxRecord)
    → (((no_reexecuted_activities events).passed ≡ true)
        ↔ ((sid : ℕ) → count_if (completes sid) events ≤ 1))
      × ((run_completed events).passed ≡ any is_completed events)
      × ((exactly_once_effects inbox).passed ≡ not (any (λ r. not (is_done r)) inbox))
unfolding no_reexecuted_activities run_completed exactly_once_effects completions_by_scheduled
verdicts events inbox =
    let counts = count_completions events [] in
    let unique = count_completions-IsDict events [] tt in
    let counted : (sid : ℕ) → total sid counts ≡ count_if (completes sid) events =
      λ sid. omega (arith, total-count_completions sid events [], no_entry sid) in
    (
      (
        λ passed sid. omega (arith, counted sid, none_doubled counts passed sid),
        λ small. some_doubled counts unique (λ sid. omega (arith, counted sid, small sid)),
      ),
      refl,
      none_pending inbox,
    )
  where
    no_entry : (sid : ℕ) → total sid [] ≡ 0
    no_entry sid = unfold lookup_or lookup in refl
