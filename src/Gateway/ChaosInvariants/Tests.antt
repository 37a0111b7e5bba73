-- ===== src/Gateway/ChaosInvariants/Tests.antt =====
-- Histories for chaos_invariants.py.
use ancora.Prelude.{◌≡◌, refl, some, List, [], ◌∷◌, nat_key}
use ancora.Prelude.Int.{pos, ◌-ℤ◌}
use ancora.Number.Whole.{whole}
use ancora.Dict.{bump, insert, lookup, lookup_or}
use ancora.Gateway.ChaosInvariants.{
  EventType, activity_task_completed, activity_task_started, workflow_execution_completed,
  no_reexecuted_activities, completions_by_scheduled, count_completions, doubled_in,
  completed_twice, measure_rto, candidates_of, earliest,
}

abbrev history : List EventType
history =
    activity_task_started
    ∷ activity_task_completed 5
    ∷ activity_task_completed 7
    ∷ activity_task_completed 5
    ∷ workflow_execution_completed
    ∷ []

repeated_work : (no_reexecuted_activities history).detail ≡ completed_twice (5 ∷ [])
unfolding no_reexecuted_activities completions_by_scheduled count_completions doubled_in bump insert
    lookup_or lookup
repeated_work = refl

-- the start at 12 comes before the kill at 20, and the one at 28 after it
recovered_in_8 :
    measure_rto
      (record { event_type = activity_task_started; when = some (pos 12) }
        ∷ record { event_type = activity_task_started; when = some (pos 28) }
        ∷ record { event_type = workflow_execution_completed; when = some (pos 40) }
        ∷ [])
      (pos 20)
    ≡ some (pos 8)
unfolding measure_rto candidates_of earliest ◌-ℤ◌
recovered_in_8 = refl
