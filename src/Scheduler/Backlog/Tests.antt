-- ===== src/Scheduler/Backlog/Tests.antt =====
-- Runs of backlog.py over whole seconds.
use ancora.Prelude.{none, some, ◌≡◌, refl, true, false, List, [], ◌∷◌, string_key, if◌then◌else◌}
use ancora.Prelude.Int.{pos, ◌+ℤ◌, ◌-ℤ◌, ◌*ℤ◌}
use ancora.Number.{at_most}
use ancora.Number.Whole.{whole}
use ancora.Dict.{lookup, insert, prune, IsDict}
use ancora.Dict.Count.{count_values}
use ancora.Scheduler.Backlog.{
  InflightTracker, sweep, admit, depth, tracker, count_expired, evaluate_backpressure, backoff,
}
use ancora.Scheduler.Backlog.Accounting.{
  Call, admit_call, complete_call, depth_call, run, IsAccounted, run-IsAccounted,
}
use ancora.Scheduler.Backlog.Leaks.{leak_recovery}
use ancora.Scheduler.Backlog.Watermarks.{backpressure_rule}

-- Two nodes in flight, the first admitted at 0 and the second at 80, with 100 seconds to live.
abbrev two : InflightTracker
two = record {
  ttl_seconds = pos 100;
  entries =
      ("r:a", record { queue = "cpu"; admitted_at = pos 0 })
      ∷ ("r:b", record { queue = "cpu"; admitted_at = pos 80 })
      ∷ [];
  admitted_total = ("cpu", 2) ∷ [];
  completed_total = [];
  expired_total = [];
}

depth_drops_expired : (depth "cpu" (pos 101) two).0 ≡ 1
unfolding depth sweep prune count_expired count_values ◌-ℤ◌
depth_drops_expired = refl

retry_holds_one : (depth "cpu" (pos 90) (admit "r:b" "cpu" (pos 90) (pos 90) two)).0 ≡ 2
unfolding depth admit sweep prune count_expired count_values insert ◌-ℤ◌
retry_holds_one = refl

abbrev calls : List Call
calls =
    admit_call "r:a" "cpu" (pos 0) (pos 0)
    ∷ admit_call "r:a" "io" (pos 5) (pos 5)
    ∷ complete_call "r:a"
    ∷ complete_call "r:a"
    ∷ depth_call "cpu" (pos 9)
    ∷ []

run-IsAccounted_example : IsAccounted (run calls (tracker (pos 100)))
run-IsAccounted_example = run-IsAccounted (pos 100) calls

two-IsDict : IsDict two.entries
unfolding lookup
two-IsDict = (refl, (refl, tt))

-- Another node is admitted at 90 and reported, and the gauge is read at 101.
abbrev later_calls : List Call
later_calls =
    admit_call "r:c" "cpu" (pos 90) (pos 91) ∷ complete_call "r:b" ∷ depth_call "cpu" (pos 101) ∷ []

first_slot : lookup "r:a" two.entries ≡ some (record { queue = "cpu"; admitted_at = pos 0 })
unfolding lookup
first_slot = refl

leak_recovery_example : lookup "r:a" (run later_calls two).entries ≡ none
unfolding ◌-ℤ◌
leak_recovery_example =
    leak_recovery "r:a" later_calls two (record { queue = "cpu"; admitted_at = pos 0 }) two-IsDict
      first_slot (refl, (refl, tt))

sheds_normal :
    evaluate_backpressure 125 50 200 (pos 3) (pos 1) (pos 2) (pos 30)
    ≡ record { admitted = false; retry_after = pos 2; depth = 125; soft = 50; hard = 200 }
unfolding evaluate_backpressure backoff ◌+ℤ◌ ◌*ℤ◌
sheds_normal = refl

backpressure_rule_example :
    let d = evaluate_backpressure 125 50 200 (pos 1) (pos 1) (pos 2) (pos 30) in
    (d.admitted ≡ true)
    × (d.retry_after ≡ (if d.admitted then pos 0 else backoff 125 50 200 (pos 2) (pos 30)))
    × (at_most (backoff 125 50 200 (pos 2) (pos 30)) (pos 30) ≡ true)
    × (d.depth ≡ 125)
    × (d.soft ≡ 50)
    × (d.hard ≡ 200)
backpressure_rule_example = backpressure_rule 125 50 200 (pos 1) (pos 1) (pos 2) (pos 30)
