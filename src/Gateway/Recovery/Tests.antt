-- ===== src/Gateway/Recovery/Tests.antt =====
-- A run whose worker was killed (recovery.py), with whole seconds for times.
use ancora.Prelude.{
  ◌≤◌, ◌≡◌, ◌↔◌, refl, true, none, some, List, [], ◌∷◌, any, count_if, string_key, arith,
}
use ancora.Prelude.Int.{pos}
use ancora.Number.Whole.{whole}
use ancora.Gateway.Ticks.{ticks, at}
use ancora.Gateway.History.{HistoryEvent, activity_task_completed, workflow_task_started}
use ancora.Gateway.Recovery.{Worker, Scheduled}
use ancora.Gateway.Recovery.Liveness.{
  no_workers, from_workers, liveness_state, vouches, live_means_fresh,
}
use ancora.Gateway.Recovery.Reducing.{reduce_history}
use ancora.Gateway.Recovery.Reducing.Handoffs.{changes, is_change, handoffs_lem}
use ancora.Gateway.Recovery.Spans.{activity_spans}
use ancora.Gateway.Recovery.Spans.Attempts.{AreDrawn, activity_spans-AreDrawn}
use ancora.Gateway.Recovery.Windows.Clocks.{Asymmetric}

abbrev worker : Worker
worker = record {
  host = some "node-1";
  pid = some 7;
  task_queues = "q" ∷ [];
  status = "live";
  last_heartbeat_at = some 95;
}

live_means_fresh_example :
    (liveness_state (from_workers 100 (worker ∷ []) no_workers) (some "7@node-1") ≡ "live")
    ↔ (any (vouches 100 "7@node-1") (worker ∷ []) ≡ true)
live_means_fresh_example = live_means_fresh 100 (worker ∷ []) "7@node-1" refl

abbrev history : List HistoryEvent
history =
    at 3 1 (workflow_task_started "7@node-1")
    ∷ at 7 2 (activity_task_completed 5)
    ∷ at 9 4 (workflow_task_started "8@node-2")
    ∷ []

handoffs_lem_example :
    let r = reduce_history 0 history in
    (r.handoffs ≡ changes none history)
    × (count_if is_change r.markers ≡ r.handoffs)
    × (r.replayed_activities ≤ r.completed_activities)
handoffs_lem_example = handoffs_lem 0 history

abbrev sched : Scheduled
sched = record {
  event_id = 5;
  activity_id = "1";
  activity_type = "run_node";
  task_queue = "q";
  scheduled_at = some 10;
  start_to_close = some (pos 60);
  heartbeat = some (pos 20);
  maximum_attempts = 3;
  node_id = "greet";
}

activity_spans-AreDrawn_example : AreDrawn 3 "completed" (some 50) (
    activity_spans sched
      (some (some 40, "7@node-1", 3, none))
      (some ("completed", some 50, none))
      none)
activity_spans-AreDrawn_example =
    activity_spans-AreDrawn sched (some 40) "7@node-1" 3 none (some ("completed", some 50, none))
      none (omega arith)

ticks_asymmetric : Asymmetric
ticks_asymmetric a b h = ground arith
