-- ===== src/Gateway/Recovery/Building.antt =====
-- The assembly of the recovery view (recovery.py: build_recovery).
pub mod Order
use ancora.Prelude.{
  ℕ, Bool, true, false, not, Option, none, some, String, List, [], ◌∷◌, ◌++◌, ◌==◌, string_key,
  join, keep_if, sort_by, if◌then◌else◌,
}
use ancora.Number.{Float, Num, at_most}
use ancora.Dict.{Dict, lookup, insert}
use ancora.Gateway.History.{Wire, Datetime, HistoryEvent, PendingActivity, text_or}
use ancora.Gateway.Recovery.{
  FleetLiveness, PendingWorkflowTask, Scheduled, Marker, Reduction, Window, RunRecovery,
}
use ancora.Gateway.Recovery.Reducing.{reduce_history}
use ancora.Gateway.Recovery.Spans.{spans}
use ancora.Gateway.Recovery.Tasks.{workflow_window}
use ancora.Gateway.Recovery.Windows.{activity_window}

-- f"{action} {service}".strip(): the texts have no space at their ends
unfoldable pub injection_label : String → String → String
injection_label action service =
    if service == ""
    then action
    else if action == ""
    then service
    else join (action ∷ " " ∷ service ∷ [])

module _ ⦃f : Float⦄ ⦃w : Wire Num⦄ where
  -- an event of the chaos lab: its time, where that is a number, and its texts
  pub record Injection : Type 0 where
    pub time : Option Num
    pub action : String
    pub service : String
    pub detail : String

  unfoldable pub injected : List Injection → List Marker
  injected [] = []
  injected (ev ∷ rest) = elim ev.time [
    | none ↦ injected rest
    | some t ↦
        record {
          at_time = w.from_timestamp t;
          kind = ev.action;
          label = injection_label ev.action ev.service;
          detail = text_or none ev.detail;
        }
        ∷ injected rest
  ]

  -- markers.sort(key=lambda m: m.at)
  abbrev marker_at_most : Marker → Marker → Bool
  marker_at_most m n = not (w.before n.at_time m.at_time)

  unfoldable pub all_markers : Reduction → List Injection → List Marker
  all_markers r injections = sort_by marker_at_most (r.markers ++ injected injections)

  abbrev times_of : List Marker → List Datetime
  times_of [] = []
  times_of (m ∷ markers) = m.at_time ∷ times_of markers

  -- [m.at for m in markers if m.kind == "kill"]
  unfoldable pub kills : List Marker → List Datetime
  kills markers = times_of (keep_if (λ (m : Marker). m.kind == "kill") markers)

  -- {s.activity_id: s for s in reduction.scheduled.values()}
  unfoldable pub by_activity_id : Dict String Scheduled → Dict ℕ Scheduled → Dict String Scheduled
  by_activity_id found [] = found
  by_activity_id found ((_, s) ∷ scheduled) =
      by_activity_id (insert s.activity_id s found) scheduled

  abbrev pub optional : Option Window → List Window
  optional none = []
  optional (some win) = win ∷ []

  unfoldable pub activity_windows :
      Dict String Scheduled
      → FleetLiveness
      → Datetime
      → List Datetime
      → List PendingActivity
      → List Window
  activity_windows by_id liveness now killed_at [] = []
  activity_windows by_id liveness now killed_at (pa ∷ pending) =
      optional (activity_window pa (lookup pa.activity_id by_id) liveness now killed_at)
      ++ activity_windows by_id liveness now killed_at pending

  unfoldable pub task_windows :
      Option PendingWorkflowTask
      → Option String
      → Option Num
      → FleetLiveness
      → Datetime
      → List Window
  task_windows none queue timeout liveness now = []
  task_windows (some task) queue timeout liveness now =
      optional (workflow_window task queue timeout liveness now)

  -- windows.sort(key=lambda w: w.elapsed_seconds, reverse=True), which is stable
  abbrev pub longer_first : Window → Window → Bool
  longer_first a b = at_most b.elapsed_seconds a.elapsed_seconds

  -- build_recovery; `now` and `liveness` are those given, or the clock's and an empty one, and
  -- `clock` is the clock's reading for an event that has no time
  unfoldable pub build_recovery :
      String
      → String
      → List HistoryEvent
      → List PendingActivity
      → Option PendingWorkflowTask
      → Option String
      → Option Num
      → List Injection
      → FleetLiveness
      → Datetime
      → Datetime
      → RunRecovery
  build_recovery run_id status events pending task task_queue task_timeout injections liveness now
        clock =
      let r = reduce_history clock events in
      let markers = all_markers r injections in
      let by_id = by_activity_id [] r.scheduled in
      record {
        run_id = run_id;
        status = status;
        now = now;
        workers = r.workers;
        spans = spans r pending;
        markers = markers;
        windows = sort_by longer_first (
            activity_windows by_id liveness now (kills markers) pending
            ++ task_windows task task_queue task_timeout liveness now);
        replayed_activities = r.replayed_activities;
        handoffs = r.handoffs;
      }
