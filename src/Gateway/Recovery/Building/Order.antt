-- ===== src/Gateway/Recovery/Building/Order.antt =====
-- The order of the waits, and what each of them is for (recovery.py: build_recovery).
use ancora.Prelude.{
  ◌≡◌, refl, sym, subst, inl, inr, Option, some, String, List, [], ◌∷◌, ◌++◌, In, In-append_left,
  In-append_right, In-sort_by, IsSorted, sort_by-IsSorted, string_key,
}
use ancora.Number.{Float, Num}
use ancora.Dict.{Dict, lookup}
use ancora.Gateway.History.{Wire, Datetime, HistoryEvent, PendingActivity}
use ancora.Gateway.Recovery.{FleetLiveness, PendingWorkflowTask, Scheduled, Window}
use ancora.Gateway.Recovery.Reducing.{reduce_history}
use ancora.Gateway.Recovery.Windows.{activity_window}
use ancora.Gateway.Recovery.Building.{
  Injection, all_markers, kills, by_activity_id, optional, activity_windows, task_windows,
  longer_first, build_recovery,
}

module _ ⦃f : Float⦄ ⦃w : Wire Num⦄ where
  In-optional : (win : Window) (o : Option Window) → o ≡ some win → In win (optional o)
  In-optional win o e = rw e (inl refl)

  In-activity_windows :
      (by_id : Dict String Scheduled) (liveness : FleetLiveness) (now : Datetime)
      (killed_at : List Datetime) (pending : List PendingActivity) (pa : PendingActivity)
      (win : Window)
      → In pa pending
      → activity_window pa (lookup pa.activity_id by_id) liveness now killed_at ≡ some win
      → In win (activity_windows by_id liveness now killed_at pending)
  unfolding activity_windows
  In-activity_windows by_id liveness now killed_at [] pa win h e = absurd h
  In-activity_windows by_id liveness now killed_at (p ∷ pending) pa win (inl same) e =
      let o = activity_window p (lookup p.activity_id by_id) liveness now killed_at in
      let here : o ≡ some win =
        subst
          (λ (q : PendingActivity).
            activity_window q (lookup q.activity_id by_id) liveness now killed_at ≡ some win)
          (sym same) e in
      In-append_left win (optional o) (activity_windows by_id liveness now killed_at pending)
        (In-optional win o here)
  In-activity_windows by_id liveness now killed_at (p ∷ pending) pa win (inr h) e =
      In-append_right win
        (optional (activity_window p (lookup p.activity_id by_id) liveness now killed_at))
        (activity_windows by_id liveness now killed_at pending)
        (In-activity_windows by_id liveness now killed_at pending pa win h e)

  -- The waits of a recovery view are listed longest first, and the wait of each pending activity,
  -- where it has one, is among them.
  waits_longest_first :
      (run_id status : String) (events : List HistoryEvent) (pending : List PendingActivity)
      (task : Option PendingWorkflowTask) (task_queue : Option String) (task_timeout : Option Num)
      (injections : List Injection) (liveness : FleetLiveness) (now clock : Datetime)
      → let view =
          build_recovery run_id status events pending task task_queue task_timeout injections
            liveness now clock in
        let r = reduce_history clock events in
        IsSorted longer_first view.windows
        × ((pa : PendingActivity) (win : Window)
            → In pa pending
            → activity_window pa
                (lookup pa.activity_id (by_activity_id [] r.scheduled))
                liveness
                now
                (kills (all_markers r injections))
              ≡ some win
            → In win view.windows)
  unfolding build_recovery
  waits_longest_first run_id status events pending task task_queue task_timeout injections liveness
        now clock =
      let r = reduce_history clock events in
      let by_id = by_activity_id [] r.scheduled in
      let killed_at = kills (all_markers r injections) in
      let acts = activity_windows by_id liveness now killed_at pending in
      let tasks = task_windows task task_queue task_timeout liveness now in
      (
        sort_by-IsSorted longer_first (acts ++ tasks)
            (λ a b. f.at_most_total b.elapsed_seconds a.elapsed_seconds)
            (λ a b c h k.
              f.at_most_trans c.elapsed_seconds b.elapsed_seconds a.elapsed_seconds k h),
        (λ pa win h e. In-sort_by longer_first win (acts ++ tasks) (
            In-append_left win acts tasks
              (In-activity_windows by_id liveness now killed_at pending pa win h e))),
      )
