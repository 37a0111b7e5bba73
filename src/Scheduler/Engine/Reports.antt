-- ===== src/Scheduler/Engine/Reports.antt =====
-- Admitted work and its completion report (engine.py).
use ancora.Prelude.{
  ◌≡◌, sym, subst, ap, ◌∙◌, Bool, true, false, none, some, String, arith, ==_refl, string_key, ok,
  if◌then◌else◌,
}
use ancora.Number.{Float, Num, fnum, plus, at_most}
use ancora.Dict.{lookup, IsDict}
use ancora.Dict.Laws.{insert-IsDict, prune-IsDict, lookup-insert_self}
use ancora.Scheduler.Backlog
use ancora.Scheduler.Backlog.{InflightTracker, Entry, sweep, is_expired}
use ancora.Scheduler.Backlog.Slots.{complete_releases, is_some}
use ancora.Scheduler.Budget.{run_spend}
use ancora.Scheduler.Budget.Spend.{run_spend-record}
use ancora.Scheduler.ConfigStore.{ConfigStore, reload_if_changed}
use ancora.Scheduler.Admission.{
  admit, slot_token, AdmissionRequest, AdmissionDecision, AdmissionEngine, Surroundings,
}
use ancora.Scheduler.Engine.{first_found, after_depth, admit_request, complete}
use ancora.Scheduler.Engine.Effects.{Settled, is_admit, admit_request-Settled}

module _ ⦃f : Float⦄ where
  sweep-IsDict : (now : Num) (t : InflightTracker) → IsDict t.entries → IsDict (sweep now t).entries
  unfolding sweep
  sweep-IsDict now t h = prune-IsDict (is_expired t.ttl_seconds now) t.entries h

  held_slot :
      (token queue : String) (swept_at now : Num) (t : InflightTracker)
      → lookup token (Backlog.admit token queue swept_at now t).entries
        ≡ some (record { queue = queue; admitted_at = now })
  unfolding Backlog.admit
  held_slot token queue swept_at now t =
      lookup-insert_self token (record { queue = queue; admitted_at = now })
        (sweep swept_at t).entries

  admit-IsDict :
      (token queue : String) (swept_at now : Num) (t : InflightTracker)
      → IsDict t.entries
      → IsDict (Backlog.admit token queue swept_at now t).entries
  unfolding Backlog.admit
  admit-IsDict token queue swept_at now t h =
      insert-IsDict token (record { queue = queue; admitted_at = now }) (sweep swept_at t).entries
        (sweep-IsDict swept_at t h)

  module _ (req : AdmissionRequest) (env : Surroundings) where
    -- Work that was admitted holds a slot: its first completion report releases it, adds the
    -- reported amount, if above 0, to the run's spend, and leaves no slot under the work's token;
    -- a second report releases nothing.
    pub admitted_work_reports :
        (e : AdmissionEngine) (store : ConfigStore) {swapped : Bool} (d : AdmissionDecision)
        (e' : AdmissionEngine) (name : String) (usd : Num)
        → reload_if_changed false env.stat env.loaded e.store ≡ (ok swapped, store)
        → IsDict e.inflight.entries
        → admit_request req env e ≡ (ok d, e')
        → d.outcome ≡ admit
        → let (released, e'') = complete req.run_id req.node_id name usd e' in
          (released ≡ true)
          × (lookup (slot_token req.run_id req.node_id) e''.inflight.entries ≡ none)
          × (run_spend req.run_id e''.ledger ≡ (
              if at_most usd (fnum 0)
              then run_spend req.run_id e.ledger
              else plus (run_spend req.run_id e.ledger) usd))
          × ((complete req.run_id req.node_id name usd e'').0 ≡ false)
    unfolding complete
    admitted_work_reports e store d e' name usd reloaded unique answered admitted =
        let token = slot_token req.run_id req.node_id in
        let before = (after_depth req env store e).inflight in
        let settled =
          subst (Settled req env (first_found req env store e).depth (after_depth req env store e))
            answered (admit_request-Settled req env e store reloaded) in
        let taken : e'.inflight
            ≡ Backlog.admit token req.task_queue env.slot_swept_at env.slot_at before =
          settled.2
          ∙ ap
              (λ o.
                if is_admit o
                then Backlog.admit token req.task_queue env.slot_swept_at env.slot_at before
                else before)
              admitted in
        let kept : e'.ledger ≡ e.ledger = settled.4 in
        let swept : IsDict before.entries =
          unfold Backlog.depth in sweep-IsDict env.depth_at e.inflight unique in
        let unique' : IsDict e'.inflight.entries =
          subst (λ t. IsDict t.entries) (sym taken)
            (admit-IsDict token req.task_queue env.slot_swept_at env.slot_at before swept) in
        let slot : lookup token e'.inflight.entries
            ≡ some (record { queue = req.task_queue; admitted_at = env.slot_at }) =
          ap (λ (t : InflightTracker). lookup token t.entries) taken
          ∙ held_slot token req.task_queue env.slot_swept_at env.slot_at before in
        let (released, _, gone, again) = complete_releases token e'.inflight unique' in
        (
          released ∙ ap is_some slot,
          ground (arith, gone token, ==_refl token),
          run_spend-record req.run_id req.run_id name usd e'.ledger
              ∙ ground (arith, ==_refl req.run_id, ap (run_spend req.run_id) kept),
          again,
        )
