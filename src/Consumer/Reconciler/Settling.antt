-- ===== src/Consumer/Reconciler/Settling.antt =====
-- What a pass does to the rows (reconciler.py).
use ancora.Prelude.{
  ℕ, ◌+◌, ◌≡◌, refl, sym, subst, ap, ◌∙◌, Bool, true, false, Option, String, List, [], ◌∷◌, arith,
  nat_eq, nat_eq_iff, Result, ok, raised, if◌then◌else◌, inl, inr, Bool-cases, Result-cases,
}
use ancora.Dict.{Dict}
use ancora.Dict.Count.{count_values}
use ancora.Common.Catalog.{
  AncoraRunStatus, queued, running, completed, failed, cancelled, terminated, timed_out,
  is_terminal,
}
use ancora.Consumer.Reconciler.{
  WorkflowRun, Described, unreachable, described, Fetched, fetched, workflow_failure,
  other_exception, SettledEvent, status_code, same_status, status_of, close_run, move_run,
  reconcile_run, Temporal, keep_row, after_run, reconcile_rows, committed, reconcile_once,
}

unfoldable of_code : ℕ → AncoraRunStatus
of_code n =
    if nat_eq n 0
    then queued
    else if nat_eq n 1
    then running
    else if nat_eq n 2
    then completed
    else if nat_eq n 3
    then failed
    else if nat_eq n 4
    then cancelled
    else if nat_eq n 5
    then terminated
    else timed_out

of_code-status_code : (s : AncoraRunStatus) → of_code (status_code s) ≡ s
unfolding of_code
of_code-status_code queued = refl
of_code-status_code running = refl
of_code-status_code completed = refl
of_code-status_code failed = refl
of_code-status_code cancelled = refl
of_code-status_code terminated = refl
of_code-status_code timed_out = refl

same_status_eq : (s t : AncoraRunStatus) → same_status s t ≡ true → s ≡ t
same_status_eq s t h =
    sym (of_code-status_code s)
    ∙ ap of_code ((nat_eq_iff (status_code s) (status_code t)).0 h)
    ∙ of_code-status_code t

-- the status that Temporal gives a run
abbrev pub told : {T : Type 0} → Described T → AncoraRunStatus → AncoraRunStatus
told unreachable status = status
told (described value closed) status = status_of value status

module _ {D T : Type 0} where
  abbrev Closed : AncoraRunStatus → Result String (WorkflowRun D T) → Type 0
  Closed status (raised text) = Unit
  Closed status (ok run) = run.status ≡ status

  close_run-Closed :
      (status : AncoraRunStatus) (closed : Option T) (result : Fetched D) (run : WorkflowRun D T)
      → Closed status (close_run status closed result run)
  unfolding close_run
  close_run-Closed completed closed (fetched output) run = refl
  close_run-Closed completed closed (workflow_failure text) run = tt
  close_run-Closed completed closed (other_exception text) run = tt
  close_run-Closed failed closed result run = refl
  close_run-Closed timed_out closed result run = refl
  close_run-Closed queued closed result run = refl
  close_run-Closed running closed result run = refl
  close_run-Closed cancelled closed result run = refl
  close_run-Closed terminated closed result run = refl

  -- a run that was not terminal, after its turn
  abbrev Reconciled :
      AncoraRunStatus → Result String (Bool × WorkflowRun D T × List SettledEvent) → Type 0
  Reconciled status (raised text) = Unit
  Reconciled status (ok (terminal, run, events)) =
      (run.status ≡ status) × (terminal ≡ is_terminal run.status)

  move_run-Reconciled :
      (status : AncoraRunStatus) (closed : Option T) (result : Fetched D) (run : WorkflowRun D T)
      → Reconciled status (move_run status closed result run)
  unfolding move_run
  move_run-Reconciled status closed result run = elim (Bool-cases (is_terminal status)) [
    | inr going ↦ rw going (refl, sym going)
    | inl ended ↦ elim (Result-cases (close_run status closed result run)) [
      | inl (text, bad) ↦ rw (ended, bad) tt
      | inr (run', good) ↦
          let kept : run'.status ≡ status =
            subst (Closed status) good (close_run-Closed status closed result run) in
          rw (ended, good) (kept, rw (kept, ended) refl)
    ]
  ]

  reconcile_run-Reconciled :
      (d : Described T) (result : Fetched D) (run : WorkflowRun D T)
      → is_terminal run.status ≡ false
      → Reconciled (told d run.status) (reconcile_run d result run)
  unfolding reconcile_run
  reconcile_run-Reconciled unreachable result run going = (refl, sym going)
  reconcile_run-Reconciled (described value closed) result run going =
      let status = status_of value run.status in
      elim (Bool-cases (same_status status run.status)) [
        | inl same ↦ rw same (sym (same_status_eq status run.status same), sym going)
        | inr moved ↦ rw moved (move_run-Reconciled status closed result run)
      ]

  -- a row before and after a pass
  abbrev Moved : Temporal D T → String → WorkflowRun D T → WorkflowRun D T → Type 0
  Moved temporal id run run' =
      (is_terminal run.status ≡ true → run' ≡ run)
      × (is_terminal run.status ≡ false → run'.status ≡ told (temporal.describe id) run.status)

  abbrev AllMoved :
      Temporal D T → Dict String (WorkflowRun D T) → Dict String (WorkflowRun D T) → Type 0
  AllMoved temporal [] [] = Unit
  AllMoved temporal ((id, run) ∷ rows) ((id', run') ∷ rows') =
      (id ≡ id') × Moved temporal id run run' × AllMoved temporal rows rows'
  AllMoved temporal [] (_ ∷ _) = ⊥
  AllMoved temporal (_ ∷ _) [] = ⊥

  abbrev has_ended : WorkflowRun D T → Bool
  has_ended run = is_terminal run.status

  abbrev Went :
      Temporal D T
      → Dict String (WorkflowRun D T)
      → Result String (ℕ × Dict String (WorkflowRun D T))
      → Type 0
  Went temporal rows (raised text) = Unit
  Went temporal rows (ok (n, rows')) =
      (count_values has_ended rows' ≡ count_values has_ended rows + n)
      × AllMoved temporal rows rows'

  keep_row-Went :
      (temporal : Temporal D T) (id : String) (run run' : WorkflowRun D T) (n : ℕ)
      (rows : Dict String (WorkflowRun D T))
      (result : Result String (ℕ × Dict String (WorkflowRun D T)))
      → Moved temporal id run run'
      → (if has_ended run' then 1 else 0) ≡ (if has_ended run then 1 else 0) + n
      → Went temporal rows result
      → Went temporal ((id, run) ∷ rows) (keep_row (id, run') n result)
  unfolding keep_row count_values
  keep_row-Went temporal id run run' n rows (raised text) moved counted went = tt
  keep_row-Went temporal id run run' n rows (ok (m, rows')) moved counted (total, all) =
      (omega (arith, total, counted), (refl, moved, all))

  after_run-Went :
      (temporal : Temporal D T) (id : String) (run : WorkflowRun D T)
      (turn : Result String (Bool × WorkflowRun D T × List SettledEvent))
      (rows : Dict String (WorkflowRun D T))
      (rest : Result String (ℕ × Dict String (WorkflowRun D T)) × List SettledEvent)
      → is_terminal run.status ≡ false
      → Reconciled (told (temporal.describe id) run.status) turn
      → Went temporal rows rest.0
      → Went temporal ((id, run) ∷ rows) (after_run id turn rest).0
  unfolding after_run
  after_run-Went temporal id run (raised text) rows rest going turned went = tt
  after_run-Went temporal id run (ok (terminal, run', events)) rows rest going (status, ended)
        went =
      keep_row-Went temporal id run run' (if terminal then 1 else 0) rows rest.0
        ((λ over. absurd (ground arith)), (λ _. status)) (rw (ended, going) (omega arith)) went

  reconcile_rows-Went :
      (temporal : Temporal D T) (rows : Dict String (WorkflowRun D T))
      → Went temporal rows (reconcile_rows temporal rows).0
  unfolding reconcile_rows count_values
  reconcile_rows-Went temporal [] = (omega arith, tt)
  reconcile_rows-Went temporal ((id, run) ∷ rows) =
      let rest = reconcile_rows-Went temporal rows in
      elim (Bool-cases (is_terminal run.status)) [
        | inl over ↦ rw over (
            keep_row-Went temporal id run run 0 rows (reconcile_rows temporal rows).0
              ((λ _. refl), (λ going. absurd (ground arith))) (omega arith) rest)
        | inr going ↦ rw going (
            after_run-Went temporal id run
              (reconcile_run (temporal.describe id) (temporal.result id) run) rows
              (reconcile_rows temporal rows) going
              (reconcile_run-Reconciled (temporal.describe id) (temporal.result id) run going) rest)
      ]

  abbrev pub Outcome :
      Temporal D T
      → Dict String (WorkflowRun D T)
      → Result String ℕ × Dict String (WorkflowRun D T)
      → Type 0
  Outcome temporal table (raised text, table') = table' ≡ table
  Outcome temporal table (ok n, table') =
      (count_values has_ended table' ≡ count_values has_ended table + n)
      × AllMoved temporal table table'

  committed-Outcome :
      (temporal : Temporal D T) (table : Dict String (WorkflowRun D T))
      (result : Result String (ℕ × Dict String (WorkflowRun D T)))
      → Went temporal table result
      → Outcome temporal table (committed table result)
  unfolding committed
  committed-Outcome temporal table (raised text) went = refl
  committed-Outcome temporal table (ok (n, table')) went = went

  -- A pass that raises leaves the rows as they were. One that returns leaves each run that was
  -- terminal as it was, and gives each other run the status that Temporal gives it, or its own
  -- where Temporal is not reached; and its result is how many more runs are terminal.
  pub reconcile_once_settles :
      (temporal : Temporal D T) (table : Dict String (WorkflowRun D T))
      → Outcome temporal table (reconcile_once temporal table).0
  unfolding reconcile_once
  reconcile_once_settles temporal table =
      committed-Outcome temporal table (reconcile_rows temporal table).0
        (reconcile_rows-Went temporal table)
