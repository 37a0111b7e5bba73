-- ===== src/Scheduler/Backlog/Accounting.antt =====
-- The gauge's books (backlog.py): what was admitted, completed, expired and is still in flight.
use ancora.Prelude.{
  ℕ, ◌+◌, ◌≤◌, ◌≡◌, String, List, [], ◌∷◌, arith, string_key, Option-cases, inl, inr,
}
use ancora.Number.{Float, Num}
use ancora.Dict.{lookup, lookup_or, IsDict}
use ancora.Dict.Laws.{insert-IsDict, erase-IsDict, prune-IsDict}
use ancora.Dict.Count.{count_values, count_values-insert, count_values-erase, count_values-prune}
use ancora.Scheduler.Backlog.{
  Entry, InflightTracker, is_expired, on_queue, sweep, admit, complete, completed_entry, depth,
  depths, tracker,
}
use ancora.Dict.Totals.{total, total-bump}
use ancora.Scheduler.Backlog.Counts.{total-count_expired}

module _ ⦃f : Float⦄ where
  -- the entries of a queue
  abbrev pub live : String → InflightTracker → ℕ
  live q t = count_values (on_queue q) t.entries

  -- Tokens are listed once, and no queue has more completed, expired and live work than it has
  -- admitted.
  pub record IsAccounted (t : InflightTracker) : Type 0 where
    pub tokens : IsDict t.entries
    pub books :
        (q : String)
        → total q t.completed_total + total q t.expired_total + live q t ≤ total q t.admitted_total

  -- What a sweep takes from the live entries of a queue it adds to the expired ones.
  live-sweep :
      (q : String) (now : Num) (t : InflightTracker)
      → live q (sweep now t) + total q (sweep now t).expired_total
        ≡ live q t + total q t.expired_total
  unfolding sweep
  live-sweep q now t =
      let expired = is_expired t.ttl_seconds now in
      omega (
        arith,
        count_values-prune (on_queue q) expired t.entries,
        total-count_expired q expired t.entries t.expired_total,
      )

  sweep-IsAccounted : (now : Num) (t : InflightTracker) → IsAccounted t → IsAccounted (sweep now t)
  sweep-IsAccounted now t h = record {
    tokens = unfold sweep in prune-IsDict (is_expired t.ttl_seconds now) t.entries h.tokens;
    books = λ q. let b = h.books q in let l = live-sweep q now t in unfold sweep in omega arith;
  }

  admit-IsAccounted :
      (token queue : String) (swept_at now : Num) (t : InflightTracker)
      → IsAccounted t
      → IsAccounted (admit token queue swept_at now t)
  unfolding admit
  admit-IsAccounted token queue swept_at now t h =
      let t' = sweep swept_at t in
      let h' = sweep-IsAccounted swept_at t h in
      let e : Entry = record { queue = queue; admitted_at = now } in
      record {
        tokens = insert-IsDict token e t'.entries h'.tokens;
        books = λ q. ground (
          arith,
          h'.books q,
          count_values-insert (on_queue q) token e t'.entries,
          total-bump q queue t'.admitted_total,
        );
      }

  complete-IsAccounted :
      (token : String) (t : InflightTracker) → IsAccounted t → IsAccounted (complete token t).1
  unfolding complete
  complete-IsAccounted token t h = elim (Option-cases (lookup token t.entries)) [
    | inl missing ↦ rw (missing, completed_entry) h
    | inr (e, found) ↦
        rw (found, completed_entry)
          (record {
            tokens = erase-IsDict token t.entries h.tokens;
            books = λ q. ground (
              arith,
              h.books q,
              count_values-erase (on_queue q) token t.entries,
              total-bump q e.queue t.completed_total,
            );
          })
  ]

  -- one call of the tracker, with what the clock shows when it is read
  pub data Call : Type 0 where
    admit_call : String → String → Num → Num → Call
    complete_call : String → Call
    depth_call : String → Num → Call
    depths_call : Num → Call

  unfoldable pub step : Call → InflightTracker → InflightTracker
  step (admit_call token queue swept_at now) t = admit token queue swept_at now t
  step (complete_call token) t = (complete token t).1
  step (depth_call queue now) t = (depth queue now t).1
  step (depths_call now) t = (depths now t).1

  unfoldable pub run : List Call → InflightTracker → InflightTracker
  run [] t = t
  run (c ∷ cs) t = run cs (step c t)

  step-IsAccounted : (c : Call) (t : InflightTracker) → IsAccounted t → IsAccounted (step c t)
  unfolding step depth depths
  step-IsAccounted (admit_call token queue swept_at now) t h =
      admit-IsAccounted token queue swept_at now t h
  step-IsAccounted (complete_call token) t h = complete-IsAccounted token t h
  step-IsAccounted (depth_call queue now) t h = sweep-IsAccounted now t h
  step-IsAccounted (depths_call now) t h = sweep-IsAccounted now t h

  run_from-IsAccounted :
      (cs : List Call) (t : InflightTracker) → IsAccounted t → IsAccounted (run cs t)
  unfolding run
  run_from-IsAccounted [] t h = h
  run_from-IsAccounted (c ∷ cs) t h = run_from-IsAccounted cs (step c t) (step-IsAccounted c t h)

  tracker-IsAccounted : (ttl : Num) → IsAccounted (tracker ttl)
  unfolding tracker
  tracker-IsAccounted ttl = record {
    tokens = tt;
    books = λ q. unfold count_values lookup_or lookup in omega arith;
  }

  -- After any sequence of calls on a new tracker, whatever the clock shows at each reading, no
  -- token holds two slots, and on every queue the work completed, expired and in flight is at
  -- most the work admitted: a lost report or a repeated one never counts work that was not there.
  pub run-IsAccounted : (ttl : Num) (cs : List Call) → IsAccounted (run cs (tracker ttl))
  run-IsAccounted ttl cs = run_from-IsAccounted cs (tracker ttl) (tracker-IsAccounted ttl)
