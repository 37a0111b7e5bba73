-- ===== src/Scheduler/Backlog/Slots.antt =====
-- In-flight slots: expiry, release and the gauge's two readings (backlog.py).
use ancora.Prelude.{
  ◌+◌, ◌≡◌, refl, ◌∙◌, ap, ==_refl, Bool, true, false, none, some, Option, String, [], arith, ◌==◌,
  string_key, if◌then◌else◌, Option-cases, inl, inr,
}
use ancora.Number.{Float, Num}
use ancora.Dict.{lookup, lookup_or, erase, IsDict}
use ancora.Dict.Laws.{lookup-erase}
use ancora.Dict.Count.{
  count_values, count_values-insert, count_values-erase, count_values-prune, held,
}
use ancora.Scheduler.Backlog.{
  Entry, InflightTracker, is_expired, on_queue, sweep, admit, complete, completed_entry, depth,
  depths, keys, tally_queues,
}
use ancora.Dict.Totals.{total, total-bump}
use ancora.Scheduler.Backlog.Counts.{total-tally_queues, total-set_defaults}
use ancora.Scheduler.Backlog.Accounting.{live}

module _ ⦃f : Float⦄ where
  -- `depth` is the number of entries of the queue whose age is within the time to live, and
  -- `depths` shows the same number for every queue.
  depth-eq-fresh :
      (queue : String) (now : Num) (t : InflightTracker)
      → ((depth queue now t).0
            + count_values
                (λ e. if is_expired t.ttl_seconds now e then on_queue queue e else false)
                t.entries
          ≡ live queue t)
        × (total queue (depths now t).0 ≡ (depth queue now t).0)
  unfolding depth depths
  depth-eq-fresh queue now t =
      let t' = sweep now t in
      (
        unfold sweep in
            count_values-prune (on_queue queue) (is_expired t.ttl_seconds now) t.entries,
        omega (
          arith,
          total-set_defaults queue (keys t'.admitted_total) (tally_queues t'.entries []),
          total-tally_queues queue t'.entries [],
          no_entry queue,
        ),
      )
    where
      no_entry : (q : String) → total q [] ≡ 0
      no_entry q = unfold lookup_or lookup in refl

  -- Admission takes a slot on its queue and gives back the slot that the token already held:
  -- a retry of a node holds one slot, and the number of entries on any other queue stays.
  admit_slots :
      (q token queue : String) (swept_at now : Num) (t : InflightTracker)
      → live q (admit token queue swept_at now t)
          + held (on_queue q) (lookup token (sweep swept_at t).entries)
        ≡ live q (sweep swept_at t) + (if queue == q then 1 else 0)
  unfolding admit
  admit_slots q token queue swept_at now t =
      count_values-insert (on_queue q) token (record { queue = queue; admitted_at = now })
        (sweep swept_at t).entries

  abbrev pub is_some : {A : Type 0} → Option A → Bool
  is_some none = false
  is_some (some _) = true

  completed_entry_result :
      (token : String) (o : Option Entry) (t : InflightTracker)
      → (completed_entry token o t).0 ≡ is_some o
  unfolding completed_entry
  completed_entry_result token none t = refl
  completed_entry_result token (some e) t = refl

  -- A report says whether the token had a slot. It frees that slot and counts one completion on
  -- the slot's queue, or changes nothing; no other token is touched, and a second report finds
  -- nothing.
  pub complete_releases :
      (token : String) (t : InflightTracker)
      → IsDict t.entries
      → let (released, t') = complete token t in
        (released ≡ is_some (lookup token t.entries))
        × ((q : String)
            → (live q t' + held (on_queue q) (lookup token t.entries) ≡ live q t)
              × (total q t'.completed_total
                  ≡ total q t.completed_total + held (on_queue q) (lookup token t.entries)))
        × ((j : String) → lookup j t'.entries ≡ (if token == j then none else lookup j t.entries))
        × ((complete token t').0 ≡ false)
  unfolding complete
  complete_releases token t h = elim (Option-cases (lookup token t.entries)) [
    | inl missing ↦
        rw (missing, completed_entry)
          (
            refl,
            λ q. (omega arith, omega arith),
            λ j. ground (arith, string_key.agree_iff token j),
            rw (missing, completed_entry),
          )
    | inr (e, found) ↦
        let t' = (completed_entry token (some e) t).1 in
        let freed : lookup token (erase token t.entries) ≡ none =
          ground (arith, lookup-erase token token t.entries h, ==_refl token) in
        let gone = λ (j : String). lookup-erase j token t.entries h in
        rw (found, completed_entry)
          (
            refl,
            λ q. (
              ground (arith, count_values-erase (on_queue q) token t.entries),
              ground (arith, total-bump q e.queue t.completed_total),
            ),
            gone,
            completed_entry_result token (lookup token (erase token t.entries)) t'
                ∙ ap is_some freed,
          )
  ]
