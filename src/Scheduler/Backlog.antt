-- ===== src/Scheduler/Backlog.antt =====
-- services/scheduler/ancora_scheduler/backlog.py: the in-flight gauge and the watermark rule.
-- Each reading of the clock is an argument, in the order in which the code reads it.
pub mod Counts
pub mod Accounting
pub mod Slots
pub mod Leaks
pub mod Watermarks
mod Tests
use ancora.Prelude.{
  ℕ, ◌+◌, ◌-◌, max, Bool, true, false, Option, none, some, String, List, [], ◌∷◌, map, foldl, ltb,
  leb, ◌==◌, string_key, if◌then◌else◌,
}
use ancora.Prelude.Int.{ℤ, leb_ℤ}
use ancora.Number.{Float, Num, fnum, fmin, plus, minus, times, over, below}
use ancora.Dict.{Dict, bump, lookup, insert, erase, prune, lookup_or}
use ancora.Dict.Count.{count_values}

-- d.setdefault(k, 0)
unfoldable pub set_default : Dict String ℕ → String → Dict String ℕ
set_default d k = elim (lookup k d) [ none ↦ insert k 0 d | some _ ↦ d ]

unfoldable pub keys {ℓ} : {V : Type ℓ} → Dict String V → List String
keys [] = []
keys ((k, _) ∷ d) = k ∷ keys d

module _ ⦃f : Float⦄ where
  -- _Entry
  pub record Entry : Type 0 where
    pub queue : String
    pub admitted_at : Num

  pub record InflightTracker : Type 0 where
    pub ttl_seconds : Num
    pub entries : Dict String Entry
    pub admitted_total : Dict String ℕ
    pub completed_total : Dict String ℕ
    pub expired_total : Dict String ℕ

  -- now - e.admitted_at > self.ttl_seconds
  abbrev pub is_expired : Num → Num → Entry → Bool
  is_expired ttl now e = below ttl (minus now e.admitted_at)

  -- e.queue == queue
  abbrev pub on_queue : String → Entry → Bool
  on_queue queue e = e.queue == queue

  -- the loop over the expired keys: each is popped and counted
  unfoldable pub count_expired : (Entry → Bool) → Dict String Entry → Dict String ℕ → Dict String ℕ
  count_expired expired [] total = total
  count_expired expired ((k, e) ∷ d) total =
      count_expired expired d (if expired e then bump e.queue total else total)

  unfoldable pub sweep : Num → InflightTracker → InflightTracker
  sweep now t =
      let expired = is_expired t.ttl_seconds now in
      record t {
        entries = prune expired t.entries;
        expired_total = count_expired expired t.entries t.expired_total;
      }

  -- InflightTracker.admit: the clock is read by the sweep, and again for the entry
  unfoldable pub admit : String → String → Num → Num → InflightTracker → InflightTracker
  admit token queue swept_at now t =
      let t' = sweep swept_at t in
      record t' {
        entries = insert token (record { queue = queue; admitted_at = now }) t'.entries;
        admitted_total = bump queue t'.admitted_total;
      }

  completed_entry : String → Option Entry → InflightTracker → Bool × InflightTracker
  completed_entry token none t = (false, t)
  completed_entry token (some entry) t = (
    true,
    record t {
      entries = erase token t.entries;
      completed_total = bump entry.queue t.completed_total;
    },
  )

  unfoldable pub complete : String → InflightTracker → Bool × InflightTracker
  unfolding completed_entry
  complete token t = completed_entry token (lookup token t.entries) t

  unfoldable pub depth : String → Num → InflightTracker → ℕ × InflightTracker
  depth queue now t = let t' = sweep now t in (count_values (on_queue queue) t'.entries, t')

  unfoldable pub tally_queues : Dict String Entry → Dict String ℕ → Dict String ℕ
  tally_queues [] out = out
  tally_queues ((k, e) ∷ d) out = tally_queues d (bump e.queue out)

  unfoldable pub depths : Num → InflightTracker → Dict String ℕ × InflightTracker
  depths now t =
      let t' = sweep now t in
      (foldl set_default (tally_queues t'.entries []) (keys t'.admitted_total), t')

  -- counters(): admitted, completed, expired
  unfoldable counters : InflightTracker → Dict String ℕ × Dict String ℕ × Dict String ℕ
  counters t = (t.admitted_total, t.completed_total, t.expired_total)

  unfoldable pub reset : InflightTracker → InflightTracker
  reset t = record t { entries = []; admitted_total = []; completed_total = []; expired_total = [] }

  -- InflightTracker(ttl_seconds=…)
  unfoldable pub tracker : Num → InflightTracker
  tracker ttl = record {
    ttl_seconds = ttl;
    entries = [];
    admitted_total = [];
    completed_total = [];
    expired_total = [];
  }

  pub record BackpressureDecision : Type 0 where
    pub admitted : Bool
    pub retry_after : Num
    pub depth : ℕ
    pub soft : ℕ
    pub hard : ℕ

  -- backoff_seconds * (1.0 + overshoot), capped
  unfoldable pub backoff : ℕ → ℕ → ℕ → Num → Num → Num
  backoff depth soft hard backoff_seconds max_backoff_seconds =
      let span = max (hard - soft) 1 in
      let overshoot = over (fnum (depth - soft)) (fnum span) in
      fmin (times backoff_seconds (plus (fnum 1) overshoot)) max_backoff_seconds

  -- The counts are not negative, so `depth - soft` is the code's difference where it is read.
  unfoldable pub evaluate_backpressure : ℕ → ℕ → ℕ → ℤ → ℤ → Num → Num → BackpressureDecision
  evaluate_backpressure depth soft hard priority cutoff backoff_seconds max_backoff_seconds =
      let pass : BackpressureDecision = record {
        admitted = true;
        retry_after = fnum 0;
        depth = depth;
        soft = soft;
        hard = hard;
      } in
      let retry_after = backoff depth soft hard backoff_seconds max_backoff_seconds in
      let shed : BackpressureDecision = record {
        admitted = false;
        retry_after = retry_after;
        depth = depth;
        soft = soft;
        hard = hard;
      } in
      if ltb depth soft
      then pass
      else if leb hard depth
      then shed
      else if leb_ℤ priority cutoff
      then pass
      else shed
