-- ===== src/Scheduler/Backlog/Counts.antt =====
-- The per-queue counters of backlog.py, and the live entries of a queue, after each update.
use ancora.Prelude.{
  ℕ, ◌+◌, ◌≡◌, refl, Bool, false, String, List, [], ◌∷◌, foldl, arith, string_key, if◌then◌else◌,
  Option-cases, inl, inr,
}
use ancora.Number.{Float}
use ancora.Dict.{Dict, lookup, lookup_or}
use ancora.Dict.Totals.{total, total-bump}
use ancora.Dict.Laws.{lookup-insert}
use ancora.Dict.Count.{count_values}
use ancora.Scheduler.Backlog.{Entry, set_default, on_queue, count_expired, tally_queues}
use ancora.Dict.{bump}

module _ ⦃f : Float⦄ where
  -- The expiry counter of a queue grows by the entries of the queue that expire.
  pub total-count_expired :
      (q : String) (expired : Entry → Bool) (d : Dict String Entry) (t : Dict String ℕ)
      → total q (count_expired expired d t)
        ≡ total q t + count_values (λ e. if expired e then on_queue q e else false) d
  unfolding count_expired count_values
  total-count_expired q expired [] t = omega arith
  total-count_expired q expired ((k, e) ∷ d) t = ground (
    arith,
    total-count_expired q expired d (if expired e then bump e.queue t else t),
    total-bump q e.queue t,
  )

  pub total-tally_queues :
      (q : String) (d : Dict String Entry) (out : Dict String ℕ)
      → total q (tally_queues d out) ≡ total q out + count_values (on_queue q) d
  unfolding tally_queues count_values
  total-tally_queues q [] out = omega arith
  total-tally_queues q ((k, e) ∷ d) out =
      ground (arith, total-tally_queues q d (bump e.queue out), total-bump q e.queue out)

total-set_default : (q k : String) (d : Dict String ℕ) → total q (set_default d k) ≡ total q d
unfolding set_default lookup_or
total-set_default q k d = elim (Option-cases (lookup k d)) [
  | inl missing ↦ ground (arith, lookup-insert q k 0 d, string_key.agree_iff k q)
  | inr (n, e) ↦ rw (e, set_default)
]

pub total-set_defaults :
    (q : String) (ks : List String) (d : Dict String ℕ)
    → total q (foldl set_default d ks) ≡ total q d
total-set_defaults q [] d = refl
total-set_defaults q (k ∷ ks) d =
    ground (arith, total-set_defaults q ks (set_default d k), total-set_default q k d)
