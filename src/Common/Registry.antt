-- ===== src/Common/Registry.antt =====
-- packages/common/ancora_common/registry.py: the worker table. A session's statements are
-- functions of the table, and the clock's reading is an argument.
pub mod Lifetimes
mod Tests
use ancora.Prelude.{
  ℕ, ◌+◌, Bool, true, false, Option, none, some, String, List, [], ◌∷◌, ◌==◌, string_key,
  if◌then◌else◌,
}
use ancora.Number.{Float, Num, minus, below}
use ancora.Dict.{Dict, lookup, insert, erase, prune}
use ancora.Dict.Count.{count_values}

module _ ⦃f : Float⦄ where
  -- A row. `R` is what a worker advertises.
  pub record Worker (R : Type 0) : Type 0 where
    pub pools : List String
    pub task_queues : List String
    pub resources : R
    pub host : Option String
    pub pid : Option ℕ
    pub last_heartbeat_at : Option Num

  -- the condition of the delete: a heartbeat that is set, and before the cutoff
  abbrev pub before : Num → Option Num → Bool
  before cutoff none = false
  before cutoff (some t) = below t cutoff

  module _ {R : Type 0} where
    -- upsert_worker
    unfoldable pub upsert_worker :
        String
        → List String
        → List String
        → R
        → Option String
        → Option ℕ
        → Num
        → Dict String (Worker R)
        → Dict String (Worker R)
    upsert_worker worker_id pools task_queues resources host pid now table =
        insert worker_id
          (record {
            pools = pools;
            task_queues = task_queues;
            resources = resources;
            host = host;
            pid = pid;
            last_heartbeat_at = some now;
          })
          table

    touched :
        String → Num → Option (Worker R) → Dict String (Worker R) → Bool × Dict String (Worker R)
    touched worker_id now none table = (false, table)
    touched worker_id now (some row) table =
        (true, insert worker_id (record row { last_heartbeat_at = some now }) table)

    -- touch_worker_heartbeat
    unfoldable pub touch_worker_heartbeat :
        String → Num → Dict String (Worker R) → Bool × Dict String (Worker R)
    unfolding touched
    touch_worker_heartbeat worker_id now table =
        touched worker_id now (lookup worker_id table) table

    -- deregister_worker
    unfoldable deregister_worker : String → Dict String (Worker R) → Dict String (Worker R)
    deregister_worker worker_id table = erase worker_id table

    abbrev pub is_cold : Num → Worker R → Bool
    is_cold cutoff w = before cutoff w.last_heartbeat_at

    -- reap_stale_workers: the number of rows deleted, and the table
    unfoldable pub reap_stale_workers :
        Num → Num → Dict String (Worker R) → ℕ × Dict String (Worker R)
    reap_stale_workers older_than_seconds now table =
        let cutoff = minus now older_than_seconds in
        (count_values (is_cold cutoff) table, prune (is_cold cutoff) table)
