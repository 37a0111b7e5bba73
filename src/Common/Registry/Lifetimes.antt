-- ===== src/Common/Registry/Lifetimes.antt =====
-- Which workers the reaper takes, and how one comes back (registry.py).
use ancora.Prelude.{
  ℕ, ◌+◌, ◌≡◌, Bool, true, false, Option, none, some, String, List, [], ◌∷◌, arith, length,
  string_key,
}
use ancora.Number.{Float, Num, minus, below}
use ancora.Dict.{Dict, lookup, insert, prune, IsDict}
use ancora.Dict.Laws.{lookup-insert_self, lookup-prune, insert-IsDict, unless}
use ancora.Dict.Count.{count_values}
use ancora.Common.Registry.{
  Worker, upsert_worker, touch_worker_heartbeat, touched, is_cold, reap_stale_workers,
}

module _ ⦃f : Float⦄ {R : Type 0} where
  reaped_count :
      (drop : Worker R → Bool) (table : Dict String (Worker R))
      → count_values drop table + length (prune drop table) ≡ length table
  unfolding count_values prune
  reaped_count drop [] = omega arith
  reaped_count drop ((_, w) ∷ table) = ground (arith, reaped_count drop table)

  -- Reaping takes exactly the rows whose heartbeat is set and lies before the cutoff, and its
  -- result is how many rows are gone. A worker that was never seen alive stays.
  reap_rule :
      (older_than now : Num) (table : Dict String (Worker R))
      → IsDict table
      → let (reaped, table') = reap_stale_workers older_than now table in
        (reaped + length table' ≡ length table)
        × ((j : String)
            → lookup j table' ≡ unless (is_cold (minus now older_than)) (lookup j table))
  unfolding reap_stale_workers
  reap_rule older_than now table unique =
      let cold = is_cold (minus now older_than) in
      (reaped_count cold table, λ j. lookup-prune j cold table unique)

  -- A registered worker that has just bumped its heartbeat, and one that has just registered,
  -- survives every reaping whose cutoff is not past that moment.
  heartbeat_survives :
      (worker_id : String) (pools queues : List String) (resources : R) (host : Option String)
      (pid : Option ℕ) (seen older_than now : Num) (table : Dict String (Worker R)) (w : Worker R)
      → IsDict table
      → lookup worker_id table ≡ some w
      → below seen (minus now older_than) ≡ false
      → let bumped = (touch_worker_heartbeat worker_id seen table).1 in
        let registered = upsert_worker worker_id pools queues resources host pid seen table in
        (lookup worker_id (reap_stale_workers older_than now bumped).1
          ≡ some (record w { last_heartbeat_at = some seen }))
        × (lookup worker_id (reap_stale_workers older_than now registered).1
            ≡ some (record {
              pools = pools;
              task_queues = queues;
              resources = resources;
              host = host;
              pid = pid;
              last_heartbeat_at = some seen;
            }))
  unfolding touch_worker_heartbeat reap_stale_workers upsert_worker
  heartbeat_survives worker_id pools queues resources host pid seen older_than now table w unique
        found warm =
      (
        rw (found, touched) (survives (record w { last_heartbeat_at = some seen }) warm),
        survives _ warm,
      )
    where
      survives :
          (row : Worker R)
          → is_cold (minus now older_than) row ≡ false
          → lookup worker_id (prune (is_cold (minus now older_than)) (insert worker_id row table))
            ≡ some row
      survives row h = rw (
        lookup-prune worker_id (is_cold (minus now older_than)) (insert worker_id row table)
            (insert-IsDict worker_id row table unique),
        lookup-insert_self worker_id row table,
        h,
      )

  -- The reaper is a one-way door for heartbeats, and registration is the way back: once a
  -- worker's row is reaped, bumping its heartbeat says so and changes nothing, and registering
  -- it again restores the row, after which bumps succeed.
  reaped_worker_returns :
      (worker_id : String) (pools queues : List String) (resources : R) (host : Option String)
      (pid : Option ℕ) (cutoff_age reaped_at at later : Num) (table : Dict String (Worker R))
      (w : Worker R)
      → IsDict table
      → lookup worker_id table ≡ some w
      → is_cold (minus reaped_at cutoff_age) w ≡ true
      → let gone = (reap_stale_workers cutoff_age reaped_at table).1 in
        let back = upsert_worker worker_id pools queues resources host pid at gone in
        (touch_worker_heartbeat worker_id later gone ≡ (false, gone))
        × ((touch_worker_heartbeat worker_id later back).0 ≡ true)
        × (lookup worker_id (touch_worker_heartbeat worker_id later back).1
            ≡ some (record {
              pools = pools;
              task_queues = queues;
              resources = resources;
              host = host;
              pid = pid;
              last_heartbeat_at = some later;
            }))
  unfolding touch_worker_heartbeat reap_stale_workers upsert_worker
  reaped_worker_returns worker_id pools queues resources host pid cutoff_age reaped_at at later
        table w unique found cold =
      let gone = prune (is_cold (minus reaped_at cutoff_age)) table in
      let row : Worker R = record {
        pools = pools;
        task_queues = queues;
        resources = resources;
        host = host;
        pid = pid;
        last_heartbeat_at = some at;
      } in
      let missing : lookup worker_id gone ≡ none =
        rw (
          lookup-prune worker_id (is_cold (minus reaped_at cutoff_age)) table unique,
          found,
          cold,
        ) in
      let back : lookup worker_id (insert worker_id row gone) ≡ some row =
        lookup-insert_self worker_id row gone in
      (
        rw (missing, touched),
        rw (back, touched),
        rw (back, touched)
            (lookup-insert_self worker_id (record row { last_heartbeat_at = some later })
              (insert worker_id row gone)),
      )
