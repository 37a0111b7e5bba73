-- ===== src/Common/Inbox.antt =====
-- packages/common/ancora_common/inbox.py: the guard that runs an effect once, in memory and over
-- the inbox table. What the effect does is an argument of the call: its result, or an exception.
pub mod Once
mod Tests
use ancora.Prelude.{
  ℕ, ◌+◌, Option, none, some, String, ◌==◌, string_key, Result, ok, raised, if◌then◌else◌,
}
use ancora.Number.{Float, Num}
use ancora.Dict.{Dict, lookup, insert}

pub record InMemoryInboxGuard (R : Type 0) : Type 0 where
  pub store : Dict String R
  pub effect_runs : ℕ

module _ {E R : Type 0} where
  unfoldable pub stored_or_run :
      String → Result E R → Option R → InMemoryInboxGuard R → Result E R × InMemoryInboxGuard R
  stored_or_run key effect (some r) g = (ok r, g)
  stored_or_run key (raised e) none g = (raised e, record g { effect_runs = g.effect_runs + 1 })
  stored_or_run key (ok r) none g =
      (ok r, record { store = insert key r g.store; effect_runs = g.effect_runs + 1 })

  -- InMemoryInboxGuard.get_or_run
  unfoldable pub get_or_run :
      String → Result E R → InMemoryInboxGuard R → Result E R × InMemoryInboxGuard R
  unfolding stored_or_run
  get_or_run key effect g = stored_or_run key effect (lookup key g.store) g

module _ ⦃f : Float⦄ where
  -- a row of the inbox table
  pub record InboxRow (R : Type 0) : Type 0 where
    pub temporal_wf_id : Option String
    pub node_id : Option String
    pub status : String
    pub result : Option R
    pub completed_at : Option Num

  module _ {R : Type 0} where
    -- the result of a row that is done
    abbrev pub done_result : InboxRow R → Option R
    done_result row = if row.status == "done" then row.result else none

    checked :
        String
        → Option String
        → Option String
        → Option (InboxRow R)
        → Dict String (InboxRow R)
        → Option R × Dict String (InboxRow R)
    checked key wf node_id (some row) table = (done_result row, table)
    checked key wf node_id none table = (
      none,
      insert key
          (record {
            temporal_wf_id = wf;
            node_id = node_id;
            status = "pending";
            result = none;
            completed_at = none;
          })
          table,
    )

    -- PostgresInboxGuard.get_or_run, the first transaction: the stored result, or none where the
    -- effect is run next
    unfoldable pub check :
        String
        → Option String
        → Option String
        → Dict String (InboxRow R)
        → Option R × Dict String (InboxRow R)
    unfolding checked
    check key wf node_id table = checked key wf node_id (lookup key table) table

    upserted : Option String → Option String → R → Num → Option (InboxRow R) → InboxRow R
    upserted wf node_id r now none = record {
      temporal_wf_id = wf;
      node_id = node_id;
      status = "done";
      result = some r;
      completed_at = some now;
    }
    upserted wf node_id r now (some row) = record row {
      status = "done";
      result = some r;
      completed_at = some now;
    }

    -- PostgresInboxGuard.get_or_run, the second transaction
    unfoldable pub commit :
        String
        → Option String
        → Option String
        → R
        → Num
        → Dict String (InboxRow R)
        → Dict String (InboxRow R)
    unfolding upserted
    commit key wf node_id r now table =
        insert key (upserted wf node_id r now (lookup key table)) table

    effect_ran :
        {E : Type 0}
        → String
        → Option String
        → Option String
        → Num
        → Result E R
        → Dict String (InboxRow R)
        → Result E R × Dict String (InboxRow R)
    effect_ran key wf node_id now (raised e) table = (raised e, table)
    effect_ran key wf node_id now (ok r) table = (ok r, commit key wf node_id r now table)

    -- PostgresInboxGuard.get_or_run, where no other attempt runs between its transactions
    unfoldable pub postgres_get_or_run :
        {E : Type 0}
        → String
        → Option String
        → Option String
        → Num
        → Result E R
        → Dict String (InboxRow R)
        → Result E R × Dict String (InboxRow R)
    unfolding effect_ran
    postgres_get_or_run key wf node_id now effect table =
        let (found, table') = check key wf node_id table in
        elim found [ some r ↦ (ok r, table') | none ↦ effect_ran key wf node_id now effect table' ]
