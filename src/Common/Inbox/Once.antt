-- ===== src/Common/Inbox/Once.antt =====
-- An effect that has succeeded is not run again, and the two guards agree (inbox.py).
use ancora.Prelude.{
  ◌≡◌, refl, sym, ap, ◌∙◌, false, Option, none, some, String, List, [], ◌∷◌, arith, ◌==◌,
  string_key, Result, ok, raised, if◌then◌else◌, inl, inr, Option-cases,
}
use ancora.Number.{Float, Num}
use ancora.Dict.{Dict, lookup}
use ancora.Dict.Laws.{lookup-insert, lookup-insert_self}
use ancora.Common.Inbox.{
  InMemoryInboxGuard, stored_or_run, get_or_run, InboxRow, done_result, checked, check, upserted,
  commit, effect_ran, postgres_get_or_run,
}

module _ {E R : Type 0} where
  -- calls of the guard, each with what its effect would do
  unfoldable pub run_calls :
      List (String × Result E R) → InMemoryInboxGuard R → InMemoryInboxGuard R
  run_calls [] g = g
  run_calls ((key, effect) ∷ calls) g = run_calls calls (get_or_run key effect g).1

  keeps :
      (key j : String) (r : R) (effect : Result E R) (o : Option R) (g : InMemoryInboxGuard R)
      → lookup key g.store ≡ some r
      → lookup j g.store ≡ o
      → lookup key (stored_or_run j effect o g).1.store ≡ some r
  unfolding stored_or_run
  keeps key j r effect (some s) g held at = held
  keeps key j r (raised e) none g held at = held
  keeps key j r (ok s) none g held at =
      ground (arith, lookup-insert key j s g.store, string_key.agree_iff j key)

  calls_keep :
      (key : String) (r : R) (calls : List (String × Result E R)) (g : InMemoryInboxGuard R)
      → lookup key g.store ≡ some r
      → lookup key (run_calls calls g).store ≡ some r
  unfolding run_calls get_or_run
  calls_keep key r [] g held = held
  calls_keep key r ((j, effect) ∷ calls) g held =
      calls_keep key r calls (stored_or_run j effect (lookup j g.store) g).1
        (keeps key j r effect (lookup j g.store) g held refl)

  succeeded :
      (key : String) (effect : Result E R) (o : Option R) (g : InMemoryInboxGuard R) {r : R}
      → lookup key g.store ≡ o
      → (stored_or_run key effect o g).0 ≡ ok r
      → lookup key (stored_or_run key effect o g).1.store ≡ some r
  unfolding stored_or_run
  succeeded key effect (some s) g at h = cc
  succeeded key (raised e) none g at h = cc
  succeeded key (ok s) none g {r} at h = ground (arith, lookup-insert_self key s g.store)

  -- Once a call under a key has returned a result, every later call under that key returns the
  -- same result and changes nothing: whatever its effect, and whatever calls run in between, the
  -- effect is not run again.
  pub effect_once :
      (key : String) (effect effect' : Result E R) (calls : List (String × Result E R))
      (g : InMemoryInboxGuard R) (r : R)
      → (get_or_run key effect g).0 ≡ ok r
      → let later = run_calls calls (get_or_run key effect g).1 in
        get_or_run key effect' later ≡ (ok r, later)
  unfolding get_or_run
  effect_once key effect effect' calls g r done =
      let held =
        calls_keep key r calls (stored_or_run key effect (lookup key g.store) g).1
          (succeeded key effect (lookup key g.store) g refl done) in
      rw held (unfold stored_or_run in refl)

module _ ⦃f : Float⦄ {R : Type 0} where
  abbrev pub known : Option (InboxRow R) → Option R
  known none = none
  known (some row) = done_result row

  -- The table and the store know the same results.
  abbrev pub Agrees : InMemoryInboxGuard R → Dict String (InboxRow R) → Type 0
  Agrees g table = (k : String) → lookup k g.store ≡ known (lookup k table)

  check_known :
      (key : String) (wf node_id : Option String) (o : Option (InboxRow R))
      (table : Dict String (InboxRow R))
      → (checked key wf node_id o table).0 ≡ known o
  unfolding checked
  check_known key wf node_id none table = refl
  check_known key wf node_id (some row) table = refl

  check_keeps :
      (key j : String) (wf node_id : Option String) (o : Option (InboxRow R))
      (table : Dict String (InboxRow R))
      → lookup key table ≡ o
      → known (lookup j (checked key wf node_id o table).1) ≡ known (lookup j table)
  unfolding checked
  check_keeps key j wf node_id (some row) table at = refl
  check_keeps key j wf node_id none table at = ground (
    arith,
    lookup-insert j key
        (record {
          temporal_wf_id = wf;
          node_id = node_id;
          status = "pending";
          result = none;
          completed_at = none;
        })
        table,
    string_key.agree_iff key j,
  )

  known-commit :
      (key j : String) (wf node_id : Option String) (r : R) (now : Num)
      (table : Dict String (InboxRow R))
      → known (lookup j (commit key wf node_id r now table))
        ≡ (if key == j then some r else known (lookup j table))
  unfolding commit upserted
  known-commit key j wf node_id r now table = elim (Option-cases (lookup key table)) [
    | inl missing ↦
        rw
          (
            missing,
            lookup-insert j key
                (record {
                  temporal_wf_id = wf;
                  node_id = node_id;
                  status = "done";
                  result = some r;
                  completed_at = some now;
                })
                table,
          )
          (ground arith)
    | inr (row, found) ↦
        rw
          (
            found,
            lookup-insert j key
                (record row { status = "done"; result = some r; completed_at = some now }) table,
          )
          (ground arith)
  ]

  run_both :
      {E : Type 0} (key : String) (wf node_id : Option String) (now : Num) (effect : Result E R)
      (g : InMemoryInboxGuard R) (table : Dict String (InboxRow R))
      → Agrees g table
      → ((effect_ran key wf node_id now effect table).0 ≡ (stored_or_run key effect none g).0)
        × Agrees (stored_or_run key effect none g).1 (effect_ran key wf node_id now effect table).1
  unfolding effect_ran stored_or_run
  run_both key wf node_id now (raised e) g table agrees = (refl, agrees)
  run_both key wf node_id now (ok r) g table agrees = (
    refl,
    λ k.
        lookup-insert k key r g.store
        ∙ ap (λ o. if key == k then some r else o) (agrees k)
        ∙ sym (known-commit key k wf node_id r now table),
  )

  -- The guard over the table refines the one in memory, where attempts do not overlap: from a
  -- table and a store that know the same results, a call gives the same answer, and leaves a
  -- table and a store that know the same results.
  pub postgres_refines_memory :
      {E : Type 0} (key : String) (wf node_id : Option String) (now : Num) (effect : Result E R)
      (g : InMemoryInboxGuard R) (table : Dict String (InboxRow R))
      → Agrees g table
      → ((postgres_get_or_run key wf node_id now effect table).0 ≡ (get_or_run key effect g).0)
        × Agrees (get_or_run key effect g).1 (postgres_get_or_run key wf node_id now effect table).1
  unfolding postgres_get_or_run get_or_run check
  postgres_refines_memory key wf node_id now effect g table agrees =
      let table' = (checked key wf node_id (lookup key table) table).1 in
      let kept : (k : String) → lookup k g.store ≡ known (lookup k table') =
        λ k. agrees k ∙ sym (check_keeps key k wf node_id (lookup key table) table refl) in
      elim (Option-cases (known (lookup key table))) [
        | inl missing ↦
            let held : lookup key g.store ≡ none = agrees key ∙ missing in
            let asked : (checked key wf node_id (lookup key table) table).0 ≡ none =
              check_known key wf node_id (lookup key table) table ∙ missing in
            rw (held, asked, postgres_get_or_run) (run_both key wf node_id now effect g table' kept)
        | inr (r, stored) ↦
            let held : lookup key g.store ≡ some r = agrees key ∙ stored in
            let asked : (checked key wf node_id (lookup key table) table).0 ≡ some r =
              check_known key wf node_id (lookup key table) table ∙ stored in
            rw (held, asked, postgres_get_or_run) (unfold stored_or_run in (refl, kept))
      ]

  -- A call answers from the table exactly if its row is done and has a result. In every other
  -- case the effect is run, also where a pending row shows that an earlier attempt began it; only
  -- a key without a row is reserved.
  check_rule :
      (key : String) (wf node_id : Option String) (table : Dict String (InboxRow R))
      → ((check key wf node_id table).0 ≡ known (lookup key table))
        × ((row : InboxRow R)
            → lookup key table ≡ some row
            → (row.status == "done") ≡ false
            → check key wf node_id table ≡ (none, table))
        × ((j : String) → known (lookup j (check key wf node_id table).1) ≡ known (lookup j table))
  unfolding check
  check_rule key wf node_id table = (
    check_known key wf node_id (lookup key table) table,
    λ row found unfinished. rw (found, checked) (rw unfinished refl),
    λ j. check_keeps key j wf node_id (lookup key table) table refl,
  )
