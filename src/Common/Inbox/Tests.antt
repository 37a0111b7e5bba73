-- ===== src/Common/Inbox/Tests.antt =====
-- Calls of inbox.py.
use ancora.Prelude.{ℕ, ◌≡◌, refl, none, some, String, [], ◌∷◌, arith, string_key, ok, raised}
use ancora.Prelude.Int.{pos}
use ancora.Number.Whole.{whole}
use ancora.Dict.{Dict, lookup}
use ancora.Common.Inbox.{
  InMemoryInboxGuard, get_or_run, stored_or_run, InboxRow, postgres_get_or_run,
}
use ancora.Common.Inbox.Once.{run_calls, effect_once, Agrees, postgres_refines_memory}

abbrev unused : InMemoryInboxGuard String
unused = record { store = []; effect_runs = 0 }

first_runs : (get_or_run {E = ℕ} "k" (ok "sent") unused).0 ≡ ok "sent"
unfolding get_or_run stored_or_run lookup
first_runs = refl

effect_once_example :
    let later =
      run_calls {E = ℕ}
        (("j", raised 3) ∷ ("k", ok "again") ∷ [])
        (get_or_run {E = ℕ} "k" (ok "sent") unused).1 in
    get_or_run {E = ℕ} "k" (ok "twice") later ≡ (ok "sent", later)
effect_once_example =
    effect_once "k" (ok "sent") (ok "twice") (("j", raised 3) ∷ ("k", ok "again") ∷ []) unused
      "sent" first_runs

-- a row that an earlier attempt reserved and did not finish
abbrev begun : Dict String (InboxRow String)
begun =
    (
      "k",
      record {
        temporal_wf_id = some "wf";
        node_id = none;
        status = "pending";
        result = none;
        completed_at = none;
      },
    )
    ∷ []

unused-Agrees : Agrees unused begun
unfolding lookup
unused-Agrees k = ground arith

postgres_refines_memory_example :
    ((postgres_get_or_run {E = ℕ} "k" (some "wf") none (pos 9) (ok "sent") begun).0
      ≡ (get_or_run {E = ℕ} "k" (ok "sent") unused).0)
    × Agrees
        (get_or_run {E = ℕ} "k" (ok "sent") unused).1
        (postgres_get_or_run {E = ℕ} "k" (some "wf") none (pos 9) (ok "sent") begun).1
postgres_refines_memory_example =
    postgres_refines_memory "k" (some "wf") none (pos 9) (ok "sent") unused begun unused-Agrees
