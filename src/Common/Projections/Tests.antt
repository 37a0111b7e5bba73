-- ===== src/Common/Projections/Tests.antt =====
-- Reports and gates (projections.py), with numbers for objects and times.
use ancora.Prelude.{ℕ, ◌≡◌, refl, true, false, none, some, List, [], ◌∷◌, string_key, pair_key}
use ancora.Prelude.Int.{pos}
use ancora.Number.Whole.{whole}
use ancora.Dict.{lookup}
use ancora.Common.Projections.{Cost, LedgerKey, ledger_key, GateKey, Projections}
use ancora.Common.Projections.Ledger.{Report, report_all, first_row, or_row, first_report_counts}
use ancora.Common.Projections.Gates.{
  GateCall, opens, closes, status_in, status_after_all, call_all, gate_status-call_all,
}

abbrev empty : Projections ℕ ℕ
empty = record { enabled = true; ledger = []; retries = []; gates = [] }

abbrev dollars : ℕ → Cost
dollars n = record {
  usd = some (pos n);
  input_tokens = none;
  output_tokens = some 3;
  gpu_seconds = none;
  provider = some "gemini";
  model = none;
}

abbrev key : LedgerKey
key = (("wf", "llm"), 1)

-- The first report is lost, and the third repeats the second.
abbrev reports : List Report
reports =
    record { reached = false; key = key; node_type = "llm"; cost = dollars 1 }
    ∷ record { reached = true; key = key; node_type = "llm"; cost = dollars 2 }
    ∷ record { reached = true; key = key; node_type = "llm"; cost = dollars 2 }
    ∷ []

first_report_counts_example :
    lookup key (report_all reports empty).ledger ≡ or_row (lookup key []) (first_row key reports)
first_report_counts_example = first_report_counts key reports empty refl

abbrev gate : GateKey
gate = ("wf", "g")

abbrev calls : List (GateCall ℕ ℕ)
calls =
    opens false gate none none none none
    ∷ closes true gate true false none (some "ana") 9
    ∷ opens true ("wf", "h") none none none none
    ∷ []

gate_status-call_all_example :
    status_in (lookup gate (call_all calls empty).gates) ≡ status_after_all gate calls none
gate_status-call_all_example = gate_status-call_all gate calls empty refl
