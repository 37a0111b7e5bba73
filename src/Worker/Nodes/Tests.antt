-- ===== src/Worker/Nodes/Tests.antt =====
-- Runs of a node (nodes_runtime.py: run_node), with numbers for objects and times.
use ancora.Prelude.{
  ℕ, ◌≡◌, refl, Bool, true, false, none, some, String, [], ◌∷◌, ◌++◌, string_key, Result, ok,
  raised,
}
use ancora.Prelude.Int.{pos}
use ancora.Number.Whole.{whole}
use ancora.Dict.{Dict, lookup}
use ancora.Common.Projections.{Cost, ledger_key, num_or_zero, is_free, row_of}
use ancora.Scheduler.Backlog.{Entry}
use ancora.Scheduler.Admission.{slot_token}
use ancora.Scheduler.Engine.Samples.{busy}
use ancora.Scheduler.Client.{Verdict}
use ancora.Worker.Nodes.{
  NodeRequest, NodeResult, Failure, other_error, World, Writes, admission, completion, run_effect,
  run_node,
}
use ancora.Worker.Nodes.Slots.{deliver, slot_after_run}
use ancora.Worker.Nodes.Replays.{replay_charges_again}

abbrev cost : Cost
cost = record {
  usd = some (pos 2);
  input_tokens = some 5;
  output_tokens = none;
  gpu_seconds = none;
  provider = some "gemini";
  model = none;
}

abbrev stored : NodeResult ℕ
stored = record { output = 7; cost = cost }

abbrev request : NodeRequest
request = record {
  type_name = "http";
  node_id = "n";
  key = "wf:n";
  wf_id = "wf";
  tenant = "acme";
  attempt = 2;
  activity_id = "1";
}

abbrev writes : Writes
writes = record { reached = true; cut = λ text. text }

abbrev registry : Dict String Bool
registry = ("http", false) ∷ ("slow", true) ∷ []

abbrev world : World ℕ ℕ
world = record {
  inbox = record { store = ("wf:n", stored) ∷ []; effect_runs = 1 };
  projections = record { enabled = true; ledger = []; retries = []; gates = [] };
  recorded = [];
  completions = [];
}

abbrev idempotent_request : NodeRequest
idempotent_request = record request { type_name = "slow" }

abbrev crash : Result Failure (NodeResult ℕ)
crash = raised other_error

abbrev admitting : Verdict
admitting = record {
  outcome = "admit";
  rule = "none";
  retry_after = pos 0;
  reason = "";
  warning = none;
  timeout_seconds = none;
  degraded = false;
}

abbrev deferring : Verdict
deferring = record admitting { outcome = "defer"; rule = "fairness"; retry_after = pos 3 }

replay_charges_again_example :
    let (answer, s') = run_node (pos 1) true (some admitting) request writes registry crash world in
    (answer ≡ ok stored)
    × (s'.inbox ≡ world.inbox)
    × (lookup (("wf", "n"), 2) s'.projections.ledger ≡ some (row_of "http" cost))
    × (s'.completions ≡ [] ++ completion request (num_or_zero cost.usd) ∷ [])
unfolding admission lookup is_free
replay_charges_again_example =
    replay_charges_again (pos 1) true (some admitting) request writes registry crash world stored
      refl refl refl refl refl refl refl

abbrev held : Entry
held = record { queue = "ancora-cpu"; admitted_at = pos 10 }

abbrev held_request : NodeRequest
held_request = record idempotent_request { wf_id = "r" }

slot_after_run_example :
    let run = run_node (pos 1) true (some admitting) held_request writes registry crash world in
    lookup (slot_token "r" "n") (deliver run.1.completions busy).inflight.entries ≡ some held
unfolding lookup slot_token run_effect
slot_after_run_example =
    slot_after_run (pos 1) admitting held_request writes registry crash world true busy held refl
      refl refl (refl, tt) refl refl
