-- ===== src/Scheduler/Engine/Samples.antt =====
-- A small engine, one request and its surroundings, for the tests of engine.py and of its client.
use ancora.Prelude.{
  Bool, ℕ, ◌≡◌, refl, true, false, none, some, [], ◌∷◌, string_key, int_key, pair_key, ok,
}
use ancora.Prelude.Int.{pos, ◌+ℤ◌, ◌-ℤ◌, ◌*ℤ◌}
use ancora.Number.Whole.{whole}
use ancora.Dict.{lookup, insert, lookup_or, bump, prune}
use ancora.Dict.Count.{count_values}
use ancora.Common.RateLimit.{available_at, limiter_admit, rate_limit_config, refill_and_take}
use ancora.Scheduler.Backlog
use ancora.Scheduler.Backlog.{evaluate_backpressure, sweep, backoff, count_expired}
use ancora.Scheduler.Fairness
use ancora.Scheduler.Fairness.{tenants_of, active, decide, min_from, min_virtual, record_lane}
use ancora.Scheduler.Budget.{empty_ledger, run_spend, check_budget}
use ancora.Scheduler.Config.{SchedulerConfig, tenant, watermark_for, bucket_name, rate_limit_for}
use ancora.Scheduler.ConfigStore.{
  Source, text, yaml_error, ConfigStore, load_config, reload_if_changed,
}
use ancora.Scheduler.Admission.{
  admit, no_rule, no_reason, slot_token, AdmissionRequest, AdmissionDecision, record_decision,
  empty_stats, AdmissionEngine, Surroundings,
}
use ancora.Scheduler.Engine.{
  admit_request, deadline_gate, budget_gate, budget_verdict, backpressure_gate, fairness_gate,
  after_reload, after_share, defer_rate_limited, finish, in_time, limited, rate_limit_gate, share,
  take_slot, take_tokens,
}

abbrev pub policy : SchedulerConfig
policy = record {
  rate_limits = ("default", record { rps = pos 1; burst = pos 2 }) ∷ [];
  watermarks = [];
  tenants = ("acme", record { weight = pos 1; budget_usd = none }) ∷ [];
  fairness = record { enabled = true; idle_seconds = pos 30; defer_seconds = pos 1 };
  budget = record { mode = "soft"; default_run_usd = none; warn_at = pos 1 };
  backpressure_priority_cutoff = pos 1;
  inflight_ttl_seconds = pos 900;
}

abbrev pub store : ConfigStore
store = record { path = none; config = policy; mtime = none; last_error = none }

abbrev pub engine : AdmissionEngine
engine = record {
  store = store;
  limiter = [];
  inflight = record {
    ttl_seconds = pos 900;
    entries = [];
    admitted_total = [];
    completed_total = [];
    expired_total = [];
  };
  fair = record { idle_seconds = pos 30; defer_seconds = pos 1; queues = [] };
  ledger = empty_ledger;
  lanes = [];
  stats = empty_stats;
}

abbrev pub env : Surroundings
env = record {
  stat = none;
  loaded = ok policy;
  depth_at = pos 10;
  fair_at = pos 10;
  rate_at = pos 10;
  slot_swept_at = pos 10;
  slot_at = pos 10;
}

abbrev pub call : ℕ → AdmissionRequest
call tokens = record {
  run_id = "r";
  node_id = "n";
  node_type = "llm";
  task_queue = "ancora-cpu";
  tenant = "acme";
  priority = pos 3;
  attempt = pos 1;
  provider = some "gemini";
  model = none;
  tokens = pos tokens;
  estimated_usd = pos 0;
  deadline_seconds = some (pos 60);
}

abbrev pub granted : AdmissionDecision
granted = record {
  outcome = admit;
  rule = no_rule;
  retry_after = pos 0;
  reason = no_reason;
  warning = none;
  timeout_seconds = some (pos 60);
  queue_depth = 1;
}

abbrev pub busy : AdmissionEngine
busy = record engine {
  limiter = ("gemini", (pos 1, pos 10)) ∷ [];
  inflight = record {
    ttl_seconds = pos 900;
    entries = ("r:n", record { queue = "ancora-cpu"; admitted_at = pos 10 }) ∷ [];
    admitted_total = ("ancora-cpu", 1) ∷ [];
    completed_total = [];
    expired_total = [];
  };
  fair = record {
    idle_seconds = pos 30;
    defer_seconds = pos 1;
    queues =
        ("ancora-cpu", ("acme", record { virtual_time = pos 1; last_seen = pos 10 }) ∷ []) ∷ [];
  };
  lanes = (("ancora-cpu", pos 3), 1) ∷ [];
  stats = record {
    by_outcome = ("admit", 1) ∷ [];
    by_rule = ("none", 1) ∷ [];
    by_queue_outcome = (("ancora-cpu", "admit"), 1) ∷ [];
    rate_limit_defers = [];
  };
}

pub grants : admit_request (call 1) env engine ≡ (ok granted, busy)
unfolding admit_request reload_if_changed deadline_gate budget_gate budget_verdict check_budget
    tenant lookup backpressure_gate evaluate_backpressure Backlog.depth count_values sweep prune
    watermark_for fairness_gate Fairness.admit available_at limiter_admit rate_limit_config
    refill_and_take bump insert lookup_or record_decision slot_token Backlog.admit backoff
    count_expired run_spend bucket_name rate_limit_for after_reload after_share defer_rate_limited
    finish in_time limited rate_limit_gate share take_slot take_tokens active decide min_from
    min_virtual record_lane Fairness.refund Fairness.refund_state ◌+ℤ◌ ◌-ℤ◌ ◌*ℤ◌
grants = refl

-- an engine whose policy file was edited into malformed YAML at 50
abbrev pub watching : AdmissionEngine
watching = record engine {
  store = record {
    path = some "policy.yaml";
    config = policy;
    mtime = some (pos 1);
    last_error = none;
  };
}

abbrev pub malformed : Source Bool
malformed = record { read = text "{"; parse = λ raw. yaml_error; empty = false; fields = λ d. none }

abbrev pub edited : Surroundings
edited = record env { stat = some (pos 50); loaded = load_config malformed }
