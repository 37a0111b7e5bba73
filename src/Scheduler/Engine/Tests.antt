-- ===== src/Scheduler/Engine/Tests.antt =====
-- Admissions of engine.py, in whole units.
use ancora.Prelude.{◌≡◌, refl, true, false, none, some, [], ◌∷◌, string_key, int_key, pair_key, ok}
use ancora.Prelude.Int.{pos, ◌+ℤ◌, ◌-ℤ◌, ◌*ℤ◌}
use ancora.Number.{at_most, plus, minus, over}
use ancora.Number.Whole.{whole}
use ancora.Dict.{lookup, insert, lookup_or, bump, prune}
use ancora.Dict.Count.{count_values}
use ancora.Common.RateLimit.{available_at, limiter_admit, rate_limit_config, refill_and_take}
use ancora.Scheduler.Backlog
use ancora.Scheduler.Backlog.{evaluate_backpressure, sweep, backoff, count_expired}
use ancora.Scheduler.Fairness
use ancora.Scheduler.Fairness.{tenants_of, active, decide, min_from, min_virtual, record_lane}
use ancora.Scheduler.Fairness.Decisions.{clock_of}
use ancora.Scheduler.Budget.{empty_ledger, run_spend, check_budget}
use ancora.Scheduler.Config.{
  every, rule_valid, watermark_valid, tenant_valid, fairness_valid, budget_valid, config_valid,
  tenant, watermark_for, bucket_name, rate_limit_for,
}
use ancora.Scheduler.ConfigStore.{reload_if_changed}
use ancora.Scheduler.Admission.{
  defer, rate_limit, rate_limited, slot_token, AdmissionDecision, record_decision, AdmissionEngine,
}
use ancora.Scheduler.Engine.{
  admit_request, complete, first_found, after_depth, deadline_gate, budget_gate, budget_verdict,
  backpressure_gate, fairness_gate, after_reload, after_share, defer_rate_limited, finish, in_time,
  limited, rate_limit_gate, share, take_slot, take_tokens,
}
use ancora.Scheduler.Engine.Effects.{Settled, admit_request-Settled}
use ancora.Scheduler.Engine.Resources.{Charged, admit_request_charges}
use ancora.Scheduler.Engine.Clocks.{rate_limited_unbilled}
use ancora.Scheduler.Engine.Totality.{IsAnswered, admit_request-IsAnswered}
use ancora.Scheduler.Engine.Reports.{admitted_work_reports}
use ancora.Scheduler.Engine.Samples.{policy, store, engine, env, call, granted, busy, grants}

policy_valid : config_valid policy ≡ true
unfolding config_valid every rule_valid watermark_valid tenant_valid fairness_valid budget_valid
policy_valid = refl

not_reloaded : reload_if_changed false none (ok policy) store ≡ (ok false, store)
unfolding reload_if_changed
not_reloaded = refl

abbrev too_fast : AdmissionDecision
too_fast = record {
  outcome = defer;
  rule = rate_limit;
  retry_after = pos 1;
  reason = rate_limited "gemini" (pos 1) (pos 2) "n" (pos 1);
  warning = none;
  timeout_seconds = some (pos 60);
  queue_depth = 0;
}

abbrev refunded : AdmissionEngine
refunded = record engine {
  limiter = ("gemini", (pos 2, pos 10)) ∷ [];
  fair = record {
    idle_seconds = pos 30;
    defer_seconds = pos 1;
    queues =
        ("ancora-cpu", ("acme", record { virtual_time = pos 0; last_seen = pos 10 }) ∷ []) ∷ [];
  };
  stats = record {
    by_outcome = ("defer", 1) ∷ [];
    by_rule = ("rate_limit", 1) ∷ [];
    by_queue_outcome = (("ancora-cpu", "defer"), 1) ∷ [];
    rate_limit_defers = ("gemini", 1) ∷ [];
  };
}

defers : admit_request (call 3) env engine ≡ (ok too_fast, refunded)
unfolding admit_request reload_if_changed deadline_gate budget_gate budget_verdict check_budget
    tenant lookup backpressure_gate evaluate_backpressure Backlog.depth count_values sweep prune
    watermark_for fairness_gate Fairness.admit available_at limiter_admit rate_limit_config
    refill_and_take bump insert lookup_or record_decision slot_token Backlog.admit backoff
    count_expired run_spend bucket_name rate_limit_for after_reload after_share defer_rate_limited
    finish in_time limited rate_limit_gate share take_slot take_tokens active decide min_from
    min_virtual record_lane Fairness.refund Fairness.refund_state ◌+ℤ◌ ◌-ℤ◌ ◌*ℤ◌
defers = refl

admit_request-Settled_example :
    Settled
      (call 1)
      env
      (first_found (call 1) env store engine).depth
      (after_depth (call 1) env store engine)
      (admit_request (call 1) env engine)
admit_request-Settled_example = admit_request-Settled (call 1) env engine store not_reloaded

admit_request_charges_example :
    Charged (call 3) env policy engine (admit_request (call 3) env engine)
admit_request_charges_example = admit_request_charges (call 3) env engine store not_reloaded refl

admit_request-IsAnswered_example : IsAnswered (admit_request (call 3) env engine)
admit_request-IsAnswered_example =
    admit_request-IsAnswered (call 3) env engine store not_reloaded policy_valid

admitted_work_reports_example :
    let (released, e'') = complete "r" "n" "acme" (pos 4) busy in
    (released ≡ true)
    × (lookup (slot_token "r" "n") e''.inflight.entries ≡ none)
    × (run_spend "r" e''.ledger ≡ plus (run_spend "r" empty_ledger) (pos 4))
    × ((complete "r" "n" "acme" (pos 4) e'').0 ≡ false)
admitted_work_reports_example =
    admitted_work_reports (call 1) env engine store granted busy "acme" (pos 4) not_reloaded tt
      grants refl

clock_zero : clock_of "acme" (pos 10) (active "ancora-cpu" (pos 10) engine.fair) ≡ pos 0
unfolding active min_virtual lookup lookup_or prune
clock_zero = refl

not_negative :
    at_most (pos 0) (clock_of "acme" (pos 10) (active "ancora-cpu" (pos 10) engine.fair)) ≡ true
not_negative = rw clock_zero refl

not_rounded :
    let clock = clock_of "acme" (pos 10) (active "ancora-cpu" (pos 10) engine.fair) in
    let cost = over (pos 3) (tenant "acme" policy).weight in minus (plus clock cost) cost ≡ clock
unfolding tenant lookup ◌+ℤ◌ ◌-ℤ◌
not_rounded = rw clock_zero refl

rate_limited_unbilled_example :
    lookup "acme" (tenants_of "ancora-cpu" refunded.fair)
    ≡ some (record {
      virtual_time = clock_of "acme" (pos 10) (active "ancora-cpu" (pos 10) engine.fair);
      last_seen = pos 10;
    })
rate_limited_unbilled_example =
    rate_limited_unbilled (call 3) env engine store too_fast refunded not_reloaded refl defers refl
      not_negative not_rounded "acme"
