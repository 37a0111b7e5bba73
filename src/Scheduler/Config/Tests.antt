-- ===== src/Scheduler/Config/Tests.antt =====
-- A policy of config.py, in whole units.
use ancora.Prelude.{◌≡◌, refl, true, none, some, [], ◌∷◌, string_key}
use ancora.Prelude.Int.{pos}
use ancora.Number.Whole.{whole}
use ancora.Dict.{lookup}
use ancora.Scheduler.Config.{
  SchedulerConfig, rate_limit_for, bucket_name, every, rule_valid, watermark_valid, tenant_valid,
  fairness_valid, budget_valid, config_valid, provider_rule,
}

abbrev policy : SchedulerConfig
policy = record {
  rate_limits =
      ("default", record { rps = pos 20; burst = pos 40 })
      ∷ ("gemini", record { rps = pos 5; burst = pos 10 })
      ∷ ("gemini/pro", record { rps = pos 1; burst = pos 2 })
      ∷ [];
  watermarks =
      (
        "ancora-cpu",
        record {
          soft = 2;
          hard = 4;
          hard_given = true;
          backoff_seconds = pos 1;
          max_backoff_seconds = pos 30;
        },
      )
      ∷ [];
  tenants = ("acme", record { weight = pos 2; budget_usd = some (pos 10) }) ∷ [];
  fairness = record { enabled = true; idle_seconds = pos 30; defer_seconds = pos 1 };
  budget = record { mode = "hard"; default_run_usd = none; warn_at = pos 1 };
  backpressure_priority_cutoff = pos 1;
  inflight_ttl_seconds = pos 900;
}

policy_valid : config_valid policy ≡ true
unfolding config_valid every rule_valid watermark_valid tenant_valid fairness_valid budget_valid
policy_valid = refl

model_rule :
    rate_limit_for (some "gemini") (some "pro") policy
    ≡ some (record { rps = pos 1; burst = pos 2 })
unfolding rate_limit_for provider_rule lookup bucket_name
model_rule = refl
