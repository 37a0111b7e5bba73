-- ===== src/Scheduler/ConfigStore/Tests.antt =====
-- Files that config.py loads, in whole seconds.
use ancora.Prelude.{◌≡◌, ◌⊎◌, refl, Bool, true, false, none, some, [], ◌∷◌, string_key, ok, raised}
use ancora.Prelude.Int.{pos}
use ancora.Number.Whole.{whole}
use ancora.Scheduler.Config.{
  SchedulerConfig, Watermark, watermark_valid, every, fairness_valid, budget_valid, config_valid,
}
use ancora.Scheduler.ConfigStore.{
  Source, text, mapping, invalid, ConfigStore, load_config, load_text, parse_document,
  model_validate, reload_if_changed, reload_at, swap_in,
}
use ancora.Scheduler.ConfigStore.Reload.{reload_serves_valid}

abbrev plain : SchedulerConfig
plain = record {
  rate_limits = [];
  watermarks = [];
  tenants = [];
  fairness = record { enabled = true; idle_seconds = pos 30; defer_seconds = pos 1 };
  budget = record { mode = "soft"; default_run_usd = none; warn_at = pos 1 };
  backpressure_priority_cutoff = pos 1;
  inflight_ttl_seconds = pos 900;
}

plain_valid : config_valid plain ≡ true
unfolding config_valid every fairness_valid budget_valid
plain_valid = refl

-- A soft mark above the default hard one is accepted: the validator of `hard` does not run.
abbrev high_mark : Watermark
high_mark = record {
  soft = 500;
  hard = 200;
  hard_given = false;
  backoff_seconds = pos 1;
  max_backoff_seconds = pos 30;
}

default_unchecked : config_valid (record plain { watermarks = ("cpu", high_mark) ∷ [] }) ≡ true
unfolding config_valid every watermark_valid fairness_valid budget_valid
default_unchecked = refl

abbrev store : ConfigStore
store = record {
  path = some "policy.yaml";
  config = plain;
  mtime = some (pos 1);
  last_error = none;
}

-- a file whose mapping is the number of seconds to live
abbrev file : Source Bool
file = record {
  read = text "ttl";
  parse = λ raw. mapping true;
  empty = false;
  fields = λ d. some (record plain { inflight_ttl_seconds = pos 0 });
}

rejected : load_config file ≡ raised invalid
unfolding load_config load_text parse_document model_validate config_valid every fairness_valid
    budget_valid
rejected = refl

reload_serves_valid_example :
    let (result, store') = reload_if_changed false (some (pos 2)) (load_config file) store in
    (config_valid store'.config ≡ true)
    × (((result ≡ ok true) × (load_config file ≡ ok store'.config)) ⊎ (store'.config ≡ plain))
reload_serves_valid_example = reload_serves_valid file false (some (pos 2)) store plain_valid

first_ok : (reload_if_changed false (some (pos 2)) (raised invalid) store).0 ≡ ok false
unfolding reload_if_changed reload_at swap_in
first_ok = refl
