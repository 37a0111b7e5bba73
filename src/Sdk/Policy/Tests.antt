-- ===== src/Sdk/Policy/Tests.antt =====
-- Nodes resolved by policy.py, in whole seconds.
use ancora.Prelude.{◌≡◌, refl, true, none, some, [], string_key, int_key, ok}
use ancora.Prelude.Int.{pos}
use ancora.Number.{at_most, fmax}
use ancora.Number.Whole.{whole}
use ancora.Common.Resources.{capability_of, queue_for}
use ancora.Sdk.Policy.{
  named, NodePolicy, Overrides, no_overrides, defaults_of, capability_over, as_priority, retry_over,
  resolve_policy,
}
use ancora.Sdk.Policy.Resolution.{deadline_respected}

abbrev on_gpu : Overrides
on_gpu = record no_overrides {
  capability = some (some "gpu");
  priority = some (named "high");
  timeout_seconds = some (pos 300);
}

abbrev last_minute : NodePolicy
last_minute = record {
  task_queue = "ancora-gpu";
  priority = pos 1;
  start_to_close = pos 40;
  retry = record {
    initial_seconds = pos 2;
    backoff_coefficient = pos 2;
    maximum_seconds = pos 120;
    maximum_attempts = pos 6;
    non_retryable = [];
  };
  schedule_to_close = some (pos 40);
  heartbeat = some (pos 6);
}

resolves : resolve_policy "llm" on_gpu (some (pos 40)) ≡ ok last_minute
unfolding resolve_policy defaults_of capability_over capability_of as_priority retry_over queue_for
resolves = refl

deadline_respected_example :
    (some (pos 40) ≡ some (fmax (pos 40) (pos 0)))
    × (at_most (pos 40) (fmax (fmax (pos 40) (pos 0)) (pos 1)) ≡ true)
    × ((q : NodePolicy) × (resolve_policy "llm" on_gpu none ≡ ok q)
        × (at_most (pos 40) q.start_to_close ≡ true)
        × ("ancora-gpu" ≡ q.task_queue)
        × (pos 1 ≡ q.priority)
        × (last_minute.retry ≡ q.retry)
        × (some (pos 6) ≡ q.heartbeat)
        × (q.schedule_to_close ≡ none))
deadline_respected_example = deadline_respected "llm" on_gpu (pos 40) last_minute resolves
