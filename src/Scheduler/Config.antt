-- ===== src/Scheduler/Config.antt =====
-- services/scheduler/ancora_scheduler/config.py: the policy document, its validation, and the
-- lookups that the engine makes.
pub mod Lookups
pub mod Valid
mod Tests
use Prim.Native.String.{◌++◌ as text_append}
use ancora.Prelude.{
  ℕ, Bool, true, false, Option, none, some, String, List, [], ◌∷◌, ◌&&◌, ◌||◌, not, leb, ◌==◌,
  string_key, if◌then◌else◌,
}
use ancora.Prelude.Int.{ℤ, pos, leb_ℤ}
use ancora.Number.{Float, Num, fnum, over, at_most, below}
use ancora.Dict.{Dict, lookup}

-- x or default, at an optional value
abbrev pub or_else {ℓ} : {A : Type ℓ} → Option A → Option A → Option A
or_else none y = y
or_else (some x) _ = some x

abbrev pub or_value {ℓ} : {A : Type ℓ} → Option A → A → A
or_value none d = d
or_value (some x) _ = x

-- f"{provider}/{model}"
unfoldable pub bucket_name : String → String → String
bucket_name provider model = text_append (text_append provider "/") model

-- all(p(v) for v in d.values())
unfoldable pub every : {V : Type 0} → (V → Bool) → Dict String V → Bool
every p [] = true
every p ((_, v) ∷ d) = p v && every p d

module _ ⦃f : Float⦄ where
  pub record RateLimitRule : Type 0 where
    pub rps : Num
    pub burst : Num

  -- with whether `hard` was given, as pydantic's model_fields_set tells it: the validator of a
  -- field does not run on the field's default
  pub record Watermark : Type 0 where
    pub soft : ℕ
    pub hard : ℕ
    pub hard_given : Bool
    pub backoff_seconds : Num
    pub max_backoff_seconds : Num

  pub record TenantPolicy : Type 0 where
    pub weight : Num
    pub budget_usd : Option Num

  pub record FairnessConfig : Type 0 where
    pub enabled : Bool
    pub idle_seconds : Num
    pub defer_seconds : Num

  pub record BudgetConfig : Type 0 where
    pub mode : String
    pub default_run_usd : Option Num
    pub warn_at : Num

  pub record SchedulerConfig : Type 0 where
    pub rate_limits : Dict String RateLimitRule
    pub watermarks : Dict String Watermark
    pub tenants : Dict String TenantPolicy
    pub fairness : FairnessConfig
    pub budget : BudgetConfig
    pub backpressure_priority_cutoff : ℤ
    pub inflight_ttl_seconds : Num

  -- gt=0, ge=0
  abbrev pub positive : Num → Bool
  positive x = below (fnum 0) x

  abbrev pub nonneg : Option Num → Bool
  nonneg none = true
  nonneg (some x) = at_most (fnum 0) x

  -- RateLimitRule's fields and `_burst_at_least_one`
  unfoldable pub rule_valid : RateLimitRule → Bool
  rule_valid r = positive r.rps && (positive r.burst && not (below r.burst (fnum 1)))

  -- Watermark's fields, and `_ordered` where it runs; the counts are natural numbers
  unfoldable pub watermark_valid : Watermark → Bool
  watermark_valid w =
      (if w.hard_given then leb w.soft w.hard else true)
      && (positive w.backoff_seconds && positive w.max_backoff_seconds)

  unfoldable pub tenant_valid : TenantPolicy → Bool
  tenant_valid t = positive t.weight && nonneg t.budget_usd

  unfoldable pub fairness_valid : FairnessConfig → Bool
  fairness_valid c = positive c.idle_seconds && positive c.defer_seconds

  -- BudgetConfig's fields and `_mode`
  unfoldable pub budget_valid : BudgetConfig → Bool
  budget_valid b =
      (b.mode == "soft" || (b.mode == "hard" || b.mode == "off"))
      && (nonneg b.default_run_usd && (positive b.warn_at && at_most b.warn_at (fnum 1)))

  -- what SchedulerConfig.model_validate accepts
  unfoldable pub config_valid : SchedulerConfig → Bool
  config_valid c =
      every rule_valid c.rate_limits
      && (every watermark_valid c.watermarks
          && (every tenant_valid c.tenants
              && (fairness_valid c.fairness
                  && (budget_valid c.budget
                      && (leb_ℤ (pos 1) c.backpressure_priority_cutoff
                          && positive c.inflight_ttl_seconds)))))

  -- Watermark()
  abbrev pub default_watermark : Watermark
  default_watermark = record {
    soft = 50;
    hard = 200;
    hard_given = false;
    backoff_seconds = fnum 1;
    max_backoff_seconds = fnum 30;
  }

  abbrev pub default_tenant : TenantPolicy
  default_tenant = record { weight = fnum 1; budget_usd = none }

  -- SchedulerConfig.rate_limit_for
  provider_rule : String → Option String → Dict String RateLimitRule → Option RateLimitRule
  provider_rule provider none limits = lookup provider limits
  provider_rule provider (some model) limits =
      if model == ""
      then lookup provider limits
      else or_else (lookup (bucket_name provider model) limits) (lookup provider limits)

  unfoldable pub rate_limit_for :
      Option String → Option String → SchedulerConfig → Option RateLimitRule
  unfolding provider_rule
  rate_limit_for none model c = lookup "default" c.rate_limits
  rate_limit_for (some provider) model c =
      if provider == ""
      then lookup "default" c.rate_limits
      else or_else (provider_rule provider model c.rate_limits) (lookup "default" c.rate_limits)

  unfoldable pub watermark_for : String → SchedulerConfig → Watermark
  watermark_for queue c =
      or_value (or_else (lookup queue c.watermarks) (lookup "default" c.watermarks))
        default_watermark

  unfoldable pub tenant : String → SchedulerConfig → TenantPolicy
  tenant name c =
      or_value (or_else (lookup name c.tenants) (lookup "default" c.tenants)) default_tenant

  -- DEFAULT_CONFIG
  unfoldable pub default_config : SchedulerConfig
  default_config = record {
    rate_limits =
        ("default", record { rps = fnum 20; burst = fnum 40 })
        ∷ ("gemini", record { rps = fnum 5; burst = fnum 10 })
        ∷ ("mock", record { rps = fnum 100; burst = fnum 200 })
        ∷ [];
    watermarks = ("default", record default_watermark { hard_given = true }) ∷ [];
    tenants = ("default", default_tenant) ∷ [];
    fairness = record {
      enabled = true;
      idle_seconds = fnum 30;
      defer_seconds = over (fnum 1) (fnum 4);
    };
    budget = record { mode = "soft"; default_run_usd = none; warn_at = over (fnum 4) (fnum 5) };
    backpressure_priority_cutoff = pos 1;
    inflight_ttl_seconds = fnum 900;
  }
