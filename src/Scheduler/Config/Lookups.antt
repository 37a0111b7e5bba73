-- ===== src/Scheduler/Config/Lookups.antt =====
-- The entry that a lookup of the policy finds (config.py).
use ancora.Prelude.{
  ◌≡◌, refl, Option, none, some, String, List, [], ◌∷◌, arith, ◌==◌, string_key, if◌then◌else◌,
}
use ancora.Number.{Float}
use ancora.Dict.{Dict, lookup}
use ancora.Scheduler.Config.{
  SchedulerConfig, bucket_name, or_else, or_value, rate_limit_for, watermark_for, tenant,
  default_watermark, default_tenant,
}

-- the names under which a call is limited, the most specific first
unfoldable pub limit_names : Option String → Option String → List String
limit_names none model = "default" ∷ []
limit_names (some provider) none =
    if provider == "" then "default" ∷ [] else provider ∷ "default" ∷ []
limit_names (some provider) (some model) =
    if provider == ""
    then "default" ∷ []
    else if model == ""
    then provider ∷ "default" ∷ []
    else bucket_name provider model ∷ provider ∷ "default" ∷ []

unfoldable pub first_hit : {V : Type 0} → List String → Dict String V → Option V
first_hit [] d = none
first_hit (k ∷ ks) d = or_else (lookup k d) (first_hit ks d)

or_else-none : {V : Type 0} (o : Option V) → or_else o none ≡ o
or_else-none none = refl
or_else-none (some v) = refl

pub first_hit_two :
    {V : Type 0} (k : String) (d : Dict String V)
    → first_hit (k ∷ "default" ∷ []) d ≡ or_else (lookup k d) (lookup "default" d)
unfolding first_hit
first_hit_two k d = rw (or_else-none (lookup "default" d))

module _ ⦃f : Float⦄ where
  pub rate_limit_names :
      (p m : Option String) (c : SchedulerConfig)
      → rate_limit_for p m c ≡ first_hit (limit_names p m) c.rate_limits
  unfolding rate_limit_for limit_names first_hit
  rate_limit_names none m c = rw (or_else-none (lookup "default" c.rate_limits))
  rate_limit_names (some p) none c = ground arith
  rate_limit_names (some p) (some m) c = ground arith

  -- A call is limited by the first rule among those of "provider/model", the provider and
  -- "default"; an empty or missing name counts for nothing. A queue's watermark and a tenant's
  -- policy are its own, or the "default" entry, or the built-in one.
  most_specific :
      (provider model : Option String) (queue name : String) (c : SchedulerConfig)
      → (rate_limit_for provider model c ≡ first_hit (limit_names provider model) c.rate_limits)
        × (watermark_for queue c
            ≡ or_value (first_hit (queue ∷ "default" ∷ []) c.watermarks) default_watermark)
        × (tenant name c ≡ or_value (first_hit (name ∷ "default" ∷ []) c.tenants) default_tenant)
  unfolding watermark_for tenant first_hit
  most_specific provider model queue name c = (
    rate_limit_names provider model c,
    rw (or_else-none (lookup "default" c.watermarks)),
    rw (or_else-none (lookup "default" c.tenants)),
  )
