-- ===== src/Scheduler/Config/Valid.antt =====
-- What a validated policy guarantees of every entry that the engine reads (config.py).
use ancora.Prelude.{
  ◌≤◌, ◌≡◌, sym, ◌∙◌, subst, Bool, true, false, Option, none, some, String, List, [], ◌∷◌, arith,
  string_key, ◌⊎◌, inl, inr, Option-cases, Bool-cases,
}
use ancora.Number.{Float, fnum, at_most}
use ancora.Dict.{Dict, lookup}
use ancora.Scheduler.Config.Lookups.{first_hit, first_hit_two, limit_names, rate_limit_names}
use ancora.Scheduler.Config.{
  SchedulerConfig, Watermark, RateLimitRule, or_value, rate_limit_for, watermark_for, tenant,
  default_watermark, default_tenant, every, rule_valid, watermark_valid, tenant_valid, config_valid,
}

every-lookup :
    {V : Type 0} (p : V → Bool) (k : String) {v : V} (d : Dict String V)
    → every p d ≡ true
    → lookup k d ≡ some v
    → p v ≡ true
unfolding every lookup
every-lookup p k [] h e = cc
every-lookup p k {v} ((j, w) ∷ d) h e = ground (arith, every-lookup p k {v = v} d)

module _ ⦃f : Float⦄ where
  parts :
      (c : SchedulerConfig)
      → config_valid c ≡ true
      → (every rule_valid c.rate_limits ≡ true)
        × (every watermark_valid c.watermarks ≡ true)
        × (every tenant_valid c.tenants ≡ true)
  unfolding config_valid
  parts c h = ground arith

  first_hit-every :
      {V : Type 0} (p : V → Bool) (ks : List String) {v : V} (d : Dict String V)
      → every p d ≡ true
      → first_hit ks d ≡ some v
      → p v ≡ true
  unfolding first_hit
  first_hit-every p [] d h e = cc
  first_hit-every p (k ∷ ks) {v} d h e = elim (Option-cases (lookup k d)) [
    | inl missing ↦ first_hit-every p ks d h (ground arith)
    | inr (w, found) ↦ every-lookup p k {v = v} d h (ground arith)
  ]

  rate_valid :
      (provider model : Option String) (c : SchedulerConfig)
      → every rule_valid c.rate_limits ≡ true
      → (rate_limit_for provider model c ≡ none)
        ⊎ ((r : RateLimitRule) × (rate_limit_for provider model c ≡ some r)
            × (at_most r.rps (fnum 0) ≡ false)
            × (at_most r.burst (fnum 0) ≡ false))
  rate_valid provider model c h = elim (Option-cases (rate_limit_for provider model c)) [
    | inl unlimited ↦ inl unlimited
    | inr (r, found) ↦
        let valid : rule_valid r ≡ true =
          first_hit-every rule_valid (limit_names provider model) c.rate_limits h
            (sym (rate_limit_names provider model c) ∙ found) in
        inr (r, found, unfold rule_valid in ground arith, unfold rule_valid in ground arith)
  ]

  or_value_valid :
      {V : Type 0} (p : V → Bool) (ks : List String) (d : Dict String V) (v : V)
      → every p d ≡ true
      → p v ≡ true
      → p (or_value (first_hit ks d) v) ≡ true
  or_value_valid p ks d v h k = elim (Option-cases (first_hit ks d)) [
    | inl missing ↦ rw missing k
    | inr (w, found) ↦ rw found (first_hit-every p ks d h found)
  ]

  mark_valid :
      (queue : String) (c : SchedulerConfig)
      → every watermark_valid c.watermarks ≡ true
      → watermark_valid (watermark_for queue c) ≡ true
  unfolding watermark_for
  mark_valid queue c h =
      let default_valid : watermark_valid default_watermark ≡ true =
        unfold watermark_valid in ground (arith, f.of_ℕ_pos 0, f.of_ℕ_pos 29) in
      subst (λ o. watermark_valid (or_value o default_watermark) ≡ true)
        (first_hit_two queue c.watermarks)
        (or_value_valid watermark_valid (queue ∷ "default" ∷ []) c.watermarks default_watermark h
          default_valid)

  policy_valid :
      (name : String) (c : SchedulerConfig)
      → every tenant_valid c.tenants ≡ true
      → tenant_valid (tenant name c) ≡ true
  unfolding tenant
  policy_valid name c h =
      let default_valid : tenant_valid default_tenant ≡ true =
        unfold tenant_valid in ground (arith, f.of_ℕ_pos 0) in
      subst (λ o. tenant_valid (or_value o default_tenant) ≡ true) (first_hit_two name c.tenants)
        (or_value_valid tenant_valid (name ∷ "default" ∷ []) c.tenants default_tenant h
          default_valid)

  in_order : (m : Watermark) → watermark_valid m ≡ true → (m.hard_given ≡ false) ⊎ (m.soft ≤ m.hard)
  unfolding watermark_valid
  in_order m h = elim (Bool-cases m.hard_given) [
    | inr default ↦ inl default
    | inl given ↦ inr (ground arith)
  ]

  -- A policy that validation accepts has, for every call, a rate limit whose rate and burst are
  -- above 0, or none; for every queue, watermarks in order, unless the hard one is a default, and
  -- backoffs above 0; and for every tenant, a weight above 0. So no governor's own check can raise.
  pub valid_entries :
      (c : SchedulerConfig) (provider model : Option String) (queue name : String)
      → config_valid c ≡ true
      → ((rate_limit_for provider model c ≡ none)
          ⊎ ((r : RateLimitRule) × (rate_limit_for provider model c ≡ some r)
              × (at_most r.rps (fnum 0) ≡ false)
              × (at_most r.burst (fnum 0) ≡ false)))
        × (((watermark_for queue c).hard_given ≡ false)
            ⊎ ((watermark_for queue c).soft ≤ (watermark_for queue c).hard))
        × (at_most (watermark_for queue c).backoff_seconds (fnum 0) ≡ false)
        × (at_most (watermark_for queue c).max_backoff_seconds (fnum 0) ≡ false)
        × (at_most (tenant name c).weight (fnum 0) ≡ false)
  valid_entries c provider model queue name h =
      let (rules, marks, policies) = parts c h in
      let mark = mark_valid queue c marks in
      let policy = policy_valid name c policies in
      (
        rate_valid provider model c rules,
        in_order (watermark_for queue c) mark,
        unfold watermark_valid in ground arith,
        unfold watermark_valid in ground arith,
        unfold tenant_valid in ground arith,
      )
