-- ===== src/Scheduler/Fairness/Minimum.antt =====
-- The minimal virtual time of the active tenants (fairness.py), and who has it.
use ancora.Prelude.{
  ◌≤◌, ◌≡◌, refl, ◌≢◌, ◌⊎◌, true, some, String, [], ◌∷◌, arith, ==_refl, string_key, length, inl,
  inr, Bool-cases,
}
use ancora.Number.{Float, Num, fmin, at_most}
use ancora.Number.Laws.{at_most_refl, fmin_at_most_left, fmin_at_most_right}
use ancora.Dict.{lookup, insert, IsDict}
use ancora.Scheduler.Fairness.{TenantState, Tenants, min_from, min_virtual, seated}

module _ ⦃f : Float⦄ where
  min_from-at_most : (m : Num) (d : Tenants) → at_most (min_from m d) m ≡ true
  unfolding min_from
  min_from-at_most m [] = at_most_refl m
  min_from-at_most m ((_, s) ∷ d) =
      f.at_most_trans _ (fmin m s.virtual_time) m (min_from-at_most (fmin m s.virtual_time) d)
        (fmin_at_most_left m s.virtual_time)

  min_from-lookup :
      (m : Num) (j : String) {s : TenantState} (d : Tenants)
      → lookup j d ≡ some s
      → at_most (min_from m d) s.virtual_time ≡ true
  unfolding min_from lookup
  min_from-lookup m j [] h = cc
  min_from-lookup m j {s} ((k, r) ∷ d) h =
      let m' = fmin m r.virtual_time in
      ground (
        arith,
        f.at_most_trans (min_from m' d) m' r.virtual_time (min_from-at_most m' d)
            (fmin_at_most_right m r.virtual_time),
        min_from-lookup m' j {s = s} d,
      )

  -- The minimum is a lower bound of every active tenant's clock.
  min_virtual-lookup :
      (j : String) {s : TenantState} (d : Tenants)
      → lookup j d ≡ some s
      → at_most (min_virtual d) s.virtual_time ≡ true
  unfolding min_virtual lookup
  min_virtual-lookup j [] h = cc
  min_virtual-lookup j {s} ((k, r) ∷ d) h =
      ground (arith, min_from-at_most r.virtual_time d, min_from-lookup r.virtual_time j {s = s} d)

  -- The minimum is the start value, or some tenant's clock.
  min_from-attained :
      (m : Num) (d : Tenants)
      → IsDict d
      → (min_from m d ≡ m)
        ⊎ ((j : String) × (s : TenantState) × (lookup j d ≡ some s)
            × (min_from m d ≡ s.virtual_time))
  unfolding min_from lookup
  min_from-attained m [] h = inl refl
  min_from-attained m ((k, r) ∷ d) h = elim (min_from-attained (fmin m r.virtual_time) d h.1) [
    | inl e ↦ elim (Bool-cases (at_most m r.virtual_time)) [
      | inl le ↦ inl (rw e (rw le))
      | inr gt ↦ inr (k, r, ground (arith, ==_refl k), rw e (rw gt))
    ]
    | inr (j, s, found, e) ↦ inr (j, s, ground (arith, string_key.agree_iff k j, h.0), e)
  ]

  pub min_virtual-attained :
      (d : Tenants)
      → IsDict d
      → d ≢ []
      → (j : String) × (s : TenantState) × (lookup j d ≡ some s) × (min_virtual d ≡ s.virtual_time)
  unfolding min_virtual lookup
  min_virtual-attained [] h ne = absurd (ne refl)
  min_virtual-attained ((k, r) ∷ d) h ne = elim (min_from-attained r.virtual_time d h.1) [
    | inl e ↦ (k, r, ground (arith, ==_refl k), e)
    | inr (j, s, found, e) ↦ (j, s, ground (arith, string_key.agree_iff k j, h.0), e)
  ]

  -- A tenant that nobody competes with has the minimum.
  pub alone_at_minimum :
      (tenant : String) (state : TenantState) (now : Num) (d : Tenants)
      → length (insert tenant state d) ≤ 1
      → (seated (min_virtual d) now (lookup tenant d)).virtual_time ≡ min_virtual d
  unfolding min_virtual min_from lookup insert
  alone_at_minimum tenant state now [] h = refl
  alone_at_minimum tenant state now ((k, r) ∷ []) h = ground arith
  alone_at_minimum tenant state now ((k, r) ∷ e ∷ d) h = absurd (ground arith)
