-- ===== src/Number/Laws.antt =====
-- Order laws of floats that the components share.
use ancora.Prelude.{◌≡◌, true, false, inl, inr, arith}
use ancora.Number.{Float, Num, fnum, fmin, fmax, plus, at_most}

module _ ⦃f : Float⦄ where
  pub at_most_refl : (a : Num) → at_most a a ≡ true
  at_most_refl a = elim (f.at_most_total a a) [ inl h ↦ h | inr h ↦ h ]

  pub at_most_of_not : (a b : Num) → at_most a b ≡ false → at_most b a ≡ true
  at_most_of_not a b h = ground (arith, f.at_most_total a b)

  pub fmin_at_most_left : (a b : Num) → at_most (fmin a b) a ≡ true
  fmin_at_most_left a b = ground (arith, at_most_of_not a b, at_most_refl a)

  pub fmin_at_most_right : (a b : Num) → at_most (fmin a b) b ≡ true
  fmin_at_most_right a b = ground (arith, at_most_refl b)

  pub at_most_fmin :
      (a b c : Num) → at_most c a ≡ true → at_most c b ≡ true → at_most c (fmin a b) ≡ true
  at_most_fmin a b c h k = ground arith

  pub at_most_fmax_left : (a b : Num) → at_most a (fmax a b) ≡ true
  at_most_fmax_left a b = ground (arith, at_most_of_not b a, at_most_refl a)

  pub at_most_fmax_right : (a b : Num) → at_most b (fmax a b) ≡ true
  at_most_fmax_right a b = ground (arith, at_most_refl b)

  pub fmax_eq_right : (a b : Num) → at_most a b ≡ true → fmax a b ≡ b
  fmax_eq_right a b h = ground (arith, f.at_most_antisymm a b h)

  pub plus_nonneg :
      (a b : Num)
      → at_most (fnum 0) a ≡ true
      → at_most (fnum 0) b ≡ true
      → at_most (fnum 0) (plus a b) ≡ true
  plus_nonneg a b h k = f.at_most_trans (fnum 0) a (plus a b) h (f.at_most_plus a b k)

  pub fmin_mono : (a b c : Num) → at_most a b ≡ true → at_most (fmin a c) (fmin b c) ≡ true
  fmin_mono a b c h =
      at_most_fmin b c (fmin a c) (f.at_most_trans (fmin a c) a b (fmin_at_most_left a c) h)
        (fmin_at_most_right a c)

  pub plus_mono_right : (a b c : Num) → at_most a b ≡ true → at_most (plus c a) (plus c b) ≡ true
  plus_mono_right a b c h = rw (f.plus_comm c a, f.plus_comm c b) (f.plus_mono a b c h)
