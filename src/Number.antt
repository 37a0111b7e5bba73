-- ===== src/Number.antt =====
-- Python's `float`, as the code uses it: the type and its operations are a parameter, an instance
-- argument of every definition that computes with seconds, tokens, weights or dollars.
-- Its laws hold of finite IEEE doubles: they are the order, and the monotonicity of correctly
-- rounded operations. Two values that compare equal are one value, so -0.0 is 0.0; there is no
-- NaN and no infinity. What holds only where nothing is rounded is among the hypotheses of the
-- theorems that need it.
pub mod Laws
pub mod Whole
use ancora.Prelude.{ℕ, suc, ◌≤◌, ◌≡◌, ◌⊎◌, Bool, true, not, ◌&&◌, if◌then◌else◌}

pub record Float : Type 1 where
  pub Carrier : Type 0
  pub of_ℕ : ℕ → Carrier
  pub plus : Carrier → Carrier → Carrier
  pub minus : Carrier → Carrier → Carrier
  pub times : Carrier → Carrier → Carrier
  pub over : Carrier → Carrier → Carrier
  pub at_most : Carrier → Carrier → Bool
  pub at_most_trans :
      (a b c : Carrier) → at_most a b ≡ true → at_most b c ≡ true → at_most a c ≡ true
  pub at_most_total : (a b : Carrier) → (at_most a b ≡ true) ⊎ (at_most b a ≡ true)
  pub at_most_antisymm : (a b : Carrier) → at_most a b ≡ true → at_most b a ≡ true → a ≡ b
  pub minus_nonneg : (a b : Carrier) → at_most b a ≡ true → at_most (of_ℕ 0) (minus a b) ≡ true
  pub minus_at_most : (a b : Carrier) → at_most (of_ℕ 0) b ≡ true → at_most (minus a b) a ≡ true
  pub at_most_plus : (a b : Carrier) → at_most (of_ℕ 0) b ≡ true → at_most a (plus a b) ≡ true
  pub plus_mono : (a b c : Carrier) → at_most a b ≡ true → at_most (plus a c) (plus b c) ≡ true
  pub plus_comm : (a b : Carrier) → plus a b ≡ plus b a
  pub plus_zero : (a : Carrier) → plus a (of_ℕ 0) ≡ a
  pub times_nonneg :
      (a b : Carrier)
      → at_most (of_ℕ 0) a ≡ true
      → at_most (of_ℕ 0) b ≡ true
      → at_most (of_ℕ 0) (times a b) ≡ true
  pub over_nonneg :
      (a b : Carrier)
      → at_most (of_ℕ 0) a ≡ true
      → at_most b (of_ℕ 0) ≡ not true
      → at_most (of_ℕ 0) (over a b) ≡ true
  pub of_ℕ_mono : (m n : ℕ) → m ≤ n → at_most (of_ℕ m) (of_ℕ n) ≡ true
  pub of_ℕ_pos : (n : ℕ) → at_most (of_ℕ (suc n)) (of_ℕ 0) ≡ not true
  pub times_mono :
      (c a b : Carrier)
      → at_most (of_ℕ 0) c ≡ true
      → at_most a b ≡ true
      → at_most (times c a) (times c b) ≡ true
  pub over_mono :
      (a b c : Carrier)
      → at_most a b ≡ true
      → at_most c (of_ℕ 0) ≡ not true
      → at_most (over a c) (over b c) ≡ true

module _ ⦃f : Float⦄ where
  abbrev pub Num : Type 0
  Num = f.Carrier

  abbrev pub fnum : ℕ → Num
  fnum = f.of_ℕ

  abbrev pub plus : Num → Num → Num
  plus = f.plus

  abbrev pub minus : Num → Num → Num
  minus = f.minus

  abbrev pub times : Num → Num → Num
  times = f.times

  abbrev pub over : Num → Num → Num
  over = f.over

  -- a <= b
  abbrev pub at_most : Num → Num → Bool
  at_most = f.at_most

  -- a < b
  abbrev pub below : Num → Num → Bool
  below a b = not (f.at_most b a)

  -- a == b
  abbrev pub same : Num → Num → Bool
  same a b = f.at_most a b && f.at_most b a

  -- Python's min(a, b) and max(a, b): the first of two that compare equal
  abbrev pub fmin : Num → Num → Num
  fmin a b = if at_most a b then a else b

  abbrev pub fmax : Num → Num → Num
  fmax a b = if at_most b a then a else b
