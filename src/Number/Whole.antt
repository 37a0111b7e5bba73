-- ===== src/Number/Whole.antt =====
-- The whole numbers as floats: the instance at which the witnesses and the tests run.
use native.Mathlib.Nat.{mul-le-mul_left, le-div_iff_mul-le, div-mul-le_self, le_trans}
use ancora.Prelude.{◌<◌, ℕ, suc, ◌≤◌, ◌/◌, ◌≡◌, ◌⊎◌, true, false, arith}
use ancora.Prelude.Int.{ℤ, pos, negsuc, ◌+ℤ◌, ◌-ℤ◌, ◌*ℤ◌, leb_ℤ}
use ancora.Number.{Float}

-- The quotient of two whole numbers that are not negative, rounded down; 0 in the other cases,
-- which no test reaches.
abbrev over_ℤ : ℤ → ℤ → ℤ
over_ℤ (pos a) (pos b) = pos (a / b)
over_ℤ _ _ = pos 0

pub leb_ℤ_trans : (a b c : ℤ) → leb_ℤ a b ≡ true → leb_ℤ b c ≡ true → leb_ℤ a c ≡ true
leb_ℤ_trans a b c h k = ground arith

pub leb_ℤ_total : (a b : ℤ) → (leb_ℤ a b ≡ true) ⊎ (leb_ℤ b a ≡ true)
leb_ℤ_total a b = ground arith

pub leb_ℤ_antisymm : (a b : ℤ) → leb_ℤ a b ≡ true → leb_ℤ b a ≡ true → a ≡ b
leb_ℤ_antisymm a b h k = ground arith

pub -ℤ_nonneg : (a b : ℤ) → leb_ℤ b a ≡ true → leb_ℤ (pos 0) (a -ℤ b) ≡ true
unfolding ◌-ℤ◌
-ℤ_nonneg a b h = ground arith

pub -ℤ_le : (a b : ℤ) → leb_ℤ (pos 0) b ≡ true → leb_ℤ (a -ℤ b) a ≡ true
unfolding ◌-ℤ◌
-ℤ_le a b h = ground arith

pub le-+ℤ : (a b : ℤ) → leb_ℤ (pos 0) b ≡ true → leb_ℤ a (a +ℤ b) ≡ true
unfolding ◌+ℤ◌
le-+ℤ a b h = ground arith

pub +ℤ_mono : (a b c : ℤ) → leb_ℤ a b ≡ true → leb_ℤ (a +ℤ c) (b +ℤ c) ≡ true
unfolding ◌+ℤ◌
+ℤ_mono a b c h = ground arith

pub *ℤ_nonneg :
    (a b : ℤ) → leb_ℤ (pos 0) a ≡ true → leb_ℤ (pos 0) b ≡ true → leb_ℤ (pos 0) (a *ℤ b) ≡ true
unfolding ◌*ℤ◌
*ℤ_nonneg (pos a) (pos b) h k = ground arith
*ℤ_nonneg (negsuc a) b h k = ground arith
*ℤ_nonneg (pos a) (negsuc b) h k = ground arith

pub over_ℤ_nonneg :
    (a b : ℤ) → leb_ℤ (pos 0) a ≡ true → leb_ℤ b (pos 0) ≡ false → leb_ℤ (pos 0) (over_ℤ a b) ≡ true
over_ℤ_nonneg (pos a) (pos b) h k = ground arith
over_ℤ_nonneg (pos a) (negsuc b) h k = ground arith
over_ℤ_nonneg (negsuc a) b h k = ground arith

pub +ℤ_comm : (a b : ℤ) → a +ℤ b ≡ b +ℤ a
unfolding ◌+ℤ◌
+ℤ_comm a b = ground arith

pub +ℤ_zero : (a : ℤ) → a +ℤ pos 0 ≡ a
unfolding ◌+ℤ◌
+ℤ_zero a = ground arith

pub pos_mono : (m n : ℕ) → m ≤ n → leb_ℤ (pos m) (pos n) ≡ true
pos_mono m n h = ground arith

pub suc_pos : (n : ℕ) → leb_ℤ (pos (suc n)) (pos 0) ≡ false
suc_pos n = ground arith

pub *ℤ_mono :
    (c a b : ℤ) → leb_ℤ (pos 0) c ≡ true → leb_ℤ a b ≡ true → leb_ℤ (c *ℤ a) (c *ℤ b) ≡ true
unfolding ◌*ℤ◌
*ℤ_mono (pos c) (pos a) (pos b) h k =
    let le : a ≤ b = ground arith in ground (arith, mul-le-mul_left c le)
*ℤ_mono (pos c) (pos a) (negsuc b) h k = absurd (ground arith)
*ℤ_mono (pos c) (negsuc a) (pos b) h k = grind arith
*ℤ_mono (pos c) (negsuc a) (negsuc b) h k =
    let le : suc b ≤ suc a = ground arith in ground (arith, mul-le-mul_left c le)
*ℤ_mono (negsuc c) a b h k = absurd (ground arith)

pub over_ℤ_mono :
    (a b c : ℤ)
    → leb_ℤ a b ≡ true
    → leb_ℤ c (pos 0) ≡ false
    → leb_ℤ (over_ℤ a c) (over_ℤ b c) ≡ true
over_ℤ_mono (pos a) (pos b) (pos c) h k =
    let le : a ≤ b = ground arith in
    let positive : 0 < c = ground arith in
    let quotients : a / c ≤ b / c =
      (le-div_iff_mul-le positive).1 (le_trans (div-mul-le_self a c) le) in
    ground arith
over_ℤ_mono (pos a) (negsuc b) (pos c) h k = absurd (ground arith)
over_ℤ_mono (negsuc a) (pos b) (pos c) h k = grind arith
over_ℤ_mono (negsuc a) (negsuc b) (pos c) h k = grind arith
over_ℤ_mono a b (negsuc c) h k = absurd (ground arith)

instance abbrev pub whole : Float
whole = record {
  Carrier = ℤ;
  of_ℕ = pos;
  plus = ◌+ℤ◌;
  minus = ◌-ℤ◌;
  times = ◌*ℤ◌;
  over = over_ℤ;
  at_most = leb_ℤ;
  at_most_trans = leb_ℤ_trans;
  at_most_total = leb_ℤ_total;
  at_most_antisymm = leb_ℤ_antisymm;
  minus_nonneg = -ℤ_nonneg;
  minus_at_most = -ℤ_le;
  at_most_plus = le-+ℤ;
  plus_mono = +ℤ_mono;
  plus_comm = +ℤ_comm;
  plus_zero = +ℤ_zero;
  times_nonneg = *ℤ_nonneg;
  over_nonneg = over_ℤ_nonneg;
  of_ℕ_mono = pos_mono;
  of_ℕ_pos = suc_pos;
  times_mono = *ℤ_mono;
  over_mono = over_ℤ_mono;
}
