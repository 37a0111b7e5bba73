-- ===== src/Prelude/Keys.antt =====
-- Types that serve as keys of a dict: their equality test, passed as an instance.
use Prim.Native.Nat.{ℕ}
use Prim.Native.String.{String}
use mathlib.Core.Path.{◌≡◌, refl}
use mathlib.Core.Logic.{◌↔◌}
use mathlib.Core.Bool.{Bool, true, ◌&&◌}
use native.Mathlib.Omega.{arith}
use text.Mathlib.Text.{◌==◌ as text_eq}
use text.Mathlib.TextEquality.{eq_iff as text_eq_iff}
use ancora.Prelude.Tests.{nat_eq, nat_eq_iff}
use ancora.Prelude.Int.{ℤ, eq_ℤ, eq_ℤ_iff}

pub record Key {ℓ} (K : Type ℓ) : Type ℓ where
  pub agree : K → K → Bool
  pub agree_iff : (j k : K) → (agree j k ≡ true) ↔ (j ≡ k)

infix 50 ◌==◌
abbrev pub ◌==◌ {ℓ} : {K : Type ℓ} ⦃key : Key K⦄ → K → K → Bool
◌==◌ ⦃key⦄ = key.agree

pub ==_refl {ℓ} : {K : Type ℓ} ⦃key : Key K⦄ (k : K) → (k == k) ≡ true
==_refl ⦃key⦄ k = (key.agree_iff k k).1 refl

instance abbrev pub string_key : Key String
string_key = record { agree_iff = text_eq_iff; agree = text_eq }

instance abbrev pub nat_key : Key ℕ
nat_key = record { agree_iff = nat_eq_iff; agree = nat_eq }

instance abbrev pub int_key : Key ℤ
int_key = record { agree_iff = eq_ℤ_iff; agree = eq_ℤ }

module _ {ℓ κ} {A : Type ℓ} {B : Type κ} ⦃first : Key A⦄ ⦃second : Key B⦄ where
  abbrev pair_agree : A × B → A × B → Bool
  pair_agree (a, b) (c, d) = first.agree a c && second.agree b d

  pub pair_agree_iff : (p q : A × B) → (pair_agree p q ≡ true) ↔ (p ≡ q)
  pair_agree_iff (a, b) (c, d) = ground (arith, first.agree_iff a c, second.agree_iff b d)

  instance abbrev pub pair_key : Key (A × B)
  pair_key = record { agree_iff = pair_agree_iff; agree = pair_agree }
