-- ===== src/Prelude/Sorting.antt =====
-- Python's `sorted`, which is stable, by insertion; and sets of numbers as ascending lists.
use Prim.Native.Nat.{ℕ, suc, ◌+◌}
use mathlib.Core.Path.{◌≡◌, refl}
use mathlib.Core.Bool.{Bool}
use mathlib.Core.List.{List, [], ◌∷◌}
use native.Mathlib.Omega.{arith}
use ancora.Prelude.Tests.{nat_eq, ltb, if◌then◌else◌}
use ancora.Prelude.Lists.{length, count_if}

module _ {ℓ} {A : Type ℓ} where
  -- Among equal elements a new one stands first.
  unfoldable pub sort_in : (A → A → Bool) → A → List A → List A
  sort_in le x [] = x ∷ []
  sort_in le x (y ∷ ys) = if le x y then x ∷ y ∷ ys else y ∷ sort_in le x ys

  -- sorted(xs), where `le` compares the keys
  unfoldable pub sort_by : (A → A → Bool) → List A → List A
  sort_by le [] = []
  sort_by le (x ∷ xs) = sort_in le x (sort_by le xs)

  count_if-sort_in :
      (p : A → Bool) (le : A → A → Bool) (x : A) (ys : List A)
      → count_if p (sort_in le x ys) ≡ (if p x then 1 else 0) + count_if p ys
  unfolding sort_in
  count_if-sort_in p le x [] = refl
  count_if-sort_in p le x (y ∷ ys) = ground (arith, count_if-sort_in p le x ys)

  -- Sorting keeps how many elements pass a test.
  pub count_if-sort_by :
      (p : A → Bool) (le : A → A → Bool) (xs : List A) → count_if p (sort_by le xs) ≡ count_if p xs
  unfolding sort_by
  count_if-sort_by p le [] = refl
  count_if-sort_by p le (x ∷ xs) =
      ground (arith, count_if-sort_in p le x (sort_by le xs), count_if-sort_by p le xs)

  length-sort_in :
      (le : A → A → Bool) (x : A) (ys : List A) → length (sort_in le x ys) ≡ suc (length ys)
  unfolding sort_in
  length-sort_in le x [] = refl
  length-sort_in le x (y ∷ ys) = ground (arith, length-sort_in le x ys)

  pub length-sort_by : (le : A → A → Bool) (xs : List A) → length (sort_by le xs) ≡ length xs
  unfolding sort_by
  length-sort_by le [] = refl
  length-sort_by le (x ∷ xs) =
      ground (arith, length-sort_in le x (sort_by le xs), length-sort_by le xs)

-- a set of numbers and one more, ascending
unfoldable pub set_in : ℕ → List ℕ → List ℕ
set_in n [] = n ∷ []
set_in n (m ∷ ms) = if ltb n m then n ∷ m ∷ ms else if nat_eq n m then m ∷ ms else m ∷ set_in n ms

-- sorted(set(ns))
unfoldable pub sorted_set : List ℕ → List ℕ
sorted_set [] = []
sorted_set (n ∷ ns) = set_in n (sorted_set ns)
