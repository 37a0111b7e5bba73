-- ===== src/Prelude/Members.antt =====
-- Members of lists, of filtered lists and of ascending sets.
use Prim.Native.Nat.{ℕ, ◌<◌}
use mathlib.Core.Path.{◌≡◌, sym, ◌∙◌, ap, subst}
use mathlib.Core.Logic.{◌⊎◌, inl, inr}
use mathlib.Core.Bool.{Bool, true}
use mathlib.Core.List.{List, [], ◌∷◌, ◌++◌}
use native.Mathlib.Omega.{arith}
use ancora.Prelude.Tests.{nat_eq, ltb, Bool-cases}
use ancora.Prelude.Lists.{keep_if}
use ancora.Prelude.Sorting.{sort_in, sort_by, set_in, sorted_set}

abbrev pub In : {A : Type 0} → A → List A → Type 0
In x [] = ⊥
In x (y ∷ ys) = (y ≡ x) ⊎ In x ys

module _ {A : Type 0} where
  pub In-append_left : (x : A) (xs ys : List A) → In x xs → In x (xs ++ ys)
  In-append_left x [] ys h = absurd h
  In-append_left x (z ∷ xs) ys (inl e) = inl e
  In-append_left x (z ∷ xs) ys (inr h) = inr (In-append_left x xs ys h)

  pub In-append_right : (x : A) (xs ys : List A) → In x ys → In x (xs ++ ys)
  In-append_right x [] ys h = h
  In-append_right x (z ∷ xs) ys h = inr (In-append_right x xs ys h)

  pub In-append_cases : (x : A) (xs ys : List A) → In x (xs ++ ys) → In x xs ⊎ In x ys
  In-append_cases x [] ys h = inr h
  In-append_cases x (z ∷ xs) ys (inl e) = inl (inl e)
  In-append_cases x (z ∷ xs) ys (inr h) = elim (In-append_cases x xs ys h) [
    | inl left ↦ inl (inr left)
    | inr right ↦ inr right
  ]

  pub In-keep_if : (p : A → Bool) (x : A) (xs : List A) → In x xs → p x ≡ true → In x (keep_if p xs)
  In-keep_if p x [] h k = absurd h
  In-keep_if p x (y ∷ xs) (inl e) k = rw (ap p e ∙ k) (inl e)
  In-keep_if p x (y ∷ xs) (inr h) k = elim (Bool-cases (p y)) [
    | inl yes_kept ↦ rw yes_kept (inr (In-keep_if p x xs h k))
    | inr dropped ↦ rw dropped (In-keep_if p x xs h k)
  ]

  kept_head :
      (p : A → Bool) (x y : A) (xs : List A)
      → p y ≡ true
      → (y ≡ x) ⊎ In x (keep_if p xs)
      → (In x (keep_if p xs) → In x xs × (p x ≡ true))
      → In x (y ∷ xs) × (p x ≡ true)
  kept_head p x y xs h (inl e) ih = (inl e, sym (ap p e) ∙ h)
  kept_head p x y xs h (inr rest) ih = (inr (ih rest).0, (ih rest).1)

  pub kept : (p : A → Bool) (x : A) (xs : List A) → In x (keep_if p xs) → In x xs × (p x ≡ true)
  kept p x [] h = absurd h
  kept p x (y ∷ xs) h = elim (Bool-cases (p y)) [
    | inl this ↦ kept_head p x y xs this (rw this at h) (kept p x xs)
    | inr other ↦ let rest = kept p x xs (rw other at h) in (inr rest.0, rest.1)
  ]

  sunk :
      (le : A → A → Bool) (x y z : A) (ys : List A)
      → (y ≡ x) ⊎ In x (z ∷ ys)
      → ((y ≡ x) ⊎ In x ys → In x (sort_in le y ys))
      → In x (z ∷ sort_in le y ys)
  sunk le x y z ys (inl e) ih = inr (ih (inl e))
  sunk le x y z ys (inr (inl e)) ih = inl e
  sunk le x y z ys (inr (inr h)) ih = inr (ih (inr h))

  In-sort_in :
      (le : A → A → Bool) (x y : A) (ys : List A) → (y ≡ x) ⊎ In x ys → In x (sort_in le y ys)
  unfolding sort_in
  In-sort_in le x y [] h = h
  In-sort_in le x y (z ∷ ys) h = elim (Bool-cases (le y z)) [
    | inl first ↦ rw first h
    | inr later ↦ rw later (sunk le x y z ys h (In-sort_in le x y ys))
  ]

  pub In-sort_by : (le : A → A → Bool) (x : A) (xs : List A) → In x xs → In x (sort_by le xs)
  unfolding sort_by
  In-sort_by le x [] h = absurd h
  In-sort_by le x (y ∷ xs) (inl e) = In-sort_in le x y (sort_by le xs) (inl e)
  In-sort_by le x (y ∷ xs) (inr h) = In-sort_in le x y (sort_by le xs) (inr (In-sort_by le x xs h))

  raised_up :
      (x y z : A) (ys zs : List A)
      → (z ≡ x) ⊎ In x zs
      → (In x zs → (y ≡ x) ⊎ In x ys)
      → (y ≡ x) ⊎ In x (z ∷ ys)
  raised_up x y z ys zs (inl e) ih = inr (inl e)
  raised_up x y z ys zs (inr h) ih = elim (ih h) [ inl e ↦ inl e | inr k ↦ inr (inr k) ]

  sort_in-In :
      (le : A → A → Bool) (x y : A) (ys : List A) → In x (sort_in le y ys) → (y ≡ x) ⊎ In x ys
  unfolding sort_in
  sort_in-In le x y [] h = h
  sort_in-In le x y (z ∷ ys) h = elim (Bool-cases (le y z)) [
    | inl first ↦ rw first at h
    | inr later ↦ raised_up x y z ys (sort_in le y ys) (rw later at h) (sort_in-In le x y ys)
  ]

  pub sort_by-In : (le : A → A → Bool) (x : A) (xs : List A) → In x (sort_by le xs) → In x xs
  unfolding sort_by
  sort_by-In le x [] h = absurd h
  sort_by-In le x (y ∷ xs) h = elim (sort_in-In le x y (sort_by le xs) h) [
    | inl e ↦ inl e
    | inr k ↦ inr (sort_by-In le x xs k)
  ]

  -- No element stands before one that its order puts first.
  abbrev pub IsSorted : (A → A → Bool) → List A → Type 0
  IsSorted le [] = Unit
  IsSorted le (x ∷ xs) = ((y : A) → In y xs → le x y ≡ true) × IsSorted le xs

  sort_in-IsSorted :
      (le : A → A → Bool) (x : A) (ys : List A)
      → ((a b : A) → (le a b ≡ true) ⊎ (le b a ≡ true))
      → ((a b c : A) → le a b ≡ true → le b c ≡ true → le a c ≡ true)
      → IsSorted le ys
      → IsSorted le (sort_in le x ys)
  unfolding sort_in
  sort_in-IsSorted le x [] total trans h = ((λ y b. absurd b), tt)
  sort_in-IsSorted le x (y ∷ ys) total trans h = elim (Bool-cases (le x y)) [
    | inl first ↦ rw first (
      (λ z b. elim b [
        | inl e ↦ subst (λ a. le x a ≡ true) e first
        | inr k ↦ trans x y z first (h.0 z k)
      ]),
      h,
    )
    | inr later ↦ rw later (
      (λ z b. elim (sort_in-In le z x ys b) [
        | inl e ↦
            subst (λ a. le y a ≡ true) e
              (elim (total x y) [ inl up ↦ absurd (ground (arith)) | inr down ↦ down ])
        | inr k ↦ h.0 z k
      ]),
      sort_in-IsSorted le x ys total trans h.1,
    )
  ]

  -- A sorted list is in order, where the order is total and transitive.
  pub sort_by-IsSorted :
      (le : A → A → Bool) (xs : List A)
      → ((a b : A) → (le a b ≡ true) ⊎ (le b a ≡ true))
      → ((a b c : A) → le a b ≡ true → le b c ≡ true → le a c ≡ true)
      → IsSorted le (sort_by le xs)
  unfolding sort_by
  sort_by-IsSorted le [] total trans = tt
  sort_by-IsSorted le (x ∷ xs) total trans =
      sort_in-IsSorted le x (sort_by le xs) total trans (sort_by-IsSorted le xs total trans)

-- A list of numbers that ascends strictly.
abbrev pub IsAscending : List ℕ → Type 0
IsAscending [] = Unit
IsAscending (m ∷ ms) = ((k : ℕ) → In k ms → m < k) × IsAscending ms

In-set_in : (k n : ℕ) (ms : List ℕ) → (n ≡ k) ⊎ In k ms → In k (set_in n ms)
unfolding set_in
In-set_in k n [] h = h
In-set_in k n (m ∷ ms) h = ground (arith, In-set_in k n ms)

set_in_cases : (k n : ℕ) (ms : List ℕ) → In k (set_in n ms) → (n ≡ k) ⊎ In k ms
unfolding set_in
set_in_cases k n [] h = h
set_in_cases k n (m ∷ ms) h = ground (arith, set_in_cases k n ms)

set_in-IsAscending : (n : ℕ) (ms : List ℕ) → IsAscending ms → IsAscending (set_in n ms)
unfolding set_in
set_in-IsAscending n [] h = ((λ k b. absurd b), tt)
set_in-IsAscending n (m ∷ ms) h = elim (Bool-cases (ltb n m)) [
  | inl lt ↦ rw lt ((λ k b. ground (arith, h.0 k)), h)
  | inr ge ↦ elim (Bool-cases (nat_eq n m)) [
    | inl eq ↦ rw (ge, eq) h
    | inr ne ↦
        rw (ge, ne)
          ((λ k b. ground (arith, set_in_cases k n ms b, h.0 k)), set_in-IsAscending n ms h.1)
  ]
]

pub In-sorted_set : (k : ℕ) (ns : List ℕ) → In k ns → In k (sorted_set ns)
unfolding sorted_set
In-sorted_set k [] h = absurd h
In-sorted_set k (n ∷ ns) (inl e) = In-set_in k n (sorted_set ns) (inl e)
In-sorted_set k (n ∷ ns) (inr h) = In-set_in k n (sorted_set ns) (inr (In-sorted_set k ns h))

pub sorted_set_from : (k : ℕ) (ns : List ℕ) → In k (sorted_set ns) → In k ns
unfolding sorted_set
sorted_set_from k [] h = absurd h
sorted_set_from k (n ∷ ns) h = elim (set_in_cases k n (sorted_set ns) h) [
  | inl e ↦ inl e
  | inr rest ↦ inr (sorted_set_from k ns rest)
]

pub sorted_set-IsAscending : (ns : List ℕ) → IsAscending (sorted_set ns)
unfolding sorted_set
sorted_set-IsAscending [] = tt
sorted_set-IsAscending (n ∷ ns) = set_in-IsAscending n (sorted_set ns) (sorted_set-IsAscending ns)
