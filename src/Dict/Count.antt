-- ===== src/Dict/Count.antt =====
-- How many entries of a dict pass a test, after each update.
use ancora.Prelude.{
  ℕ, ◌+◌, ◌≡◌, Bool, false, none, some, Option, [], ◌∷◌, arith, Key, if◌then◌else◌,
}
use ancora.Dict.{Dict, lookup, insert, erase, prune}

abbrev pub held {κ} : {V : Type κ} → (V → Bool) → Option V → ℕ
held p none = 0
held p (some v) = if p v then 1 else 0

-- sum(1 for v in d.values() if p(v))
unfoldable pub count_values {ℓ κ} : {K : Type ℓ} {V : Type κ} → (V → Bool) → Dict K V → ℕ
count_values p [] = 0
count_values p ((k, v) ∷ d) = (if p v then 1 else 0) + count_values p d

module _ {ℓ κ} {K : Type ℓ} {V : Type κ} ⦃key : Key K⦄ where
  pub count_values-insert :
      (p : V → Bool) (k : K) (v : V) (d : Dict K V)
      → count_values p (insert k v d) + held p (lookup k d)
        ≡ count_values p d + (if p v then 1 else 0)
  unfolding count_values insert lookup
  count_values-insert p k v [] = ground arith
  count_values-insert p k v ((i, w) ∷ d) = ground (arith, count_values-insert p k v d)

  pub count_values-erase :
      (p : V → Bool) (k : K) (d : Dict K V)
      → count_values p (erase k d) + held p (lookup k d) ≡ count_values p d
  unfolding count_values erase lookup
  count_values-erase p k [] = ground arith
  count_values-erase p k ((i, w) ∷ d) = ground (arith, count_values-erase p k d)

  -- The entries that a sweep drops and those that it keeps are all the entries.
  pub count_values-prune :
      (p drop : V → Bool) (d : Dict K V)
      → count_values p (prune drop d) + count_values (λ v. if drop v then p v else false) d
        ≡ count_values p d
  unfolding count_values prune
  count_values-prune p drop [] = ground arith
  count_values-prune p drop ((i, w) ∷ d) = ground (arith, count_values-prune p drop d)
