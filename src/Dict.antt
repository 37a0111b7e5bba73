-- ===== src/Dict.antt =====
-- Python's `dict`: an association list in insertion order, one entry for each key. The key
-- equality is an instance argument.
pub mod Laws
pub mod Count
pub mod Totals
use ancora.Prelude.{
  ℕ, ◌+◌, ◌≡◌, Bool, true, false, Option, none, some, List, [], ◌∷◌, Key, ◌==◌, if◌then◌else◌,
}

abbrev pub Dict {ℓ κ} : Type ℓ → Type κ → Type (ℓ ⊔ κ)
Dict K V = List (K × V)

module _ {ℓ κ} {K : Type ℓ} {V : Type κ} ⦃key : Key K⦄ where
  -- d.get(k)
  unfoldable pub lookup : K → Dict K V → Option V
  lookup k [] = none
  lookup k ((j, v) ∷ d) = if j == k then some v else lookup k d

  -- d[k] = v: an old key keeps its place
  unfoldable pub insert : K → V → Dict K V → Dict K V
  insert k v [] = (k, v) ∷ []
  insert k v ((j, w) ∷ d) = if j == k then (j, v) ∷ d else (j, w) ∷ insert k v d

  -- d.pop(k, None)
  unfoldable pub erase : K → Dict K V → Dict K V
  erase k [] = []
  erase k ((j, w) ∷ d) = if j == k then d else (j, w) ∷ erase k d

  -- d.get(k, default)
  unfoldable pub lookup_or : V → K → Dict K V → V
  unfolding lookup
  lookup_or v k d = elim (lookup k d) [ none ↦ v | some w ↦ w ]

  -- No key is listed twice.
  abbrev pub IsDict : Dict K V → Type κ
  IsDict [] = Unit {κ}
  IsDict ((k, v) ∷ d) = (lookup k d ≡ none) × IsDict d

-- d[k] = d.get(k, 0) + 1
unfoldable pub bump {ℓ} : {K : Type ℓ} ⦃key : Key K⦄ → K → Dict K ℕ → Dict K ℕ
bump k d = insert k (lookup_or 0 k d + 1) d

module _ {ℓ κ} {K : Type ℓ} {V : Type κ} where
  -- del d[k] for every entry that `drop` selects
  unfoldable pub prune : (V → Bool) → Dict K V → Dict K V
  prune drop [] = []
  prune drop ((j, w) ∷ d) = let rest = prune drop d in if drop w then rest else (j, w) ∷ rest
