-- ===== src/Dict/Laws.antt =====
-- Lookups after each update, and that updates keep keys unique.
use ancora.Prelude.{
  ◌≡◌, refl, Bool, Option, none, some, [], ◌∷◌, arith, Key, ◌==◌, ==_refl, if◌then◌else◌,
}
use ancora.Dict.{Dict, lookup, insert, erase, prune, IsDict}

abbrev pub unless {κ} : {V : Type κ} → (V → Bool) → Option V → Option V
unless drop none = none
unless drop (some v) = if drop v then none else some v

module _ {ℓ κ} {K : Type ℓ} {V : Type κ} ⦃key : Key K⦄ where
  pub lookup-insert :
      (j k : K) (v : V) (d : Dict K V)
      → lookup j (insert k v d) ≡ (if k == j then some v else lookup j d)
  unfolding lookup insert
  lookup-insert j k v [] = refl
  lookup-insert j k v ((i, w) ∷ d) =
      ground (arith, key.agree_iff i k, key.agree_iff i j, key.agree_iff k j, lookup-insert j k v d)

  pub lookup-insert_self : (k : K) (v : V) (d : Dict K V) → lookup k (insert k v d) ≡ some v
  lookup-insert_self k v d = ground (arith, lookup-insert k k v d, ==_refl k)

  pub insert-IsDict : (k : K) (v : V) (d : Dict K V) → IsDict d → IsDict (insert k v d)
  unfolding insert
  insert-IsDict k v [] h = (unfold lookup in refl, tt)
  insert-IsDict k v ((i, w) ∷ d) h =
      ground (
        arith,
        insert-IsDict k v d h.1,
        lookup-insert i k v d,
        key.agree_iff i k,
        key.agree_iff k i,
      )

  pub lookup-erase :
      (j k : K) (d : Dict K V)
      → IsDict d
      → lookup j (erase k d) ≡ (if k == j then none else lookup j d)
  unfolding lookup erase
  lookup-erase j k [] h = ground arith
  lookup-erase j k ((i, w) ∷ d) h =
      ground
        (arith, key.agree_iff i k, key.agree_iff i j, key.agree_iff k j, lookup-erase j k d h.1)

  pub erase-IsDict : (k : K) (d : Dict K V) → IsDict d → IsDict (erase k d)
  unfolding erase
  erase-IsDict k [] h = tt
  erase-IsDict k ((i, w) ∷ d) h = ground (arith, erase-IsDict k d h.1, lookup-erase i k d h.1)

  pub lookup-prune :
      (j : K) (drop : V → Bool) (d : Dict K V)
      → IsDict d
      → lookup j (prune drop d) ≡ unless drop (lookup j d)
  unfolding lookup prune
  lookup-prune j drop [] h = refl
  lookup-prune j drop ((i, w) ∷ d) h = ground (arith, key.agree_iff i j, lookup-prune j drop d h.1)

  pub prune-IsDict : (drop : V → Bool) (d : Dict K V) → IsDict d → IsDict (prune drop d)
  unfolding prune
  prune-IsDict drop [] h = tt
  prune-IsDict drop ((i, w) ∷ d) h =
      ground (arith, prune-IsDict drop d h.1, lookup-prune i drop d h.1)
