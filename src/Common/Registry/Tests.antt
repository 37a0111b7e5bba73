-- ===== src/Common/Registry/Tests.antt =====
-- A worker's life in registry.py, in whole seconds.
use ancora.Prelude.{ℕ, ◌≡◌, refl, true, false, none, some, String, [], ◌∷◌, string_key}
use ancora.Prelude.Int.{ℤ, pos, ◌-ℤ◌}
use ancora.Number.{below, minus}
use ancora.Number.Whole.{whole}
use ancora.Dict.{Dict, lookup, IsDict}
use ancora.Common.Registry.{Worker, is_cold}

abbrev seen_at : ℤ → Worker ℕ
seen_at t = record {
  pools = "cpu" ∷ [];
  task_queues = "ancora-cpu" ∷ [];
  resources = 8;
  host = none;
  pid = some 41;
  last_heartbeat_at = some t;
}

abbrev two : Dict String (Worker ℕ)
two = ("a", seen_at (pos 10)) ∷ ("b", seen_at (pos 90)) ∷ []

two-IsDict : IsDict two
unfolding lookup
two-IsDict = (refl, (refl, tt))

found_a : lookup "a" two ≡ some (seen_at (pos 10))
unfolding lookup
found_a = refl

warm : below (pos 80) (minus (pos 100) (pos 60)) ≡ false
unfolding ◌-ℤ◌
warm = refl

cold : is_cold (minus (pos 100) (pos 60)) (seen_at (pos 10)) ≡ true
unfolding ◌-ℤ◌
cold = refl
