-- ===== src/Prelude/Texts.antt =====
-- Texts: concatenation, order, and Python's str of a whole number.
use Prim.Native.Nat.{ℕ, zero, suc, ◌/◌, ◌%◌, Ordering}
use Prim.Native.String.{String, compare}
use Prim.Native.String.{◌++◌ as text_append}
use mathlib.Core.Bool.{Bool, true, false}
use mathlib.Core.List.{List, [], ◌∷◌}
use ancora.Prelude.Tests.{nat_eq, ltb, if◌then◌else◌}

-- s <= t
abbrev pub text_at_most : String → String → Bool
text_at_most s t = elim (compare s t) [ Ordering.gt ↦ false | _ ↦ true ]

-- "".join(texts)
abbrev pub join : List String → String
join [] = ""
join (s ∷ texts) = text_append s (join texts)

abbrev digit : ℕ → String
digit n =
    if nat_eq n 0
    then "0"
    else if nat_eq n 1
    then "1"
    else if nat_eq n 2
    then "2"
    else if nat_eq n 3
    then "3"
    else if nat_eq n 4
    then "4"
    else if nat_eq n 5
    then "5"
    else if nat_eq n 6
    then "6"
    else if nat_eq n 7
    then "7"
    else if nat_eq n 8
    then "8"
    else "9"

-- A number has no more digits than its value, where that is positive.
digits : ℕ → ℕ → String
digits zero n = digit (n % 10)
digits (suc fuel) n =
    let front = digits fuel (n / 10) in
    if ltb n 10 then digit n else text_append front (digit (n % 10))

unfoldable pub decimal : ℕ → String
unfolding digits
decimal n = digits n n
