-- ===== src/Common/Catalog/Tests.antt =====
-- Registrations of catalog.py.
use ancora.Prelude.{ℕ, ◌≡◌, refl, [], string_key, pair_key}
use ancora.Dict.{lookup, insert}
use ancora.Common.Catalog.{
  Catalog, get_latest_version, register_workflow, settle_version, later, next_number,
}

abbrev empty : Catalog ℕ
empty = record { defs = []; versions = [] }

-- code that comes back after a change is a third version
back_again :
    let (_, one) = register_workflow "d" "p" "flow" 0 "a" "t" "q" empty in
    let (_, two) = register_workflow "e" "p" "flow" 1 "b" "t" "q" one in
    (register_workflow "e" "p" "flow" 0 "a" "t" "q" two).0.version ≡ 3
unfolding register_workflow settle_version get_latest_version later next_number lookup insert
back_again = refl
