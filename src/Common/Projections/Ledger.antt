-- ===== src/Common/Projections/Ledger.antt =====
-- What the cost ledger counts (projections.py: record_cost).
use ancora.Prelude.{
  ◌≡◌, refl, sym, ◌∙◌, Bool, true, false, Option, none, some, String, List, [], ◌∷◌, ◌==◌,
  string_key, nat_key, arith, if◌then◌else◌, inl, inr, Bool-cases,
}
use ancora.Number.{Float}
use ancora.Dict.{Dict, lookup}
use ancora.Dict.Laws.{lookup-insert}
use ancora.Common.Projections.{
  Cost, CostRow, LedgerKey, ledger_key, Projections, is_free, row_of, insert_new, record_cost,
}

module _ ⦃f : Float⦄ where
  -- a report of a cost, and whether it is written
  pub record Report : Type 0 where
    pub reached : Bool
    pub key : LedgerKey
    pub node_type : String
    pub cost : Cost

  -- the row of the first report of a key that costs anything and reaches the database
  abbrev pub first_row : LedgerKey → List Report → Option CostRow
  first_row key [] = none
  first_row key (a ∷ reports) =
      let rest = first_row key reports in
      if a.key == key
      then if is_free a.cost
        then rest
        else if a.reached
        then some (row_of a.node_type a.cost)
        else rest
      else rest

  abbrev pub or_row : Option CostRow → Option CostRow → Option CostRow
  or_row none b = b
  or_row (some a) b = some a

  lookup-insert_new :
      (key k : LedgerKey) (row : CostRow) (old : Option CostRow) (ledger : Dict LedgerKey CostRow)
      → lookup k ledger ≡ old
      → lookup key (insert_new k row old ledger)
        ≡ (if k == key then or_row (lookup key ledger) (some row) else lookup key ledger)
  unfolding insert_new
  lookup-insert_new key k row none ledger e =
      ground (arith, lookup-insert key k row ledger, ledger_key.agree_iff k key)
  lookup-insert_new key k row (some old) ledger e = ground (arith, ledger_key.agree_iff k key)

  written :
      (same_key : Bool) (row : CostRow) (old : Option CostRow)
      → (if same_key then or_row old (some row) else old)
        ≡ or_row old (if same_key then some row else none)
  written true row old = refl
  written false row none = refl
  written false row (some r) = refl

  unwritten :
      (same_key : Bool) (old : Option CostRow) → old ≡ or_row old (if same_key then none else none)
  unwritten true none = refl
  unwritten false none = refl
  unwritten true (some r) = refl
  unwritten false (some r) = refl

  or_row_assoc : (a b c : Option CostRow) → or_row (or_row a b) c ≡ or_row a (or_row b c)
  or_row_assoc none b c = refl
  or_row_assoc (some a) b c = refl

  first_row-cons :
      (key : LedgerKey) (a : Report) (reports : List Report)
      → first_row key (a ∷ reports) ≡ or_row (first_row key (a ∷ [])) (first_row key reports)
  first_row-cons key a reports = ground arith

  or_row-none : (a : Option CostRow) → or_row a none ≡ a
  or_row-none none = refl
  or_row-none (some a) = refl

  module _ {J T : Type 0} where
    unfoldable pub report_all : List Report → Projections J T → Projections J T
    report_all [] p = p
    report_all (a ∷ reports) p =
        report_all reports (record_cost a.reached a.key a.node_type a.cost p)

    record_cost_enabled :
        (a : Report) (p : Projections J T)
        → p.enabled ≡ true
        → (record_cost a.reached a.key a.node_type a.cost p).enabled ≡ true
    unfolding record_cost
    record_cost_enabled a p h = ground arith

    lookup-record_cost :
        (key : LedgerKey) (a : Report) (p : Projections J T)
        → p.enabled ≡ true
        → lookup key (record_cost a.reached a.key a.node_type a.cost p).ledger
          ≡ or_row (lookup key p.ledger) (first_row key (a ∷ []))
    unfolding record_cost
    lookup-record_cost key a p h =
        let row = row_of a.node_type a.cost in
        let new = lookup-insert_new key a.key row (lookup a.key p.ledger) p.ledger refl in
        elim (Bool-cases (is_free a.cost)) [
          | inl free ↦ rw (free, h) (unwritten (a.key == key) (lookup key p.ledger))
          | inr costs ↦ elim (Bool-cases a.reached) [
            | inl reached ↦
                rw (costs, reached, h) (new ∙ written (a.key == key) row (lookup key p.ledger))
            | inr lost ↦ rw (costs, lost, h) (unwritten (a.key == key) (lookup key p.ledger))
          ]
        ]

    -- While the projections are enabled, a node's attempt has the row of its first report that
    -- costs anything and reaches the database, in the ledger as it was before or among any
    -- reports: a report that is repeated is not counted twice, and a report that is lost is made
    -- up for by a later one.
    pub first_report_counts :
        (key : LedgerKey) (reports : List Report) (p : Projections J T)
        → p.enabled ≡ true
        → lookup key (report_all reports p).ledger
          ≡ or_row (lookup key p.ledger) (first_row key reports)
    unfolding report_all
    first_report_counts key [] p h = sym (or_row-none (lookup key p.ledger))
    first_report_counts key (a ∷ reports) p h =
        let p' = record_cost a.reached a.key a.node_type a.cost p in
        first_report_counts key reports p' (record_cost_enabled a p h)
        ∙ (rw (lookup-record_cost key a p h, first_row-cons key a reports)
            (or_row_assoc (lookup key p.ledger) (first_row key (a ∷ [])) (first_row key reports)))
