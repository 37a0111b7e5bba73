-- ===== src/Common/Projections/Gates.antt =====
-- What the inbox says of a gate (projections.py: open_gate, close_gate).
use ancora.Prelude.{
  ◌≡◌, refl, ◌∙◌, ap, Bool, true, false, Option, none, some, String, List, [], ◌∷◌, ◌==◌,
  string_key, pair_key, if◌then◌else◌, inl, inr, Bool-cases,
}
use ancora.Number.{Float}
use ancora.Dict.{Dict, lookup, insert}
use ancora.Dict.Laws.{lookup-insert}
use ancora.Common.Projections.{
  GateKey, ApprovalGate, Projections, opened, open_gate, status_of, closed, close_gate,
}

-- one call of a writer of gates, and whether the database takes it
pub data GateCall (J T : Type 0) : Type 0 where
  opens : Bool → GateKey → Option String → Option String → Option J → Option T → GateCall J T
  closes : Bool → GateKey → Bool → Bool → Option String → Option String → T → GateCall J T

module _ {J T : Type 0} where
  abbrev pub status_in : Option (ApprovalGate J T) → Option String
  status_in none = none
  status_in (some row) = some row.status

  -- The status of a gate after a call: the abstract gate, which is its status alone.
  abbrev status_after : GateKey → GateCall J T → Option String → Option String
  status_after key (opens reached k _ _ _ _) status =
      if reached then if k == key then some "waiting" else status else status
  status_after key (closes reached k approved timed_out _ _ _) status =
      if reached then if k == key then some (status_of approved timed_out) else status else status

  abbrev pub status_after_all : GateKey → List (GateCall J T) → Option String → Option String
  status_after_all key [] status = status
  status_after_all key (call ∷ calls) status =
      status_after_all key calls (status_after key call status)

  status-opened :
      (workflow_name prompt : Option String) (payload : Option J) (expires_at : Option T)
      (old : Option (ApprovalGate J T))
      → (opened workflow_name prompt payload expires_at old).status ≡ "waiting"
  unfolding opened
  status-opened workflow_name prompt payload expires_at none = refl
  status-opened workflow_name prompt payload expires_at (some row) = refl

  status-closed :
      (status : String) (comment decided_by : Option String) (now : T)
      (old : Option (ApprovalGate J T))
      → (closed status comment decided_by now old).status ≡ status
  unfolding closed
  status-closed status comment decided_by now none = refl
  status-closed status comment decided_by now (some row) = refl

  status-insert :
      (key k : GateKey) (row : ApprovalGate J T) (status : String)
      (d : Dict GateKey (ApprovalGate J T))
      → row.status ≡ status
      → status_in (lookup key (insert k row d))
        ≡ (if k == key then some status else status_in (lookup key d))
  status-insert key k row status d e = elim (Bool-cases (k == key)) [
    | inl this ↦ rw (lookup-insert key k row d, this) (ap some e)
    | inr other ↦ rw (lookup-insert key k row d, other) refl
  ]

module _ ⦃f : Float⦄ {J T : Type 0} where
  unfoldable pub call_gate : GateCall J T → Projections J T → Projections J T
  call_gate (opens reached key workflow_name prompt payload expires_at) p =
      open_gate reached key workflow_name prompt payload expires_at p
  call_gate (closes reached key approved timed_out comment decided_by now) p =
      close_gate reached key approved timed_out comment decided_by now p

  unfoldable pub call_all : List (GateCall J T) → Projections J T → Projections J T
  call_all [] p = p
  call_all (call ∷ calls) p = call_all calls (call_gate call p)

  call_gate_lem :
      (key : GateKey) (call : GateCall J T) (p : Projections J T)
      → p.enabled ≡ true
      → ((call_gate call p).enabled ≡ true)
        × (status_in (lookup key (call_gate call p).gates)
            ≡ status_after key call (status_in (lookup key p.gates)))
  unfolding call_gate open_gate close_gate
  call_gate_lem key (opens true k workflow_name prompt payload expires_at) p h =
      let row = opened workflow_name prompt payload expires_at (lookup k p.gates) in
      rw h (
        refl,
        status-insert key k row "waiting" p.gates
            (status-opened workflow_name prompt payload expires_at (lookup k p.gates)),
      )
  call_gate_lem key (opens false k workflow_name prompt payload expires_at) p h = rw h (refl, refl)
  call_gate_lem key (closes true k approved timed_out comment decided_by now) p h =
      let status = status_of approved timed_out in
      let row = closed status comment decided_by now (lookup k p.gates) in
      rw h (
        refl,
        status-insert key k row status p.gates
            (status-closed status comment decided_by now (lookup k p.gates)),
      )
  call_gate_lem key (closes false k approved timed_out comment decided_by now) p h =
      rw h (refl, refl)

  -- While the projections are enabled, the inbox's status of a gate after any calls is that of the
  -- last call for the gate that the database took: waiting after an open, and expired, approved or
  -- rejected after a close, also where the gate's open was lost; other gates do not change it.
  pub gate_status-call_all :
      (key : GateKey) (calls : List (GateCall J T)) (p : Projections J T)
      → p.enabled ≡ true
      → status_in (lookup key (call_all calls p).gates)
        ≡ status_after_all key calls (status_in (lookup key p.gates))
  unfolding call_all
  gate_status-call_all key [] p h = refl
  gate_status-call_all key (call ∷ calls) p h =
      let (on, step) = call_gate_lem key call p h in
      gate_status-call_all key calls (call_gate call p) on ∙ ap (status_after_all key calls) step
