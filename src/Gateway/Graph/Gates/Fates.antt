-- ===== src/Gateway/Graph/Gates/Fates.antt =====
-- What becomes of each gate (graph.py: _gate_vertices).
use ancora.Prelude.{
  ℕ, ◌≡◌, refl, sym, ◌∙◌, ap, subst, Bool, true, false, Option, none, some, String, List, [], ◌∷◌,
  string_key, nat_key, arith, if◌then◌else◌,
}
use ancora.Number.{Float, Num}
use ancora.Dict.{lookup, lookup_or, IsDict}
use ancora.Dict.Laws.{insert-IsDict}
use ancora.Gateway.History.{Wire}
use ancora.Gateway.Graph.{Sched, Vertex, Reduction}
use ancora.Gateway.Graph.Gates.{
  take_before, left_open, gate_of, text_or_else, Gates, opened, open_gates, matched, close_gate,
  close_gates, no_gates, gate_vertices,
}
use ancora.Gateway.Graph.Gates.Queues.{has, NoDup, map_option, lookup-leave_open}
use ancora.Gateway.Graph.Gates.Matching.{
  Paired, fate, leftover, closes_of, opens_of, settled, queue_of, Owned, touched,
  close_gates-Closed,
}
use ancora.Gateway.Graph.Gates.Opening.{
  lookup-drawn, queue-open_gates, vertices-open_gates, open_gates-IsDict, owner_in, opens_of-owner,
  has-opens_of, opens_of-NoDup, OnlyUnder-intro,
}

module _ ⦃f : Float⦄ ⦃w : Wire Num⦄ where
  matched-IsDict :
      (gate : String) (sched : Sched) (found : Option (ℕ × List ℕ)) (g : Gates)
      → IsDict g.unmatched
      → IsDict (matched gate sched found g).unmatched
  unfolding matched
  matched-IsDict gate sched none g d = d
  matched-IsDict gate sched (some (sid, rest)) g d = insert-IsDict gate rest g.unmatched d

  close_gates-IsDict :
      (closes : List Sched) (g : Gates)
      → IsDict g.unmatched
      → IsDict (close_gates closes g).unmatched
  unfolding close_gates close_gate
  close_gates-IsDict [] g d = d
  close_gates-IsDict (sched ∷ closes) g d =
      let gate = text_or_else sched.gate_id "" in
      let found = take_before sched.event_id (queue_of gate g) in
      close_gates-IsDict closes (matched gate sched found g) (matched-IsDict gate sched found g d)

  -- An open is left over where no close has its place.
  abbrev unresolved : Option Sched → Bool
  unresolved none = true
  unresolved (some _) = false

  absent-leftover :
      (s : ℕ) (queue : List ℕ) (closes : List Sched)
      → has s queue ≡ false
      → has s (leftover queue closes) ≡ false
  absent-leftover s [] closes h = refl
  absent-leftover s (t ∷ queue) [] h = h
  absent-leftover s (t ∷ queue) (sched ∷ closes) h = ground (arith, absent-leftover s queue closes)

  has-leftover :
      (s : ℕ) (queue : List ℕ) (closes : List Sched)
      → NoDup queue
      → has s queue ≡ true
      → has s (leftover queue closes) ≡ unresolved (fate s queue closes)
  has-leftover s [] closes n h = absurd (ground arith)
  has-leftover s (t ∷ queue) [] n h = h
  has-leftover s (t ∷ queue) (sched ∷ closes) n h = ground (
    arith,
    has-leftover s queue closes n.1,
    absent-leftover s queue closes,
    n.0,
    nat_key.agree_iff t s,
  )

  NoDup-leftover :
      (queue : List ℕ) (closes : List Sched) → NoDup queue → NoDup (leftover queue closes)
  NoDup-leftover [] closes n = n
  NoDup-leftover (t ∷ queue) [] n = n
  NoDup-leftover (t ∷ queue) (sched ∷ closes) n = NoDup-leftover queue closes n.1

  settled_or_touched :
      (change : Vertex → Vertex) (v : Vertex) (sched : Option Sched)
      → (if unresolved sched
          then map_option change (touched sched (some v))
          else touched sched (some v))
        ≡ some (settled change sched v)
  settled_or_touched change v none = refl
  settled_or_touched change v (some sched) = refl

  -- Where the closes of a gate come after the opens in the same places, the n-th open of the gate
  -- is resolved by the n-th close of the gate, whatever other gates do between them; an open that
  -- no close is left for is canceled if the run is over, and else it waits, with the first expiry
  -- of an open timer.
  pub nth_close_resolves :
      (opens : List (ℕ × Sched)) (closes : List Sched) (r : Reduction) (terminal_run : Bool) (s : ℕ)
      (sched : Sched)
      → IsDict opens
      → lookup s opens ≡ some sched
      → Paired (opens_of (gate_of sched) opens) (closes_of (gate_of sched) closes)
      → lookup s (gate_vertices opens closes r terminal_run)
        ≡ some (
            settled
              (left_open terminal_run r)
              (fate s (opens_of (gate_of sched) opens) (closes_of (gate_of sched) closes))
              (opened s sched (lookup s r.terminal)))
  unfolding gate_vertices
  nth_close_resolves opens closes r terminal_run s sched d known paired =
      let gate = gate_of sched in
      let queue = opens_of gate opens in
      let ds = closes_of gate closes in
      let g = open_gates r opens no_gates in
      let g' = close_gates closes g in
      let change = left_open terminal_run r in
      let v = opened s sched (lookup s r.terminal) in
      let queues : (k : String) → queue_of k g ≡ opens_of k opens =
        λ k. unfold lookup_or lookup in queue-open_gates k r opens no_gates in
      let owned : Owned (owner_in opens) g.unmatched =
        λ k t h. opens_of-owner k opens t d (subst (λ q. has t q ≡ true) (queues k) h) in
      let mine : owner_in opens s ≡ some gate = rw known refl in
      let n = opens_of-NoDup gate opens d in
      let c =
        close_gates-Closed (owner_in opens) gate closes queue g (queues gate) n owned paired in
      let before : lookup s g.vertices ≡ some v =
        ap (lookup s) (vertices-open_gates r opens no_gates)
        ∙ lookup-drawn s r opens
        ∙ (rw known refl) in
      let after : lookup s g'.vertices ≡ touched (fate s queue ds) (some v) =
        c.2 s mine ∙ ap (touched (fate s queue ds)) before in
      let u = close_gates-IsDict closes g (open_gates-IsDict r opens no_gates tt) in
      let only = OnlyUnder-intro s gate g'.unmatched u (λ k h. ground (arith, c.1 k s h, mine)) in
      let left : has s (queue_of gate g') ≡ unresolved (fate s queue ds) =
        ap (has s) c.0 ∙ has-leftover s queue ds n (has-opens_of opens s sched known) in
      lookup-leave_open s gate change g'.unmatched g'.vertices u only
        (subst NoDup (sym c.0) (NoDup-leftover queue ds n))
      ∙ (rw (left, after) (settled_or_touched change v (fate s queue ds)))
