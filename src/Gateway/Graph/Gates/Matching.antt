-- ===== src/Gateway/Graph/Gates/Matching.antt =====
-- Which close resolves which gate (graph.py: _gate_vertices).
use ancora.Prelude.{
  ℕ, ◌<◌, ◌≡◌, refl, sym, ◌∙◌, ap, subst, true, false, Option, none, some, String, List, [], ◌∷◌,
  keep_if, ◌==◌, ==_refl, string_key, nat_key, arith, if◌then◌else◌, inl, inr, Bool-cases,
}
use ancora.Number.{Float, Num}
use ancora.Dict.{Dict, lookup, lookup_or, insert}
use ancora.Dict.Laws.{lookup-insert}
use ancora.Gateway.History.{Wire}
use ancora.Gateway.Graph.{Sched, Vertex}
use ancora.Gateway.Graph.Gates.{
  take_before, resolve, gate_of, text_or_else, Gates, matched, close_gate, close_gates,
}
use ancora.Gateway.Graph.Gates.Queues.{
  has, NoDup, map_option, MatchIn, take_before-MatchIn, lookup-update,
}

module _ ⦃f : Float⦄ ⦃w : Wire Num⦄ where
  -- Each close comes after the open in the same place of the gate's queue.
  abbrev pub Paired : List ℕ → List Sched → Type 0
  Paired queue [] = Unit
  Paired [] (sched ∷ closes) = ⊥
  Paired (s ∷ queue) (sched ∷ closes) = (s < sched.event_id) × Paired queue closes

  -- the close in the same place as an open
  abbrev pub fate : ℕ → List ℕ → List Sched → Option Sched
  fate s [] closes = none
  fate s (t ∷ queue) [] = none
  fate s (t ∷ queue) (sched ∷ closes) = if t == s then some sched else fate s queue closes

  abbrev pub leftover : List ℕ → List Sched → List ℕ
  leftover [] closes = []
  leftover (t ∷ queue) [] = t ∷ queue
  leftover (t ∷ queue) (sched ∷ closes) = leftover queue closes

  -- the closes that name a gate
  abbrev pub closes_of : String → List Sched → List Sched
  closes_of gate closes = keep_if (λ (c : Sched). text_or_else c.gate_id "" == gate) closes

  -- the opens of a gate
  abbrev pub opens_of : String → List (ℕ × Sched) → List ℕ
  opens_of gate [] = []
  opens_of gate ((sid, sched) ∷ opens) =
      let rest = opens_of gate opens in if gate_of sched == gate then sid ∷ rest else rest

  -- what a gate's vertex becomes
  abbrev pub settled : (Vertex → Vertex) → Option Sched → Vertex → Vertex
  settled change none v = change v
  settled change (some sched) v = resolve sched v

  abbrev pub queue_of : String → Gates → List ℕ
  queue_of gate g = lookup_or [] gate g.unmatched

  abbrev pub Owned : (ℕ → Option String) → Dict String (List ℕ) → Type 0
  Owned owner unmatched =
      (gate : String) (s : ℕ) → has s (lookup_or [] gate unmatched) ≡ true → owner s ≡ some gate

  pub queue-insert :
      (gate k : String) (queue : List ℕ) (unmatched : Dict String (List ℕ))
      → lookup_or [] gate (insert k queue unmatched)
        ≡ (if k == gate then queue else lookup_or [] gate unmatched)
  unfolding lookup_or
  queue-insert gate k queue unmatched = ground (arith, lookup-insert gate k queue unmatched)

  -- the head of a queue is its match, where it precedes the close
  take_before_head :
      (n s : ℕ) (queue : List ℕ) → s < n → take_before n (s ∷ queue) ≡ some (s, queue)
  unfolding take_before
  take_before_head n s queue h = ground arith

  abbrev pub touched : Option Sched → Option Vertex → Option Vertex
  touched none v = v
  touched (some sched) v = map_option (resolve sched) v

  fate-none :
      (s : ℕ) (queue : List ℕ) (closes : List Sched)
      → has s queue ≡ false
      → fate s queue closes ≡ none
  fate-none s [] closes h = refl
  fate-none s (t ∷ queue) [] h = refl
  fate-none s (t ∷ queue) (sched ∷ closes) h = ground (arith, fate-none s queue closes)

  -- A step on another gate.
  module _ (owner : ℕ → Option String) (gate : String) where
    matched_other :
        (k : String) (sched : Sched) (queue : List ℕ) (found : Option (ℕ × List ℕ)) (g : Gates)
        → (k == gate) ≡ false
        → MatchIn queue found
        → queue_of k g ≡ queue
        → Owned owner g.unmatched
        → (queue_of gate (matched k sched found g) ≡ queue_of gate g)
          × Owned owner (matched k sched found g).unmatched
          × ((s : ℕ)
              → owner s ≡ some gate
              → lookup s (matched k sched found g).vertices ≡ lookup s g.vertices)
    unfolding matched
    matched_other k sched queue none g h m e o = (refl, o, λ s own. refl)
    matched_other k sched queue (some (sid, rest)) g h m e o = (
      ground (arith, queue-insert gate k rest g.unmatched),
      (λ j s in_queue. ground (
        arith,
        queue-insert j k rest g.unmatched,
        m.1 s,
        o j s,
        o k s,
        string_key.agree_iff k j,
      )),
      (λ s own. ground (
        arith,
        lookup-update s sid (resolve sched) g.vertices,
        nat_key.agree_iff sid s,
        o k sid,
        string_key.agree_iff k gate,
      )),
    )

    -- A step on the gate itself, whose oldest open precedes the close.
    matched_same :
        (sid : ℕ) (rest : List ℕ) (sched : Sched) (g : Gates)
        → queue_of gate g ≡ sid ∷ rest
        → Owned owner g.unmatched
        → let g' = matched gate sched (some (sid, rest)) g in
          (queue_of gate g' ≡ rest)
          × Owned owner g'.unmatched
          × ((s : ℕ)
              → lookup s g'.vertices ≡ (
                  if sid == s
                  then map_option (resolve sched) (lookup s g.vertices)
                  else lookup s g.vertices))
    unfolding matched
    matched_same sid rest sched g e o = (
      ground (arith, queue-insert gate gate rest g.unmatched, ==_refl gate),
      (λ j s in_queue.
          let head : has s (sid ∷ rest) ≡ true → owner s ≡ some gate = λ k. o gate s (rw e k) in
          ground (
            arith,
            queue-insert j gate rest g.unmatched,
            head,
            o j s,
            string_key.agree_iff gate j,
          )),
      (λ s. lookup-update s sid (resolve sched) g.vertices),
    )

    -- The state after all closes: what is left of the gate's queue, and its vertices.
    abbrev pub Closed : List ℕ → List Sched → Gates → Gates → Type 0
    Closed queue closes g g' =
        (queue_of gate g' ≡ leftover queue closes)
        × Owned owner g'.unmatched
        × ((s : ℕ)
            → owner s ≡ some gate
            → lookup s g'.vertices ≡ touched (fate s queue closes) (lookup s g.vertices))

    no_close :
        (queue : List ℕ) (g : Gates)
        → queue_of gate g ≡ queue
        → Owned owner g.unmatched
        → Closed queue [] g g
    no_close [] g e o = (e, o, λ s own. refl)
    no_close (t ∷ queue) g e o = (e, o, λ s own. refl)

    Closed-other :
        (queue : List ℕ) (closes : List Sched) (g h g' : Gates)
        → ((s : ℕ) → owner s ≡ some gate → lookup s h.vertices ≡ lookup s g.vertices)
        → Closed queue closes h g'
        → Closed queue closes g g'
    Closed-other queue closes g h g' same c =
        (c.0, c.1, λ s own. c.2 s own ∙ ap (touched (fate s queue closes)) (same s own))

    Closed-same :
        (sid : ℕ) (rest : List ℕ) (sched : Sched) (closes : List Sched) (g h g' : Gates)
        → has sid rest ≡ false
        → ((s : ℕ)
            → lookup s h.vertices ≡ (
                if sid == s
                then map_option (resolve sched) (lookup s g.vertices)
                else lookup s g.vertices))
        → Closed rest closes h g'
        → Closed (sid ∷ rest) (sched ∷ closes) g g'
    Closed-same sid rest sched closes g h g' once step c = (
      c.0,
      c.1,
      λ s own. elim (Bool-cases (sid == s)) [
        | inl this ↦
            let gone : has s rest ≡ false = rw ((nat_key.agree_iff sid s).0 this) at once in
            let went : lookup s g'.vertices ≡ lookup s h.vertices =
              c.2 s own
              ∙ ap (λ x. touched x (lookup s h.vertices)) (fate-none s rest closes gone) in
            rw this (went ∙ (ground (arith, step s)))
        | inr other ↦
            let kept : lookup s h.vertices ≡ lookup s g.vertices = ground (arith, step s) in
            rw other (c.2 s own ∙ ap (touched (fate s rest closes)) kept)
      ],
    )

    -- A close of the gate, with what the later closes do to the state that it leaves.
    at_gate :
        (queue : List ℕ) (sched : Sched) (closes : List Sched) (g : Gates) (later : Gates → Gates)
        → text_or_else sched.gate_id "" ≡ gate
        → queue_of gate g ≡ queue
        → NoDup queue
        → Owned owner g.unmatched
        → Paired queue (sched ∷ closes)
        → ((rest : List ℕ) (h : Gates)
            → queue_of gate h ≡ rest
            → NoDup rest
            → Owned owner h.unmatched
            → Paired rest closes
            → Closed rest closes h (later h))
        → Closed queue (sched ∷ closes) g (later (close_gate sched g))
    unfolding close_gate
    at_gate [] sched closes g later named e n o p ih = absurd p
    at_gate (sid ∷ rest) sched closes g later named e n o p ih =
        let h = matched gate sched (some (sid, rest)) g in
        let step = matched_same sid rest sched g e o in
        rw (named, e, take_before_head sched.event_id sid rest p.0)
          (Closed-same sid rest sched closes g h (later h) n.0 step.2
            (ih rest h step.0 n.1 step.1 p.1))

    pub close_gates-Closed :
        (closes : List Sched) (queue : List ℕ) (g : Gates)
        → queue_of gate g ≡ queue
        → NoDup queue
        → Owned owner g.unmatched
        → Paired queue (closes_of gate closes)
        → Closed queue (closes_of gate closes) g (close_gates closes g)
    unfolding close_gates close_gate
    close_gates-Closed [] queue g e n o p = no_close queue g e o
    close_gates-Closed (sched ∷ closes) queue g e n o p =
        let k = text_or_else sched.gate_id "" in
        elim (Bool-cases (k == gate)) [
          | inl this ↦
              let named : k ≡ gate = (string_key.agree_iff k gate).0 this in
              let more : closes_of gate (sched ∷ closes) ≡ sched ∷ closes_of gate closes =
                rw this refl in
              subst (λ ds. Closed queue ds g (close_gates closes (close_gate sched g))) (sym more)
                (at_gate queue sched (closes_of gate closes) g (close_gates closes) named e n o
                  (subst (Paired queue) more p) (λ rest. close_gates-Closed closes rest))
          | inr other ↦
              let same : closes_of gate (sched ∷ closes) ≡ closes_of gate closes = rw other refl in
              let h = close_gate sched g in
              let step =
                matched_other k sched (queue_of k g) (take_before sched.event_id (queue_of k g)) g
                  other (take_before-MatchIn sched.event_id (queue_of k g)) refl o in
              subst (λ ds. Closed queue ds g (close_gates closes h)) (sym same)
                (Closed-other queue (closes_of gate closes) g h (close_gates closes h) step.2 (
                  close_gates-Closed closes queue h (step.0 ∙ e) n step.1
                    (subst (Paired queue) same p)))
        ]
