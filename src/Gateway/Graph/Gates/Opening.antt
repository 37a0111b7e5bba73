-- ===== src/Gateway/Graph/Gates/Opening.antt =====
-- The gates before any close (graph.py: _gate_vertices, the loop over the opens).
use mathlib.Core.List.{append-nil, append_assoc}
use ancora.Prelude.{
  ℕ, ◌≡◌, refl, sym, ◌∙◌, true, Option, some, String, List, [], ◌∷◌, ◌++◌, ◌==◌, ==_refl,
  string_key, nat_key, arith, inl, inr, Bool-cases,
}
use ancora.Number.{Float, Num}
use ancora.Dict.{Dict, lookup, lookup_or, insert, IsDict}
use ancora.Dict.Laws.{insert-IsDict}
use ancora.Gateway.History.{Wire}
use ancora.Gateway.Graph.{Sched, Vertex, Reduction}
use ancora.Gateway.Graph.Gates.{gate_of, Gates, opened, open_gates}
use ancora.Gateway.Graph.Gates.Queues.{has, NoDup, map_option, OnlyUnder}
use ancora.Gateway.Graph.Gates.Matching.{opens_of, queue_of, queue-insert}

module _ ⦃f : Float⦄ ⦃w : Wire Num⦄ where
  -- the vertices of a list of opens
  abbrev pub drawn : Reduction → List (ℕ × Sched) → Dict ℕ Vertex
  drawn r [] = []
  drawn r ((sid, sched) ∷ opens) = (sid, opened sid sched (lookup sid r.terminal)) ∷ drawn r opens

  pub lookup-drawn :
      (s : ℕ) (r : Reduction) (opens : List (ℕ × Sched))
      → lookup s (drawn r opens)
        ≡ map_option (λ (sched : Sched). opened s sched (lookup s r.terminal)) (lookup s opens)
  unfolding lookup
  lookup-drawn s r [] = refl
  lookup-drawn s r ((sid, sched) ∷ opens) = elim (Bool-cases (sid == s)) [
    | inl this ↦ rw ((nat_key.agree_iff sid s).0 this, ==_refl s) refl
    | inr other ↦ rw other (lookup-drawn s r opens)
  ]

  pub queue-open_gates :
      (gate : String) (r : Reduction) (opens : List (ℕ × Sched)) (g : Gates)
      → queue_of gate (open_gates r opens g) ≡ queue_of gate g ++ opens_of gate opens
  unfolding open_gates
  queue-open_gates gate r [] g = sym (append-nil (queue_of gate g))
  queue-open_gates gate r ((sid, sched) ∷ opens) g =
      let k = gate_of sched in
      let longer = queue_of k g ++ sid ∷ [] in
      let step = queue-insert gate k longer g.unmatched in
      let rest = queue-open_gates gate r opens (record {
        unmatched = insert k longer g.unmatched;
        vertices = g.vertices ++ (sid, opened sid sched (lookup sid r.terminal)) ∷ [];
      }) in
      elim (Bool-cases (k == gate)) [
        | inl this ↦
            let e : k ≡ gate = (string_key.agree_iff k gate).0 this in
            rw this (
              rest
              ∙ (rw (step, this, e)
                  (append_assoc (queue_of gate g) (sid ∷ []) (opens_of gate opens))))
        | inr other ↦ rw other (rest ∙ (rw (step, other) refl))
      ]

  pub vertices-open_gates :
      (r : Reduction) (opens : List (ℕ × Sched)) (g : Gates)
      → (open_gates r opens g).vertices ≡ g.vertices ++ drawn r opens
  unfolding open_gates
  vertices-open_gates r [] g = sym (append-nil g.vertices)
  vertices-open_gates r ((sid, sched) ∷ opens) g =
      vertices-open_gates r opens (record {
        unmatched = insert (gate_of sched) (queue_of (gate_of sched) g ++ sid ∷ []) g.unmatched;
        vertices = g.vertices ++ (sid, opened sid sched (lookup sid r.terminal)) ∷ [];
      })
      ∙ append_assoc g.vertices ((sid, opened sid sched (lookup sid r.terminal)) ∷ [])
          (drawn r opens)

  pub open_gates-IsDict :
      (r : Reduction) (opens : List (ℕ × Sched)) (g : Gates)
      → IsDict g.unmatched
      → IsDict (open_gates r opens g).unmatched
  unfolding open_gates
  open_gates-IsDict r [] g d = d
  open_gates-IsDict r ((sid, sched) ∷ opens) g d =
      open_gates-IsDict r opens
        (record {
          unmatched = insert (gate_of sched) (queue_of (gate_of sched) g ++ sid ∷ []) g.unmatched;
          vertices = g.vertices ++ (sid, opened sid sched (lookup sid r.terminal)) ∷ [];
        })
        (insert-IsDict (gate_of sched) (queue_of (gate_of sched) g ++ sid ∷ []) g.unmatched d)

  -- the gate of an open
  abbrev pub owner_in : List (ℕ × Sched) → ℕ → Option String
  owner_in opens s = map_option gate_of (lookup s opens)

  pub opens_of-owner :
      (k : String) (opens : List (ℕ × Sched)) (s : ℕ)
      → IsDict opens
      → has s (opens_of k opens) ≡ true
      → owner_in opens s ≡ some k
  unfolding lookup
  opens_of-owner k [] s d h = absurd (ground arith)
  opens_of-owner k ((sid, sched) ∷ opens) s d h = ground (
    arith,
    opens_of-owner k opens s d.1,
    d.0,
    nat_key.agree_iff sid s,
    string_key.agree_iff (gate_of sched) k,
  )

  pub has-opens_of :
      (opens : List (ℕ × Sched)) (s : ℕ) (sched : Sched)
      → lookup s opens ≡ some sched
      → has s (opens_of (gate_of sched) opens) ≡ true
  unfolding lookup
  has-opens_of [] s sched h = absurd (ground arith)
  has-opens_of ((sid, first) ∷ opens) s sched h =
      ground (arith, has-opens_of opens s sched, ==_refl (gate_of sched))

  pub opens_of-NoDup :
      (k : String) (opens : List (ℕ × Sched)) → IsDict opens → NoDup (opens_of k opens)
  opens_of-NoDup k [] d = tt
  opens_of-NoDup k ((sid, sched) ∷ opens) d =
      ground (arith, opens_of-NoDup k opens d.1, opens_of-owner k opens sid d.1, d.0)

  -- An id that one key's queue holds stands under that key only.
  pub OnlyUnder-intro :
      (s : ℕ) (gate : String) (unmatched : Dict String (List ℕ))
      → IsDict unmatched
      → ((k : String) → has s (lookup_or [] k unmatched) ≡ true → k ≡ gate)
      → OnlyUnder s gate unmatched
  unfolding lookup lookup_or
  OnlyUnder-intro s gate [] d h = tt
  OnlyUnder-intro s gate ((j, queue) ∷ unmatched) d h = (
    (λ k. ground (arith, h j, ==_refl j)),
    OnlyUnder-intro s gate unmatched d.1
        (λ k held. ground (arith, h k, d.0, string_key.agree_iff j k)),
  )
