-- ===== src/Gateway/Graph/CriticalPath/Seconds.antt =====
-- The time of the critical path (graph.py: critical_path).
use ancora.Prelude.{
  ℕ, ◌≡◌, refl, sym, ◌∙◌, ap, subst, inl, inr, true, false, Option, none, some, List, [], ◌∷◌,
  nat_key, In, arith, Bool-cases,
}
use ancora.Number.{Float, Num, fnum, plus, at_most, same}
use ancora.Number.Laws.{at_most_refl}
use ancora.Gateway.History.{Wire}
use ancora.Gateway.Graph.{GraphNode}
use ancora.Gateway.Graph.CriticalPath.{
  group, minus_one, weight_of, weight, slowest, Walk, plus_duration, step_to, visit, walk, at_start,
  critical_path,
}
use ancora.Gateway.Graph.Layers.{layers, layer_of, In-layer_of, layer_of-In, In-layers}
use ancora.Gateway.Graph.CriticalPath.Slowest.{slowest_bound, slowest-In}

module _ ⦃f : Float⦄ ⦃w : Wire Num⦄ where
  -- A duration that was measured is not negative, as `duration` makes it.
  abbrev pub NonNegative : Option Num → Type 0
  NonNegative none = Unit
  NonNegative (some d) = at_most (fnum 0) d ≡ true

  abbrev Measured : List GraphNode → Type 0
  Measured nodes = (n : GraphNode) → In n nodes → NonNegative n.duration_seconds

  below_minus_one : (d : Num) → at_most d (fnum 0) ≡ false → at_most d minus_one ≡ false
  below_minus_one d h =
      let low = f.minus_at_most (fnum 0) (fnum 1) (f.of_ℕ_mono 0 1 (omega arith)) in
      elim (Bool-cases (at_most d minus_one)) [
        | inl under ↦ absurd (ground (arith, f.at_most_trans d minus_one (fnum 0) under low))
        | inr over ↦ over
      ]

  -- a weight that is no less than a positive time is a measured one
  weighs :
      (d : Num) (o : Option Num)
      → at_most d (fnum 0) ≡ false
      → at_most d (weight_of o) ≡ true
      → (e : Num) × (o ≡ some e) × (at_most d e ≡ true)
  weighs d none h k = absurd (ground (arith, below_minus_one d h))
  weighs d (some e) h k = (e, refl, ground (arith, below_minus_one d h))

  weight_of_positive : (d : Num) → at_most d (fnum 0) ≡ false → weight_of (some d) ≡ d
  weight_of_positive d h = ground arith

  plus_duration_at_least :
      (d total : Num) (o : Option Num)
      → NonNegative o
      → at_most d total ≡ true
      → at_most d (plus_duration total o) ≡ true
  plus_duration_at_least d total none h k = k
  plus_duration_at_least d total (some e) h k =
      f.at_most_trans d total (plus total e) k (f.at_most_plus total e h)

  visit_at_least :
      (d : Num) (layer : List GraphNode) (s : Walk)
      → Measured layer
      → at_most d s.seconds ≡ true
      → at_most d (visit layer s).seconds ≡ true
  unfolding visit step_to
  visit_at_least d [] s m h = h
  visit_at_least d (n ∷ layer) s m h =
      plus_duration_at_least d s.seconds (slowest n layer).duration_seconds
        (m (slowest n layer) (slowest-In n layer)) h

  visit_measured :
      (layer : List GraphNode) (s : Walk) → s.measured ≡ true → (visit layer s).measured ≡ true
  unfolding visit step_to
  visit_measured [] s h = h
  visit_measured (n ∷ layer) s h = ground arith

  in_layer-Measured :
      (k : ℕ) (nodes : List GraphNode) → Measured nodes → Measured (layer_of k nodes)
  in_layer-Measured k nodes m n h = m n (layer_of-In k n nodes h).0

  -- The time so far is measured, and no less than a given one.
  abbrev Reached : Num → Walk → Type 0
  Reached d s = (s.measured ≡ true) × (at_most d s.seconds ≡ true)

  visit_keeps :
      (d : Num) (layer : List GraphNode) (s : Walk)
      → Measured layer
      → Reached d s
      → Reached d (visit layer s)
  visit_keeps d layer s m r = (visit_measured layer s r.0, visit_at_least d layer s m r.1)

  step_reaches :
      (d : Num) (m : GraphNode) (s : Walk)
      → at_most d (fnum 0) ≡ false
      → at_most d (weight m) ≡ true
      → at_most (fnum 0) s.seconds ≡ true
      → Reached d (step_to m s)
  unfolding step_to
  step_reaches d m s pos heavy nonneg =
      let (e, known, le) = weighs d m.duration_seconds pos heavy in
      let more : at_most e (plus s.seconds e) ≡ true =
        rw (f.plus_comm s.seconds e) (f.at_most_plus e s.seconds nonneg) in
      rw known (refl, f.at_most_trans d e (plus s.seconds e) le more)

  visit_reaches :
      (d : Num) (n : GraphNode) (layer : List GraphNode) (s : Walk)
      → In n layer
      → n.duration_seconds ≡ some d
      → at_most d (fnum 0) ≡ false
      → at_most (fnum 0) s.seconds ≡ true
      → Reached d (visit layer s)
  unfolding visit
  visit_reaches d n [] s h e pos nonneg = absurd h
  visit_reaches d n (m ∷ layer) s h e pos nonneg =
      let heavy : weight n ≡ d = ap weight_of e ∙ weight_of_positive d pos in
      step_reaches d (slowest m layer) s pos
        (subst (λ x. at_most x (weight (slowest m layer)) ≡ true) heavy (slowest_bound m n layer h))
        nonneg

  walk_keeps :
      (d : Num) (ks : List ℕ) (nodes : List GraphNode) (s : Walk)
      → Measured nodes
      → Reached d s
      → Reached d (walk ks (group [] nodes) s)
  unfolding walk
  walk_keeps d [] nodes s m r = r
  walk_keeps d (k ∷ ks) nodes s m r =
      walk_keeps d ks nodes (visit (layer_of k nodes) s) m
        (visit_keeps d (layer_of k nodes) s (in_layer-Measured k nodes m) r)

  walk_reaches :
      (d : Num) (n : GraphNode) (ks : List ℕ) (nodes : List GraphNode) (s : Walk)
      → Measured nodes
      → In n nodes
      → In n.layer ks
      → n.duration_seconds ≡ some d
      → at_most d (fnum 0) ≡ false
      → at_most (fnum 0) s.seconds ≡ true
      → Reached d (walk ks (group [] nodes) s)
  unfolding walk
  walk_reaches d n [] nodes s m h k e pos nonneg = absurd k
  walk_reaches d n (j ∷ ks) nodes s m h (inl same) e pos nonneg =
      walk_keeps d ks nodes (visit (layer_of j nodes) s) m
        (visit_reaches d n (layer_of j nodes) s (In-layer_of j n nodes h (sym same)) e pos nonneg)
  walk_reaches d n (j ∷ ks) nodes s m h (inr later) e pos nonneg =
      walk_reaches d n ks nodes (visit (layer_of j nodes) s) m h later e pos
        (visit_at_least (fnum 0) (layer_of j nodes) s (in_layer-Measured j nodes m) nonneg)

  -- Where no duration is negative and a node has a positive one, the critical path has a time, and
  -- before it is rounded that is no less than the node's.
  pub critical_path_seconds_lem :
      (nodes : List GraphNode) (n : GraphNode) (d : Num)
      → ((m : GraphNode) → In m nodes → NonNegative m.duration_seconds)
      → In n nodes
      → n.duration_seconds ≡ some d
      → at_most d (fnum 0) ≡ false
      → (t : Num) × ((critical_path nodes).1 ≡ some (w.rounded t 6)) × (at_most d t ≡ true)
  unfolding critical_path
  critical_path_seconds_lem nodes n d m h e pos =
      let s = walk (layers nodes) (group [] nodes) at_start in
      let (measured, le) =
        walk_reaches d n (layers nodes) nodes at_start m h (In-layers n nodes h) e pos
          (at_most_refl (fnum 0)) in
      (s.seconds, rw measured refl, le)
