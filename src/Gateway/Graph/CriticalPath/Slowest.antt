-- ===== src/Gateway/Graph/CriticalPath/Slowest.antt =====
-- What the critical path holds (graph.py: critical_path).
use ancora.Prelude.{
  ℕ, ◌+◌, nat_key, ◌≡◌, refl, sym, subst, inl, inr, Bool, true, false, String, List, [], ◌∷◌,
  length, length-append, In, In-append_left, In-append_right, arith, if◌then◌else◌,
}
use ancora.Number.{Float, Num, at_most}
use ancora.Number.Laws.{at_most_refl, at_most_of_not}
use ancora.Dict.{Dict, lookup_or}
use ancora.Gateway.History.{Wire}
use ancora.Gateway.Graph.{GraphNode}
use ancora.Gateway.Graph.CriticalPath.{
  group, weight, key_less, slowest, Walk, step_to, visit, walk, at_start, critical_path,
}
use ancora.Gateway.Graph.Layers.{layers, layer_of, In-layer_of, In-layers, layers-In}

module _ ⦃f : Float⦄ ⦃w : Wire Num⦄ where
  key_less-weight :
      (a b : GraphNode) → at_most (weight a) (weight (if key_less a b then b else a)) ≡ true
  unfolding key_less
  key_less-weight a b =
      ground (arith, at_most_refl (weight a), at_most_of_not (weight b) (weight a))

  key_less-weight_other :
      (a b : GraphNode) → at_most (weight b) (weight (if key_less a b then b else a)) ≡ true
  unfolding key_less
  key_less-weight_other a b =
      ground (arith, at_most_refl (weight b), at_most_of_not (weight a) (weight b))

  slowest_at_least :
      (best n : GraphNode) (nodes : List GraphNode)
      → at_most (weight n) (weight best) ≡ true
      → at_most (weight n) (weight (slowest best nodes)) ≡ true
  unfolding slowest
  slowest_at_least best n [] h = h
  slowest_at_least best n (m ∷ nodes) h =
      slowest_at_least (if key_less best m then m else best) n nodes (
        f.at_most_trans (weight n) (weight best) (weight (if key_less best m then m else best)) h
          (key_less-weight best m))

  pub slowest_bound :
      (best n : GraphNode) (nodes : List GraphNode)
      → In n (best ∷ nodes)
      → at_most (weight n) (weight (slowest best nodes)) ≡ true
  unfolding slowest
  slowest_bound best n nodes (inl e) =
      slowest_at_least best n nodes
        (subst (λ m. at_most (weight n) (weight m) ≡ true) (sym e) (at_most_refl (weight n)))
  slowest_bound best n [] (inr h) = absurd h
  slowest_bound best n (m ∷ nodes) (inr (inl e)) =
      let best' = if key_less best m then m else best in
      slowest_at_least best' n nodes
        (subst (λ k. at_most (weight k) (weight best') ≡ true) e (key_less-weight_other best m))
  slowest_bound best n (m ∷ nodes) (inr (inr h)) =
      slowest_bound (if key_less best m then m else best) n nodes (inr h)

  chosen :
      (b : Bool) (best m : GraphNode) (nodes : List GraphNode) (s : GraphNode)
      → In s ((if b then m else best) ∷ nodes)
      → In s (best ∷ m ∷ nodes)
  chosen true best m nodes s (inl e) = inr (inl e)
  chosen false best m nodes s (inl e) = inl e
  chosen b best m nodes s (inr h) = inr (inr h)

  pub slowest-In :
      (best : GraphNode) (nodes : List GraphNode) → In (slowest best nodes) (best ∷ nodes)
  unfolding slowest
  slowest-In best [] = inl refl
  slowest-In best (m ∷ nodes) =
      let best' = if key_less best m then m else best in
      chosen (key_less best m) best m nodes (slowest best' nodes) (slowest-In best' nodes)

  path-visit :
      (id : String) (nodes : List GraphNode) (s : Walk) → In id s.path → In id (visit nodes s).path
  unfolding visit step_to
  path-visit id [] s h = h
  path-visit id (n ∷ nodes) s h = In-append_left id s.path ((slowest n nodes).id ∷ []) h

  path-walk :
      (id : String) (ks : List ℕ) (d : Dict ℕ (List GraphNode)) (s : Walk)
      → In id s.path
      → In id (walk ks d s).path
  unfolding walk
  path-walk id [] d s h = h
  path-walk id (k ∷ ks) d s h =
      path-walk id ks d (visit (lookup_or [] k d) s) (path-visit id (lookup_or [] k d) s h)

  -- A layer's slowest node: on the path, and at least as slow as each of the layer.
  abbrev pub Leads : List String → List GraphNode → Type 0
  Leads path layer =
      (s : GraphNode) × In s layer
      × In s.id path
      × ((n : GraphNode) → In n layer → at_most (weight n) (weight s) ≡ true)

  visit-Leads :
      (n : GraphNode) (layer : List GraphNode) (s : Walk)
      → In n layer
      → Leads (visit layer s).path layer
  unfolding visit step_to
  visit-Leads n [] s h = absurd h
  visit-Leads n (m ∷ nodes) s h = (
    slowest m nodes,
    slowest-In m nodes,
    In-append_right (slowest m nodes).id s.path ((slowest m nodes).id ∷ []) (inl refl),
    (λ k b. slowest_bound m k nodes b),
  )

  walk-Leads :
      (n : GraphNode) (k : ℕ) (ks : List ℕ) (d : Dict ℕ (List GraphNode)) (s : Walk)
      → In k ks
      → In n (lookup_or [] k d)
      → Leads (walk ks d s).path (lookup_or [] k d)
  unfolding walk
  walk-Leads n k [] d s h b = absurd h
  walk-Leads n k (j ∷ ks) d s (inl e) b =
      let layer = lookup_or [] k d in
      let here = visit-Leads n layer s b in
      let s' = visit layer s in rw e (here.0, here.1, path-walk here.0.id ks d s' here.2, here.3)
  walk-Leads n k (j ∷ ks) d s (inr h) b = walk-Leads n k ks d (visit (lookup_or [] j d) s) h b

  abbrev has_one : List GraphNode → ℕ
  has_one [] = 0
  has_one (_ ∷ _) = 1

  path_length :
      (nodes : List GraphNode) (n : GraphNode) (s : Walk)
      → In n nodes
      → length (visit nodes s).path ≡ length s.path + 1
  unfolding visit step_to
  path_length [] n s h = absurd h
  path_length (m ∷ nodes) n s h = length-append s.path ((slowest m nodes).id ∷ [])

  length-walk :
      (ks : List ℕ) (nodes : List GraphNode) (s : Walk)
      → ((k : ℕ) → In k ks → In k (layers nodes))
      → length (walk ks (group [] nodes) s).path ≡ length s.path + length ks
  unfolding walk
  length-walk [] nodes s h = omega arith
  length-walk (k ∷ ks) nodes s h =
      let (n, b, e) = layers-In k nodes (h k (inl refl)) in
      let layer = layer_of k nodes in
      omega (
        arith,
        length-walk ks nodes (visit layer s) (λ j i. h j (inr i)),
        path_length layer n s (In-layer_of k n nodes b e),
      )

  -- The critical path has one id for each layer; and among those of every layer that a node is in
  -- stands the id of one of the layer's nodes that no node of the layer outlasts. A duration that
  -- is not measured, or is zero, counts as -1 here.
  pub critical_path-slowest :
      (nodes : List GraphNode)
      → (length (critical_path nodes).0 ≡ length (layers nodes))
        × ((n : GraphNode) → In n nodes → Leads (critical_path nodes).0 (layer_of n.layer nodes))
  unfolding critical_path
  critical_path-slowest nodes = (
    omega (arith, length-walk (layers nodes) nodes at_start (λ k h. h)),
    (λ n h.
        walk-Leads n n.layer (layers nodes) (group [] nodes) at_start (In-layers n nodes h)
          (In-layer_of n.layer n nodes h refl)),
  )
