-- ===== src/Gateway/Graph/Layers.antt =====
-- The nodes of each layer (graph.py: the groups by layer in build_graph and critical_path).
use mathlib.Core.List.{append-nil, append_assoc}
use ancora.Prelude.{
  ℕ, ◌≡◌, refl, sym, ◌∙◌, ap, subst, ◌⊎◌, inl, inr, Bool, List, [], ◌∷◌, ◌++◌, keep_if, nat_eq_iff,
  ◌==◌, nat_key, In, In-keep_if, kept, In-sorted_set, sorted_set_from, sorted_set-IsAscending,
  IsAscending, arith, if◌then◌else◌, Bool-cases,
}
use ancora.Number.{Float, Num}
use ancora.Dict.{Dict, lookup, lookup_or, insert}
use ancora.Dict.Laws.{lookup-insert}
use ancora.Gateway.History.{Wire}
use ancora.Gateway.Graph.{GraphNode}
use ancora.Gateway.Graph.CriticalPath.{group, keys_of, sorted_keys}

module _ ⦃f : Float⦄ ⦃w : Wire Num⦄ where
  abbrev in_layer : ℕ → GraphNode → Bool
  in_layer k n = n.layer == k

  layer-insert :
      (j k : ℕ) (nodes : List GraphNode) (d : Dict ℕ (List GraphNode))
      → lookup_or [] k (insert j nodes d) ≡ (if j == k then nodes else lookup_or [] k d)
  unfolding lookup_or
  layer-insert j k nodes d = ground (arith, lookup-insert k j nodes d)

  layer-group :
      (k : ℕ) (d : Dict ℕ (List GraphNode)) (nodes : List GraphNode)
      → lookup_or [] k (group d nodes) ≡ lookup_or [] k d ++ keep_if (in_layer k) nodes
  unfolding group
  layer-group k d [] = sym (append-nil (lookup_or [] k d))
  layer-group k d (n ∷ nodes) =
      let longer = lookup_or [] n.layer d ++ n ∷ [] in
      let step = layer-insert n.layer k longer d in
      let rest = layer-group k (insert n.layer longer d) nodes in
      elim (Bool-cases (n.layer == k)) [
        | inl this ↦
            let e : lookup_or [] n.layer d ≡ lookup_or [] k d =
              ap (λ j. lookup_or [] j d) ((nat_eq_iff n.layer k).0 this) in
            rw this (
              rest
              ∙ (rw (step, this, e)
                  (append_assoc (lookup_or [] k d) (n ∷ []) (keep_if (in_layer k) nodes))))
        | inr other ↦ rw other (rest ∙ (rw (step, other) refl))
      ]

  keys-insert :
      (j k : ℕ) (nodes : List GraphNode) (d : Dict ℕ (List GraphNode))
      → (j ≡ k) ⊎ In k (keys_of d)
      → In k (keys_of (insert j nodes d))
  unfolding insert
  keys-insert j k nodes [] h = h
  keys-insert j k nodes ((i, v) ∷ d) h = ground (arith, keys-insert j k nodes d)

  keys-insert_cases :
      (j k : ℕ) (nodes : List GraphNode) (d : Dict ℕ (List GraphNode))
      → In k (keys_of (insert j nodes d))
      → (j ≡ k) ⊎ In k (keys_of d)
  unfolding insert
  keys-insert_cases j k nodes [] h = h
  keys-insert_cases j k nodes ((i, v) ∷ d) h = ground (arith, keys-insert_cases j k nodes d)

  keys-group_old :
      (k : ℕ) (d : Dict ℕ (List GraphNode)) (nodes : List GraphNode)
      → In k (keys_of d)
      → In k (keys_of (group d nodes))
  unfolding group
  keys-group_old k d [] h = h
  keys-group_old k d (n ∷ nodes) h =
      keys-group_old k (insert n.layer (lookup_or [] n.layer d ++ n ∷ []) d) nodes
        (keys-insert n.layer k (lookup_or [] n.layer d ++ n ∷ []) d (inr h))

  keys-group :
      (n : GraphNode) (d : Dict ℕ (List GraphNode)) (nodes : List GraphNode)
      → In n nodes
      → In n.layer (keys_of (group d nodes))
  unfolding group
  keys-group n d [] h = absurd h
  keys-group n d (m ∷ nodes) (inl e) =
      let longer = lookup_or [] m.layer d ++ m ∷ [] in
      keys-group_old n.layer (insert m.layer longer d) nodes
        (keys-insert m.layer n.layer longer d (inl (ap (λ (x : GraphNode). x.layer) e)))
  keys-group n d (m ∷ nodes) (inr h) =
      keys-group n (insert m.layer (lookup_or [] m.layer d ++ m ∷ []) d) nodes h

  keys-group_from :
      (k : ℕ) (d : Dict ℕ (List GraphNode)) (nodes : List GraphNode)
      → In k (keys_of (group d nodes))
      → In k (keys_of d) ⊎ ((n : GraphNode) × In n nodes × (n.layer ≡ k))
  unfolding group
  keys-group_from k d [] h = inl h
  keys-group_from k d (m ∷ nodes) h =
      let longer = lookup_or [] m.layer d ++ m ∷ [] in
      elim (keys-group_from k (insert m.layer longer d) nodes h) [
        | inl old ↦ elim (keys-insert_cases m.layer k longer d old) [
          | inl new ↦ inr (m, inl refl, new)
          | inr older ↦ inl older
        ]
        | inr (n, b, e) ↦ inr (n, inr b, e)
      ]

  -- the layers of a list of nodes, ascending
  abbrev pub layers : List GraphNode → List ℕ
  layers nodes = sorted_keys (group [] nodes)

  -- the nodes of a layer
  abbrev pub layer_of : ℕ → List GraphNode → List GraphNode
  layer_of k nodes = lookup_or [] k (group [] nodes)

  layer_of-keep_if :
      (k : ℕ) (nodes : List GraphNode) → layer_of k nodes ≡ keep_if (in_layer k) nodes
  unfolding lookup_or lookup
  layer_of-keep_if k nodes = layer-group k [] nodes

  pub In-layer_of :
      (k : ℕ) (n : GraphNode) (nodes : List GraphNode)
      → In n nodes
      → n.layer ≡ k
      → In n (layer_of k nodes)
  In-layer_of k n nodes h e =
      subst (In n) (sym (layer_of-keep_if k nodes))
        (In-keep_if (in_layer k) n nodes h ((nat_eq_iff n.layer k).1 e))

  pub layer_of-In :
      (k : ℕ) (n : GraphNode) (nodes : List GraphNode)
      → In n (layer_of k nodes)
      → In n nodes × (n.layer ≡ k)
  layer_of-In k n nodes h =
      let found = kept (in_layer k) n nodes (subst (In n) (layer_of-keep_if k nodes) h) in
      (found.0, (nat_eq_iff n.layer k).0 found.1)

  pub In-layers : (n : GraphNode) (nodes : List GraphNode) → In n nodes → In n.layer (layers nodes)
  In-layers n nodes h = In-sorted_set n.layer (keys_of (group [] nodes)) (keys-group n [] nodes h)

  pub layers-In :
      (k : ℕ) (nodes : List GraphNode)
      → In k (layers nodes)
      → (n : GraphNode) × In n nodes × (n.layer ≡ k)
  layers-In k nodes h =
      elim (keys-group_from k [] nodes (sorted_set_from k (keys_of (group [] nodes)) h)) [
        | inl none_yet ↦ absurd none_yet
        | inr found ↦ found
      ]

  pub layers-IsAscending : (nodes : List GraphNode) → IsAscending (layers nodes)
  layers-IsAscending nodes = sorted_set-IsAscending (keys_of (group [] nodes))
