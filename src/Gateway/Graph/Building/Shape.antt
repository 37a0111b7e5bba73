-- ===== src/Gateway/Graph/Building/Shape.antt =====
-- The shape of a built graph (graph.py: build_graph).
use ancora.Prelude.{
  ℕ, suc, ◌≤◌, ◌≡◌, ◌↔◌, refl, sym, ◌∙◌, ap, subst, inl, inr, List, [], ◌∷◌, In, In-sort_by,
  sort_by-In, sort_by, arith,
}
use ancora.Number.{Float, Num}
use ancora.Gateway.History.{Wire}
use ancora.Gateway.Graph.{GraphNode, Vertex}
use ancora.Gateway.Graph.Labels.{wanted, disambiguate-wanted}
use ancora.Gateway.Graph.Building.{GraphEdge, edge, edges, ranks, placed, node_at_most, nodes_of}
use ancora.Gateway.Graph.Building.Edges.{edges_lem}
use ancora.Gateway.Graph.Building.Ranks.{rank, rank_lem}

module _ ⦃f : Float⦄ ⦃w : Wire Num⦄ where
  abbrev layer_list : List GraphNode → List ℕ
  layer_list [] = []
  layer_list (n ∷ nodes) = n.layer ∷ layer_list nodes

  In-layer_list :
      (n : GraphNode) (nodes : List GraphNode) → In n nodes → In n.layer (layer_list nodes)
  In-layer_list n [] h = absurd h
  In-layer_list n (m ∷ nodes) (inl e) = inl (ap (λ (x : GraphNode). x.layer) e)
  In-layer_list n (m ∷ nodes) (inr h) = inr (In-layer_list n nodes h)

  layer_list-In :
      (k : ℕ) (nodes : List GraphNode)
      → In k (layer_list nodes)
      → (n : GraphNode) × In n nodes × (n.layer ≡ k)
  layer_list-In k [] h = absurd h
  layer_list-In k (m ∷ nodes) (inl e) = (m, inl refl, e)
  layer_list-In k (m ∷ nodes) (inr h) = let (n, b, e) = layer_list-In k nodes h in (n, inr b, e)

  wanted-layers :
      (all before nodes : List GraphNode) → layer_list (wanted all before nodes) ≡ layer_list nodes
  unfolding wanted
  wanted-layers all before [] = refl
  wanted-layers all before (n ∷ nodes) = ground (arith, wanted-layers all (n ∷ before) nodes)

  placed-In :
      (vertices us : List Vertex) (n : GraphNode)
      → In n (placed (ranks vertices) us)
      → (v : Vertex) × In v us × (n.layer ≡ rank vertices v)
  unfolding placed
  placed-In vertices [] n h = absurd h
  placed-In vertices (u ∷ us) n (inl e) = (u, inl refl, ap (λ (x : GraphNode). x.layer) (sym e))
  placed-In vertices (u ∷ us) n (inr h) = let (v, b, e) = placed-In vertices us n h in (v, inr b, e)

  In-placed :
      (vertices us : List Vertex) (v : Vertex)
      → In v us
      → (n : GraphNode) × In n (placed (ranks vertices) us) × (n.layer ≡ rank vertices v)
  unfolding placed
  In-placed vertices [] v h = absurd h
  In-placed vertices (u ∷ us) v (inl e) = (_, inl refl, ap (rank vertices) e)
  In-placed vertices (u ∷ us) v (inr h) = let (n, b, e) = In-placed vertices us v h in (n, inr b, e)

  layers_kept :
      (vertices : List Vertex)
      → layer_list (nodes_of vertices)
        ≡ layer_list (sort_by node_at_most (placed (ranks vertices) vertices))
  unfolding nodes_of
  layers_kept vertices =
      let nodes = sort_by node_at_most (placed (ranks vertices) vertices) in
      ap layer_list (disambiguate-wanted nodes) ∙ wanted-layers nodes [] nodes

  -- There is no empty layer below a node.
  no_gap :
      (vertices : List Vertex) (n : GraphNode) (j : ℕ)
      → In n (nodes_of vertices)
      → j ≤ n.layer
      → (m : GraphNode) × In m (nodes_of vertices) × (m.layer ≡ j)
  no_gap vertices n j h low =
      let nodes = placed (ranks vertices) vertices in
      let kept = layers_kept vertices in
      let (n', b, e) =
        layer_list-In n.layer (sort_by node_at_most nodes)
          (subst (In n.layer) kept (In-layer_list n (nodes_of vertices) h)) in
      let (v, c, ev) = placed-In vertices vertices n' (sort_by-In node_at_most n' nodes b) in
      let (u, d, eu) = (rank_lem vertices v v c c).1 j (omega arith) in
      let (m, i, em) = In-placed vertices vertices u d in
      layer_list-In j (nodes_of vertices) (
        subst (In j) (sym kept) (
          subst (λ k. In k (layer_list (sort_by node_at_most nodes))) (em ∙ eu)
            (In-layer_list m (sort_by node_at_most nodes) (In-sort_by node_at_most m nodes i))))

  -- A graph's layers are consecutive, and its edges join each node with each node of the next
  -- layer, and no others.
  pub edges-nodes_of :
      (vertices : List Vertex) (e : GraphEdge)
      → In e (edges (nodes_of vertices)) ↔ (
          (src dst : GraphNode) × In src (nodes_of vertices)
          × In dst (nodes_of vertices)
          × (dst.layer ≡ suc src.layer)
          × (edge src dst ≡ e))
  edges-nodes_of vertices e =
      let nodes = nodes_of vertices in
      (
        (λ h.
            let (src, dst, p, q, follows, same) = (edges_lem nodes e).0 h in
            let (m, i, em) = no_gap vertices dst (suc src.layer) q follows.0 in
            (src, dst, p, q, ground (arith, follows.1 m i), same)),
        (λ h.
            let (src, dst, p, q, next, same) = h in
            (edges_lem nodes e).1 (src, dst, p, q, (omega arith, λ n i. ground (arith)), same)),
      )
