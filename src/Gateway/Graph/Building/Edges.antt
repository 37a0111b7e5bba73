-- ===== src/Gateway/Graph/Building/Edges.antt =====
-- The edges between layers (graph.py: build_graph).
use ancora.Prelude.{
  ℕ, ◌<◌, ◌≤◌, ◌≡◌, ◌↔◌, refl, sym, ap, subst, ◌⊎◌, inl, inr, List, [], ◌∷◌, nat_key, In,
  In-append_left, In-append_right, In-append_cases, IsAscending, arith,
}
use ancora.Number.{Float, Num}
use ancora.Dict.{Dict, lookup_or}
use ancora.Gateway.History.{Wire}
use ancora.Gateway.Graph.{GraphNode}
use ancora.Gateway.Graph.CriticalPath.{group}
use ancora.Gateway.Graph.Layers.{
  layers, layer_of, In-layer_of, layer_of-In, In-layers, layers-In, layers-IsAscending,
}
use ancora.Gateway.Graph.Building.{GraphEdge, edge, edges_from, edges_between, edges_along, edges}

-- Two numbers that stand one after the other.
abbrev Steps : ℕ → ℕ → List ℕ → Type 0
Steps a b [] = ⊥
Steps a b (k ∷ []) = ⊥
Steps a b (k ∷ l ∷ ks) = ((k ≡ a) × (l ≡ b)) ⊎ Steps a b (l ∷ ks)

-- Nothing of a list lies between two numbers.
abbrev NoneBetween : ℕ → ℕ → List ℕ → Type 0
NoneBetween a b ks = (k : ℕ) → In k ks → (k ≤ a) ⊎ (b ≤ k)

between :
    (a b k l : ℕ) (ks : List ℕ) (j : ℕ)
    → k ≡ a
    → l ≡ b
    → ((i : ℕ) → In i ks → l < i)
    → In j (k ∷ l ∷ ks)
    → (j ≤ a) ⊎ (b ≤ j)
between a b k l ks j e d above (inl i) = inl (omega arith)
between a b k l ks j e d above (inr (inl i)) = inr (omega arith)
between a b k l ks j e d above (inr (inr i)) = inr (omega (arith, above j i))

before_steps :
    (a b k : ℕ) (ks : List ℕ) (j : ℕ)
    → k < a
    → In j (k ∷ ks)
    → (In j ks → (j ≤ a) ⊎ (b ≤ j))
    → (j ≤ a) ⊎ (b ≤ j)
before_steps a b k ks j lt (inl e) gap = inl (omega arith)
before_steps a b k ks j lt (inr i) gap = gap i

next_is :
    (a b k l : ℕ) (ks : List ℕ)
    → IsAscending (k ∷ l ∷ ks)
    → k ≡ a
    → In b (k ∷ l ∷ ks)
    → a < b
    → (l ≤ a) ⊎ (b ≤ l)
    → l ≡ b
next_is a b k l ks h e (inl d) lt gap = absurd (omega arith)
next_is a b k l ks h e (inr (inl d)) lt gap = d
next_is a b k l ks h e (inr (inr i)) lt (inl gap) = absurd (omega (arith, h.0 l (inl refl)))
next_is a b k l ks h e (inr (inr i)) lt (inr gap) = absurd (omega (arith, h.1.0 b i))

Steps-In :
    (a b : ℕ) (ks : List ℕ)
    → IsAscending ks
    → Steps a b ks
    → In a ks × In b ks × (a < b) × NoneBetween a b ks
Steps-In a b [] h s = absurd s
Steps-In a b (k ∷ []) h s = absurd s
Steps-In a b (k ∷ l ∷ ks) h (inl (e, d)) =
    (inl e, inr (inl d), ground (arith, h.0 l), (λ j i. between a b k l ks j e d h.1.0 i))
Steps-In a b (k ∷ l ∷ ks) h (inr s) =
    let (p, q, lt, gap) = Steps-In a b (l ∷ ks) h.1 s in
    (inr p, inr q, lt, (λ j i. before_steps a b k (l ∷ ks) j (h.0 a p) i (gap j)))

Steps-intro :
    (a b : ℕ) (ks : List ℕ)
    → IsAscending ks
    → In a ks
    → In b ks
    → a < b
    → NoneBetween a b ks
    → Steps a b ks
Steps-intro a b [] h p q lt gap = absurd p
Steps-intro a b (k ∷ []) h (inl e) (inl d) lt gap = absurd (omega arith)
Steps-intro a b (k ∷ []) h (inr p) q lt gap = absurd p
Steps-intro a b (k ∷ []) h p (inr q) lt gap = absurd q
Steps-intro a b (k ∷ l ∷ ks) h (inl e) q lt gap =
    inl (e, next_is a b k l ks h e q lt (gap l (inr (inl refl))))
Steps-intro a b (k ∷ l ∷ ks) h (inr p) (inl d) lt gap =
    let above : k < a = h.0 a p in absurd (omega arith)
Steps-intro a b (k ∷ l ∷ ks) h (inr p) (inr q) lt gap =
    inr (Steps-intro a b (l ∷ ks) h.1 p q lt (λ j i. gap j (inr i)))

module _ ⦃f : Float⦄ ⦃w : Wire Num⦄ where
  In-edges_from :
      (src dst : GraphNode) (layer : List GraphNode)
      → In dst layer
      → In (edge src dst) (edges_from src layer)
  unfolding edges_from
  In-edges_from src dst [] h = absurd h
  In-edges_from src dst (n ∷ layer) (inl e) = inl (ap (edge src) e)
  In-edges_from src dst (n ∷ layer) (inr h) = inr (In-edges_from src dst layer h)

  edges_from-In :
      (e : GraphEdge) (src : GraphNode) (layer : List GraphNode)
      → In e (edges_from src layer)
      → (dst : GraphNode) × In dst layer × (edge src dst ≡ e)
  unfolding edges_from
  edges_from-In e src [] h = absurd h
  edges_from-In e src (n ∷ layer) (inl same) = (n, inl refl, same)
  edges_from-In e src (n ∷ layer) (inr h) =
      let (dst, b, same) = edges_from-In e src layer h in (dst, inr b, same)

  In-edges_between :
      (src dst : GraphNode) (nodes layer : List GraphNode)
      → In src nodes
      → In dst layer
      → In (edge src dst) (edges_between nodes layer)
  unfolding edges_between
  In-edges_between src dst [] layer h k = absurd h
  In-edges_between src dst (n ∷ nodes) layer (inl e) k =
      In-append_left (edge src dst) (edges_from n layer) (edges_between nodes layer) (
        subst (λ m. In (edge src dst) (edges_from m layer)) (sym e) (In-edges_from src dst layer k))
  In-edges_between src dst (n ∷ nodes) layer (inr h) k =
      In-append_right (edge src dst) (edges_from n layer) (edges_between nodes layer)
        (In-edges_between src dst nodes layer h k)

  edges_between-In :
      (e : GraphEdge) (nodes layer : List GraphNode)
      → In e (edges_between nodes layer)
      → (src dst : GraphNode) × In src nodes × In dst layer × (edge src dst ≡ e)
  unfolding edges_between
  edges_between-In e [] layer h = absurd h
  edges_between-In e (n ∷ nodes) layer h =
      elim (In-append_cases e (edges_from n layer) (edges_between nodes layer) h) [
        | inl here ↦
            let (dst, b, same) = edges_from-In e n layer here in (n, dst, inl refl, b, same)
        | inr later ↦
            let (src, dst, a, b, same) = edges_between-In e nodes layer later in
            (src, dst, inr a, b, same)
      ]

  In-edges_along :
      (e : GraphEdge) (a b : ℕ) (d : Dict ℕ (List GraphNode)) (ks : List ℕ)
      → Steps a b ks
      → In e (edges_between (lookup_or [] a d) (lookup_or [] b d))
      → In e (edges_along d ks)
  unfolding edges_along
  In-edges_along e a b d [] s h = absurd s
  In-edges_along e a b d (k ∷ []) s h = absurd s
  In-edges_along e a b d (k ∷ l ∷ ks) (inl (p, q)) h =
      rw (p, q)
        (In-append_left e (edges_between (lookup_or [] a d) (lookup_or [] b d))
          (edges_along d (l ∷ ks)) h)
  In-edges_along e a b d (k ∷ l ∷ ks) (inr s) h =
      In-append_right e (edges_between (lookup_or [] k d) (lookup_or [] l d))
        (edges_along d (l ∷ ks)) (In-edges_along e a b d (l ∷ ks) s h)

  edges_along-In :
      (e : GraphEdge) (d : Dict ℕ (List GraphNode)) (ks : List ℕ)
      → In e (edges_along d ks)
      → (a b : ℕ) × Steps a b ks × In e (edges_between (lookup_or [] a d) (lookup_or [] b d))
  unfolding edges_along
  edges_along-In e d [] h = absurd h
  edges_along-In e d (k ∷ []) h = absurd h
  edges_along-In e d (k ∷ l ∷ ks) h =
      elim (In-append_cases e (edges_between (lookup_or [] k d) (lookup_or [] l d))
        (edges_along d (l ∷ ks)) h) [
          | inl here ↦ (k, l, inl (refl, refl), here)
          | inr later ↦ let (a, b, s, i) = edges_along-In e d (l ∷ ks) later in (a, b, inr s, i)
        ]

  -- A node's layer comes next after another's.
  abbrev Follows : GraphNode → GraphNode → List GraphNode → Type 0
  Follows src dst nodes =
      (src.layer < dst.layer)
      × ((n : GraphNode) → In n nodes → (n.layer ≤ src.layer) ⊎ (dst.layer ≤ n.layer))

  -- A node of the list and one of the list's next layer have an edge, and there are no other edges.
  pub edges_lem :
      (nodes : List GraphNode) (e : GraphEdge)
      → In e (edges nodes) ↔ (
          (src dst : GraphNode) × In src nodes
          × In dst nodes
          × Follows src dst nodes
          × (edge src dst ≡ e))
  unfolding edges
  edges_lem nodes e = (
    (λ h.
        let (a, b, s, i) = edges_along-In e (group [] nodes) (layers nodes) h in
        let (src, dst, p, q, same) = edges_between-In e (layer_of a nodes) (layer_of b nodes) i in
        let (in_a, in_b, lt, gap) = Steps-In a b (layers nodes) (layers-IsAscending nodes) s in
        let (p', ea) = layer_of-In a src nodes p in
        let (q', eb) = layer_of-In b dst nodes q in
        let follows : Follows src dst nodes =
          (omega arith, λ n i. ground (arith, gap n.layer (In-layers n nodes i))) in
        (src, dst, p', q', follows, same)),
    (λ h.
        let (src, dst, p, q, follows, same) = h in
        let gap : NoneBetween src.layer dst.layer (layers nodes) =
          λ k i. let (n, b, ek) = layers-In k nodes i in ground (arith, follows.1 n b) in
        subst (λ x. In x (edges nodes)) same
          (In-edges_along (edge src dst) src.layer dst.layer (group [] nodes) (layers nodes)
            (Steps-intro src.layer dst.layer (layers nodes) (layers-IsAscending nodes)
              (In-layers src nodes p) (In-layers dst nodes q) follows.0 gap)
            (In-edges_between src dst (layer_of src.layer nodes) (layer_of dst.layer nodes)
              (In-layer_of src.layer src nodes p refl) (In-layer_of dst.layer dst nodes q refl)))),
  )
