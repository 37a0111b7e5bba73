-- ===== src/Gateway/Graph/Building/Ranks.antt =====
-- The ranks of the layers (graph.py: build_graph).
use ancora.Prelude.{
  ℕ, ◌+◌, ◌<◌, ◌≤◌, ◌≡◌, ◌↔◌, refl, ◌∙◌, ap, inl, inr, List, [], ◌∷◌, length, nat_eq, ◌==◌, nat_key,
  In, In-sorted_set, sorted_set_from, sorted_set, sorted_set-IsAscending, IsAscending, arith,
  if◌then◌else◌, Bool-cases,
}
use ancora.Number.{Float, Num}
use ancora.Dict.{lookup, lookup_or}
use ancora.Gateway.History.{Wire}
use ancora.Gateway.Graph.{Vertex}
use ancora.Gateway.Graph.Building.{layer_keys, ranks_from, ranks}

-- the rank of a key, from the first rank
abbrev rank_in : ℕ → ℕ → List ℕ → ℕ
rank_in k i ks = lookup_or 0 k (ranks_from i ks)

rank_in-cons :
    (k m i : ℕ) (ks : List ℕ) → rank_in k i (m ∷ ks) ≡ (if m == k then i else rank_in k (i + 1) ks)
unfolding lookup_or lookup
rank_in-cons k m i ks = ground arith

rank_in_bounds :
    (k i : ℕ) (ks : List ℕ) → In k ks → (i ≤ rank_in k i ks) × (rank_in k i ks < i + length ks)
rank_in_bounds k i [] h = absurd h
rank_in_bounds k i (m ∷ ks) (inl e) = ground (arith, rank_in-cons k m i ks)
rank_in_bounds k i (m ∷ ks) (inr h) =
    ground (arith, rank_in-cons k m i ks, rank_in_bounds k (i + 1) ks h)

rank_in_mono :
    (k l i : ℕ) (ks : List ℕ)
    → IsAscending ks
    → In k ks
    → In l ks
    → k < l
    → rank_in k i ks < rank_in l i ks
rank_in_mono k l i [] a h j lt = absurd h
rank_in_mono k l i (m ∷ ks) a (inl e) (inl d) lt = absurd (omega arith)
rank_in_mono k l i (m ∷ ks) a (inl e) (inr j) lt =
    ground (arith, rank_in-cons k m i ks, rank_in-cons l m i ks, rank_in_bounds l (i + 1) ks j)
rank_in_mono k l i (m ∷ ks) a (inr h) (inl d) lt =
    let above : m < k = a.0 k h in absurd (omega arith)
rank_in_mono k l i (m ∷ ks) a (inr h) (inr j) lt = ground (
  arith,
  rank_in-cons k m i ks,
  rank_in-cons l m i ks,
  a.0 k h,
  a.0 l j,
  rank_in_mono k l (i + 1) ks a.1 h j lt,
)

rank_in_onto :
    (j i : ℕ) (ks : List ℕ)
    → IsAscending ks
    → i ≤ j
    → j < i + length ks
    → (k : ℕ) × In k ks × (rank_in k i ks ≡ j)
rank_in_onto j i [] a low high = absurd (omega arith)
rank_in_onto j i (m ∷ ks) a low high = elim (Bool-cases (nat_eq i j)) [
  | inl here ↦ (m, inl refl, ground (arith, rank_in-cons m m i ks))
  | inr later ↦
      let (k, h, e) = rank_in_onto j (i + 1) ks a.1 (ground arith) (omega arith) in
      (k, inr h, ground (arith, rank_in-cons k m i ks, a.0 k h))
]

module _ ⦃f : Float⦄ ⦃w : Wire Num⦄ where
  In-layer_keys :
      (v : Vertex) (vertices : List Vertex) → In v vertices → In v.layer_key (layer_keys vertices)
  In-layer_keys v [] h = absurd h
  In-layer_keys v (u ∷ vertices) (inl e) = inl (ap (λ (x : Vertex). x.layer_key) e)
  In-layer_keys v (u ∷ vertices) (inr h) = inr (In-layer_keys v vertices h)

  layer_keys-In :
      (k : ℕ) (vertices : List Vertex)
      → In k (layer_keys vertices)
      → (v : Vertex) × In v vertices × (v.layer_key ≡ k)
  layer_keys-In k [] h = absurd h
  layer_keys-In k (u ∷ vertices) (inl e) = (u, inl refl, e)
  layer_keys-In k (u ∷ vertices) (inr h) =
      let (v, b, e) = layer_keys-In k vertices h in (v, inr b, e)

  -- the layer that a vertex is given
  abbrev pub rank : List Vertex → Vertex → ℕ
  rank vertices v = lookup_or 0 v.layer_key (ranks vertices)

  known :
      (v : Vertex) (vertices : List Vertex)
      → In v vertices
      → In v.layer_key (sorted_set (layer_keys vertices))
  known v vertices h = In-sorted_set v.layer_key (layer_keys vertices) (In-layer_keys v vertices h)

  rank_mono :
      (u v : Vertex) (vertices : List Vertex)
      → In u vertices
      → In v vertices
      → u.layer_key < v.layer_key
      → rank vertices u < rank vertices v
  unfolding ranks
  rank_mono u v vertices h k lt =
      rank_in_mono u.layer_key v.layer_key 0 (sorted_set (layer_keys vertices))
        (sorted_set-IsAscending (layer_keys vertices)) (known u vertices h) (known v vertices k) lt

  -- Layers are ordered as the workflow tasks that decided on them, and vertices that one task
  -- decided on share a layer; and there is no empty layer below a vertex.
  pub rank_lem :
      (vertices : List Vertex) (u v : Vertex)
      → In u vertices
      → In v vertices
      → ((rank vertices u < rank vertices v) ↔ (u.layer_key < v.layer_key))
        × ((j : ℕ) → j ≤ rank vertices v → (x : Vertex) × In x vertices × (rank vertices x ≡ j))
  unfolding ranks
  rank_lem vertices u v h k =
      let keys = sorted_set (layer_keys vertices) in
      let ascending = sorted_set-IsAscending (layer_keys vertices) in
      (
        (
          (λ lt. ground (
            arith,
            rank_mono v u vertices k h,
            ap (λ (key : ℕ). lookup_or 0 key (ranks_from 0 keys)) {x = u.layer_key}
                {y = v.layer_key},
          )),
          rank_mono u v vertices h k,
        ),
        (λ j low.
            let (key, b, e) =
              rank_in_onto j 0 keys ascending (omega arith)
                (omega (arith, (rank_in_bounds v.layer_key 0 keys (known v vertices k)).1)) in
            let (x, c, same) =
              layer_keys-In key vertices (sorted_set_from key (layer_keys vertices) b) in
            (x, c, ap (λ (i : ℕ). rank_in i 0 keys) same ∙ e)),
      )
