-- ===== src/Gateway/Graph/Labels.antt =====
-- Repeated labels (graph.py: _disambiguate).
use ancora.Prelude.{
  ℕ, ◌+◌, ◌≡◌, refl, ap, inl, inr, Bool-cases, false, not, String, List, [], ◌∷◌, ltb, ◌==◌,
  string_key, decimal, join, arith, count_if, if◌then◌else◌,
}
use ancora.Number.{Float, Num}
use ancora.Dict.{Dict, lookup, lookup_or, bump}
use ancora.Dict.Totals.{total, total-bump}
use ancora.Gateway.History.{Wire}
use ancora.Gateway.Graph.{GraphNode}

abbrev numbered : String → ℕ → String
numbered label k = join (label ∷ " #" ∷ decimal k ∷ [])

module _ ⦃f : Float⦄ ⦃w : Wire Num⦄ where
  -- counts[n.label] = counts.get(n.label, 0) + 1
  unfoldable pub count_labels : Dict String ℕ → List GraphNode → Dict String ℕ
  count_labels counts [] = counts
  count_labels counts (n ∷ nodes) = count_labels (bump n.label counts) nodes

  -- the second loop; a label that was counted has a count
  unfoldable pub number_labels : Dict String ℕ → Dict String ℕ → List GraphNode → List GraphNode
  number_labels counts seen [] = []
  number_labels counts seen (n ∷ nodes) =
      let repeated = not (ltb (lookup_or 0 n.label counts) 2) in
      let seen' = if repeated then bump n.label seen else seen in
      (if repeated then record n { label = numbered n.label (lookup_or 0 n.label seen') } else n)
      ∷ number_labels counts seen' nodes

  -- _disambiguate
  unfoldable pub disambiguate : List GraphNode → List GraphNode
  disambiguate nodes = number_labels (count_labels [] nodes) [] nodes

  -- how often a label occurs
  abbrev occurs : String → List GraphNode → ℕ
  occurs label nodes = count_if (λ (n : GraphNode). n.label == label) nodes

  count_labels_lem :
      (label : String) (counts : Dict String ℕ) (nodes : List GraphNode)
      → total label (count_labels counts nodes) ≡ total label counts + occurs label nodes
  unfolding count_labels
  count_labels_lem label counts [] = omega arith
  count_labels_lem label counts (n ∷ nodes) =
      ground
        (arith, count_labels_lem label (bump n.label counts) nodes, total-bump label n.label counts)

  -- The labels that are wanted: a node keeps a label that it alone has; of several nodes with one
  -- label, the k-th has k behind it. `before` holds the nodes that stand before, `all` all nodes.
  unfoldable pub wanted : List GraphNode → List GraphNode → List GraphNode → List GraphNode
  wanted all before [] = []
  wanted all before (n ∷ nodes) =
      (if ltb (occurs n.label all) 2
        then n
        else record n { label = numbered n.label (occurs n.label before + 1) })
      ∷ wanted all (n ∷ before) nodes

  number_labels-wanted :
      (counts seen : Dict String ℕ) (all before nodes : List GraphNode)
      → ((l : String) → total l counts ≡ occurs l all)
      → ((l : String) → ltb (occurs l all) 2 ≡ false → total l seen ≡ occurs l before)
      → number_labels counts seen nodes ≡ wanted all before nodes
  unfolding number_labels wanted
  number_labels-wanted counts seen all before [] h k = refl
  number_labels-wanted counts seen all before (n ∷ nodes) h k =
      elim (Bool-cases (ltb (occurs n.label all) 2)) [
        | inl once ↦
            rw (h n.label, once)
              (ap (◌∷◌ n) (
                number_labels-wanted counts seen all (n ∷ before) nodes h
                  (λ l many. ground (arith, k l many, string_key.agree_iff n.label l))))
        | inr many ↦
            rw (h n.label, many)
              (let seen' = bump n.label seen in
                let counted : (l : String)
                    → ltb (occurs l all) 2 ≡ false
                    → total l seen' ≡ occurs l (n ∷ before) =
                  λ l m. ground (arith, k l m, total-bump l n.label seen) in
                let this : total n.label seen' ≡ occurs n.label before + 1 = ground (
                  arith,
                  k n.label many,
                  total-bump n.label n.label seen,
                  string_key.agree_iff n.label n.label,
                ) in
                rw this (
                  ap (◌∷◌ (record n { label = numbered n.label (occurs n.label before + 1) }))
                    (number_labels-wanted counts seen' all (n ∷ before) nodes h counted)))
      ]

  -- A node that alone has its label keeps it; of the nodes that share a label, each has its number
  -- among them put behind it, in the order of the list. Nothing else of a node changes.
  pub disambiguate-wanted : (nodes : List GraphNode) → disambiguate nodes ≡ wanted nodes [] nodes
  unfolding disambiguate lookup_or lookup
  disambiguate-wanted nodes =
      number_labels-wanted (count_labels [] nodes) [] nodes [] nodes
        (λ l. omega (arith, count_labels_lem l [] nodes)) (λ l many. refl)
