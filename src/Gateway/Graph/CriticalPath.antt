-- ===== src/Gateway/Graph/CriticalPath.antt =====
-- Layers and the critical path (graph.py: critical_path).
pub mod Slowest
pub mod Seconds
use ancora.Prelude.{
  ℕ, Bool, true, false, ◌&&◌, not, Option, none, some, String, List, [], ◌∷◌, ◌++◌, map, nat_eq,
  nat_key, sorted_set, text_at_most, if◌then◌else◌,
}
use ancora.Number.{Float, Num, fnum, plus, minus, at_most, below, same}
use ancora.Dict.{Dict, lookup_or, insert}
use ancora.Gateway.History.{Wire}
use ancora.Gateway.Graph.{GraphNode}

abbrev pub is_some {ℓ} : {A : Type ℓ} → Option A → Bool
is_some none = false
is_some (some _) = true

module _ ⦃f : Float⦄ ⦃w : Wire Num⦄ where
  -- by_layer.setdefault(n.layer, []).append(n), for each node
  unfoldable pub group : Dict ℕ (List GraphNode) → List GraphNode → Dict ℕ (List GraphNode)
  group by_layer [] = by_layer
  group by_layer (n ∷ nodes) =
      group (insert n.layer (lookup_or [] n.layer by_layer ++ n ∷ []) by_layer) nodes

  abbrev pub keys_of : Dict ℕ (List GraphNode) → List ℕ
  keys_of [] = []
  keys_of ((k, _) ∷ by_layer) = k ∷ keys_of by_layer

  -- sorted(by_layer): the keys of a dict are distinct
  abbrev pub sorted_keys : Dict ℕ (List GraphNode) → List ℕ
  sorted_keys by_layer = sorted_set (keys_of by_layer)

  -- -1.0
  abbrev pub minus_one : Num
  minus_one = minus (fnum 0) (fnum 1)

  -- n.duration_seconds or -1.0
  abbrev pub weight_of : Option Num → Num
  weight_of none = minus_one
  weight_of (some d) = if same d (fnum 0) then minus_one else d

  abbrev pub weight : GraphNode → Num
  weight n = weight_of n.duration_seconds

  -- (weight, id) < (weight, id)
  unfoldable pub key_less : GraphNode → GraphNode → Bool
  key_less a b =
      if same (weight a) (weight b)
      then not (text_at_most b.id a.id)
      else below (weight a) (weight b)

  -- max(nodes, key=...): the first of several that are the greatest
  unfoldable pub slowest : GraphNode → List GraphNode → GraphNode
  slowest best [] = best
  slowest best (n ∷ nodes) = slowest (if key_less best n then n else best) nodes

  pub record Walk : Type 0 where
    pub path : List String
    pub seconds : Num
    pub measured : Bool

  abbrev pub plus_duration : Num → Option Num → Num
  plus_duration total none = total
  plus_duration total (some d) = plus total d

  unfoldable pub step_to : GraphNode → Walk → Walk
  step_to n s = record {
    path = s.path ++ n.id ∷ [];
    seconds = plus_duration s.seconds n.duration_seconds;
    measured = if is_some n.duration_seconds then true else s.measured;
  }

  -- one layer; a layer is not empty
  unfoldable pub visit : List GraphNode → Walk → Walk
  visit [] s = s
  visit (n ∷ nodes) s = step_to (slowest n nodes) s

  unfoldable pub walk : List ℕ → Dict ℕ (List GraphNode) → Walk → Walk
  walk [] by_layer s = s
  walk (layer ∷ layers) by_layer s = walk layers by_layer (visit (lookup_or [] layer by_layer) s)

  abbrev pub at_start : Walk
  at_start = record { path = []; seconds = fnum 0; measured = false }

  unfoldable pub critical_path : List GraphNode → List String × Option Num
  critical_path nodes =
      let by_layer = group [] nodes in
      let s = walk (sorted_keys by_layer) by_layer at_start in
      (s.path, if s.measured then some (w.rounded s.seconds 6) else none)
