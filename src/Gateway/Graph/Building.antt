-- ===== src/Gateway/Graph/Building.antt =====
-- The assembly of the graph (graph.py: build_graph).
pub mod Edges
pub mod Ranks
pub mod Shape
pub mod Totals
use ancora.Prelude.{
  ℕ, ◌+◌, max, Bool, true, false, not, ◌||◌, ◌&&◌, Option, none, some, String, List, [], ◌∷◌, ◌++◌,
  map, ltb, leb, nat_eq, length, any, count_if, sort_by, sorted_set, text_at_most, ◌==◌, string_key,
  nat_key, if◌then◌else◌,
}
use ancora.Number.{Float, Num}
use ancora.Dict.{Dict, lookup_or, insert}
use ancora.Gateway.History.{Wire, Datetime, HistoryEvent, PendingActivity}
use ancora.Gateway.Graph.{gate_open, gate_close, Sched, Reduction, GraphNode, Vertex}
use ancora.Gateway.Graph.Reducing.{reduce}
use ancora.Gateway.Graph.Activities.{activity_vertex}
use ancora.Gateway.Graph.Gates.{gate_vertices, wait_vertex}
use ancora.Gateway.Graph.Labels.{disambiguate}
use ancora.Gateway.Graph.CriticalPath.{group, sorted_keys, critical_path}

-- GraphEdgeOut
pub record GraphEdge : Type 0 where
  pub source : String
  pub target : String
  pub done : Bool

-- {pa.activity_id: pa for pa in pending_activities}
unfoldable pub by_activity :
    Dict String PendingActivity → List PendingActivity → Dict String PendingActivity
by_activity pending [] = pending
by_activity pending (pa ∷ rest) = by_activity (insert pa.activity_id pa pending) rest

abbrev pub is_empty {ℓ} : {A : Type ℓ} → List A → Bool
is_empty [] = true
is_empty (_ ∷ _) = false

-- enumerate(keys)
abbrev pub ranks_from : ℕ → List ℕ → Dict ℕ ℕ
ranks_from i [] = []
ranks_from i (k ∷ keys) = (k, i) ∷ ranks_from (i + 1) keys

abbrev name_or : String → String → String
name_or name other = if name == "" then other else name

module _ ⦃f : Float⦄ ⦃w : Wire Num⦄ where
  -- RunGraphOut
  pub record RunGraph : Type 0 where
    pub run_id : String
    pub workflow_name : String
    pub status : String
    pub now : Datetime
    pub nodes : List GraphNode
    pub edges : List GraphEdge
    pub completed : ℕ
    pub total : ℕ
    pub critical_path : List String
    pub critical_path_seconds : Option Num

  -- what the loop over the scheduled activities collects
  pub record Parts : Type 0 where
    pub opens : List (ℕ × Sched)
    pub closes : List Sched
    pub vertices : List Vertex

  unfoldable pub put_sched : Reduction → Dict String PendingActivity → ℕ → Sched → Parts → Parts
  put_sched r pending sid sched p =
      if sched.activity_type == gate_open
      then record p { opens = (sid, sched) ∷ p.opens }
      else if sched.activity_type == gate_close
      then record p { closes = sched ∷ p.closes }
      else record p { vertices = activity_vertex sid sched r pending ∷ p.vertices }

  unfoldable pub split_scheduled :
      Reduction → Dict String PendingActivity → List (ℕ × Sched) → Parts
  split_scheduled r pending [] = record { opens = []; closes = []; vertices = [] }
  split_scheduled r pending ((sid, sched) ∷ rest) =
      put_sched r pending sid sched (split_scheduled r pending rest)

  abbrev pub values : Dict ℕ Vertex → List Vertex
  values [] = []
  values ((_, v) ∷ vertices) = v ∷ values vertices

  -- sorted(r.scheduled.items()): the ids are distinct, so no other part is compared
  abbrev pub by_id : Dict ℕ Sched → List (ℕ × Sched)
  by_id scheduled = sort_by (λ (a b : ℕ × Sched). leb a.0 b.0) scheduled

  unfoldable pub vertices_of : Reduction → Bool → Dict String PendingActivity → List Vertex
  vertices_of r terminal pending =
      let p = split_scheduled r pending (by_id r.scheduled) in
      p.vertices ++ values (gate_vertices p.opens p.closes r terminal)

  unfoldable pub parked_at_gate : List Vertex → Bool
  parked_at_gate vertices =
      any (λ (v : Vertex). v.node.kind == "gate" && v.node.state == "waiting") vertices

  abbrev pub layer_keys : List Vertex → List ℕ
  layer_keys [] = []
  layer_keys (v ∷ vertices) = v.layer_key ∷ layer_keys vertices

  -- max of the layer keys
  abbrev max_key : List Vertex → ℕ
  max_key [] = 0
  max_key (v ∷ vertices) = max v.layer_key (max_key vertices)

  -- whether the run waits with nothing to point at
  unfoldable pub waits_plainly :
      Bool → Bool → Bool → Dict String PendingActivity → List Vertex → Bool
  waits_plainly parked terminal has_pending_workflow_task pending vertices =
      not (
        terminal
        || (parked_at_gate vertices || (not (is_empty pending) || has_pending_workflow_task)))
      && (parked && not (is_empty vertices))

  unfoldable pub with_wait : Bool → List Vertex → List Vertex
  with_wait true vertices = vertices ++ wait_vertex (max_key vertices + 1) ∷ []
  with_wait false vertices = vertices

  unfoldable pub ranks : List Vertex → Dict ℕ ℕ
  ranks vertices = ranks_from 0 (sorted_set (layer_keys vertices))

  -- v.node.layer = ranks[v.layer_key]; every key has a rank
  unfoldable pub placed : Dict ℕ ℕ → List Vertex → List GraphNode
  placed rank [] = []
  placed rank (v ∷ vertices) =
      record (v.node) { layer = lookup_or 0 v.layer_key rank } ∷ placed rank vertices

  -- (m.layer, m.label) <= (n.layer, n.label)
  unfoldable pub node_at_most : GraphNode → GraphNode → Bool
  node_at_most m n = ltb m.layer n.layer || (nat_eq m.layer n.layer && text_at_most m.label n.label)

  unfoldable pub edge : GraphNode → GraphNode → GraphEdge
  edge src dst = record { source = src.id; target = dst.id; done = src.state == "completed" }

  unfoldable pub edges_from : GraphNode → List GraphNode → List GraphEdge
  edges_from src [] = []
  edges_from src (dst ∷ layer) = edge src dst ∷ edges_from src layer

  unfoldable pub edges_between : List GraphNode → List GraphNode → List GraphEdge
  edges_between [] layer = []
  edges_between (src ∷ nodes) layer = edges_from src layer ++ edges_between nodes layer

  -- for a, b in zip(ordered, ordered[1:])
  unfoldable pub edges_along : Dict ℕ (List GraphNode) → List ℕ → List GraphEdge
  edges_along by_layer [] = []
  edges_along by_layer (a ∷ []) = []
  edges_along by_layer (a ∷ b ∷ layers) =
      edges_between (lookup_or [] a by_layer) (lookup_or [] b by_layer)
      ++ edges_along by_layer (b ∷ layers)

  unfoldable pub edges : List GraphNode → List GraphEdge
  edges nodes = let by_layer = group [] nodes in edges_along by_layer (sorted_keys by_layer)

  unfoldable pub mark_path : List String → List GraphNode → List GraphNode
  mark_path path [] = []
  mark_path path (n ∷ nodes) =
      record n { on_critical_path = any (λ id. id == n.id) path } ∷ mark_path path nodes

  -- the nodes, in order and with their labels
  unfoldable pub nodes_of : List Vertex → List GraphNode
  nodes_of vertices = disambiguate (sort_by node_at_most (placed (ranks vertices) vertices))

  unfoldable pub graph_of : String → String → String → Datetime → List Vertex → RunGraph
  graph_of run_id workflow_name status now vertices =
      let nodes = nodes_of vertices in
      let (path, seconds) = critical_path nodes in
      record {
        run_id = run_id;
        workflow_name = workflow_name;
        status = status;
        now = now;
        nodes = mark_path path nodes;
        edges = edges nodes;
        completed = count_if (λ (n : GraphNode). n.state == "completed") nodes;
        total = length nodes;
        critical_path = path;
        critical_path_seconds = seconds;
      }

  -- build_graph; `now` is the time given, or the clock's
  unfoldable pub build_graph :
      String
      → String
      → String
      → Bool
      → List HistoryEvent
      → List PendingActivity
      → Bool
      → Datetime
      → RunGraph
  build_graph run_id workflow_name status terminal events pending_activities pending_task now =
      let r = reduce events in
      let pending = by_activity [] pending_activities in
      let vertices = vertices_of r terminal pending in
      let waits = waits_plainly r.parked terminal pending_task pending vertices in
      graph_of run_id (name_or r.workflow_name workflow_name) status now (with_wait waits vertices)
