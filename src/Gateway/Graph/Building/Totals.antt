-- ===== src/Gateway/Graph/Building/Totals.antt =====
-- How many vertices a graph has (graph.py: build_graph).
use ancora.Prelude.{
  ℕ, suc, ◌+◌, ◌≤◌, ◌≡◌, refl, ◌∙◌, ap, Bool, true, false, Option, none, some, String, List, [],
  ◌∷◌, length, length-append, count_if, count_if-sort_by, sort_by, length-sort_by, leb, ◌==◌,
  string_key, nat_key, arith, if◌then◌else◌, inl, inr, Bool-cases,
}
use ancora.Number.{Float, Num}
use ancora.Dict.{Dict, lookup_or}
use ancora.Gateway.History.{Wire, Datetime, HistoryEvent, PendingActivity}
use ancora.Gateway.Graph.{gate_open, gate_close, Sched, Reduction, GraphNode, Vertex}
use ancora.Gateway.Graph.Reducing.{reduce}
use ancora.Gateway.Graph.Gates.{
  wait_vertex, take_before, text_or_else, Gates, open_gates, resolve, matched, close_gate,
  close_gates, update, update_all, leave_open, left_open, no_gates, gate_vertices,
}
use ancora.Gateway.Graph.Gates.Opening.{drawn, vertices-open_gates}
use ancora.Gateway.Graph.Labels.{wanted, disambiguate-wanted}
use ancora.Gateway.Graph.CriticalPath.{critical_path}
use ancora.Gateway.Graph.Building.{
  by_activity, put_sched, split_scheduled, values, by_id, vertices_of, waits_plainly, with_wait,
  ranks, placed, node_at_most, mark_path, nodes_of, graph_of, build_graph,
}

module _ ⦃f : Float⦄ ⦃w : Wire Num⦄ where
  length-update :
      (sid : ℕ) (change : Vertex → Vertex) (vertices : Dict ℕ Vertex)
      → length (update sid change vertices) ≡ length vertices
  unfolding update
  length-update sid change [] = refl
  length-update sid change ((i, v) ∷ vertices) = ap suc (length-update sid change vertices)

  length-update_all :
      (sids : List ℕ) (change : Vertex → Vertex) (vertices : Dict ℕ Vertex)
      → length (update_all sids change vertices) ≡ length vertices
  unfolding update_all
  length-update_all [] change vertices = refl
  length-update_all (sid ∷ sids) change vertices =
      length-update_all sids change (update sid change vertices) ∙ length-update sid change vertices

  length-leave_open :
      (change : Vertex → Vertex) (unmatched : Dict String (List ℕ)) (vertices : Dict ℕ Vertex)
      → length (leave_open change unmatched vertices) ≡ length vertices
  unfolding leave_open
  length-leave_open change [] vertices = refl
  length-leave_open change ((gate, queue) ∷ unmatched) vertices =
      length-leave_open change unmatched (update_all queue change vertices)
      ∙ length-update_all queue change vertices

  length-matched :
      (gate : String) (sched : Sched) (found : Option (ℕ × List ℕ)) (g : Gates)
      → length (matched gate sched found g).vertices ≡ length g.vertices
  unfolding matched
  length-matched gate sched none g = refl
  length-matched gate sched (some (sid, rest)) g = length-update sid (resolve sched) g.vertices

  length-close_gates :
      (closes : List Sched) (g : Gates) → length (close_gates closes g).vertices ≡ length g.vertices
  unfolding close_gates close_gate
  length-close_gates [] g = refl
  length-close_gates (sched ∷ closes) g =
      let gate = text_or_else sched.gate_id "" in
      let found = take_before sched.event_id (lookup_or [] gate g.unmatched) in
      length-close_gates closes (matched gate sched found g) ∙ length-matched gate sched found g

  length-drawn : (r : Reduction) (opens : List (ℕ × Sched)) → length (drawn r opens) ≡ length opens
  length-drawn r [] = refl
  length-drawn r ((sid, sched) ∷ opens) = ap suc (length-drawn r opens)

  length-gate_vertices :
      (opens : List (ℕ × Sched)) (closes : List Sched) (r : Reduction) (terminal_run : Bool)
      → length (gate_vertices opens closes r terminal_run) ≡ length opens
  unfolding gate_vertices
  length-gate_vertices opens closes r terminal_run =
      let g = open_gates r opens no_gates in
      let g' = close_gates closes g in
      length-leave_open (left_open terminal_run r) g'.unmatched g'.vertices
      ∙ length-close_gates closes g
      ∙ ap length (vertices-open_gates r opens no_gates)
      ∙ length-drawn r opens

  -- whether an activity closes a gate
  abbrev pub closes_gate : ℕ × Sched → Bool
  closes_gate (sid, sched) = sched.activity_type == gate_close

  length-split_scheduled :
      (r : Reduction) (pending : Dict String PendingActivity) (items : List (ℕ × Sched))
      → let p = split_scheduled r pending items in
        length p.vertices + length p.opens + count_if closes_gate items ≡ length items
  unfolding split_scheduled put_sched
  length-split_scheduled r pending [] = refl
  length-split_scheduled r pending ((sid, sched) ∷ items) =
      let ih = length-split_scheduled r pending items in
      elim (Bool-cases (sched.activity_type == gate_open)) [
        | inl opens ↦
            let other : (sched.activity_type == gate_close) ≡ false =
              ap (λ t. t == gate_close)
                ((string_key.agree_iff sched.activity_type gate_open).0 opens) in
            rw (opens, other) (omega (arith, ih))
        | inr not_open ↦ elim (Bool-cases (sched.activity_type == gate_close)) [
          | inl closes ↦ rw (not_open, closes) (omega (arith, ih))
          | inr not_close ↦ rw (not_open, not_close) (omega (arith, ih))
        ]
      ]

  length-values : (vertices : Dict ℕ Vertex) → length (values vertices) ≡ length vertices
  length-values [] = refl
  length-values ((i, v) ∷ vertices) = ap suc (length-values vertices)

  length-vertices_of :
      (r : Reduction) (terminal : Bool) (pending : Dict String PendingActivity)
      → length (vertices_of r terminal pending) + count_if closes_gate r.scheduled
        ≡ length r.scheduled
  unfolding vertices_of
  length-vertices_of r terminal pending =
      let items = by_id r.scheduled in
      let le = λ (a b : ℕ × Sched). leb a.0 b.0 in
      let p = split_scheduled r pending items in
      let gates = gate_vertices p.opens p.closes r terminal in
      omega (
        arith,
        length-append p.vertices (values gates),
        length-values gates,
        length-gate_vertices p.opens p.closes r terminal,
        length-split_scheduled r pending items,
        count_if-sort_by closes_gate le r.scheduled,
        length-sort_by le r.scheduled,
      )

  length-wanted :
      (all before nodes : List GraphNode) → length (wanted all before nodes) ≡ length nodes
  unfolding wanted
  length-wanted all before [] = refl
  length-wanted all before (n ∷ nodes) = ap suc (length-wanted all (n ∷ before) nodes)

  length-placed :
      (rank : Dict ℕ ℕ) (vertices : List Vertex) → length (placed rank vertices) ≡ length vertices
  unfolding placed
  length-placed rank [] = refl
  length-placed rank (v ∷ vertices) = ap suc (length-placed rank vertices)

  length-nodes_of : (vertices : List Vertex) → length (nodes_of vertices) ≡ length vertices
  unfolding nodes_of
  length-nodes_of vertices =
      let nodes = sort_by node_at_most (placed (ranks vertices) vertices) in
      ap length (disambiguate-wanted nodes)
      ∙ length-wanted nodes [] nodes
      ∙ length-sort_by node_at_most (placed (ranks vertices) vertices)
      ∙ length-placed (ranks vertices) vertices

  length-mark_path :
      (path : List String) (nodes : List GraphNode) → length (mark_path path nodes) ≡ length nodes
  unfolding mark_path
  length-mark_path path [] = refl
  length-mark_path path (n ∷ nodes) = ap suc (length-mark_path path nodes)

  count_if_le : (p : GraphNode → Bool) (nodes : List GraphNode) → count_if p nodes ≤ length nodes
  count_if_le p [] = omega arith
  count_if_le p (n ∷ nodes) = ground (arith, count_if_le p nodes)

  length-with_wait :
      (waits : Bool) (vertices : List Vertex)
      → length (with_wait waits vertices) ≡ length vertices + (if waits then 1 else 0)
  unfolding with_wait
  length-with_wait true vertices = length-append vertices (wait_vertex _ ∷ [])
  length-with_wait false vertices = omega arith

  -- Each scheduled activity that does not close a gate is one node of the graph, an activity's or
  -- a gate's, and a plain wait is one more; the graph's total counts them, and `completed` is at
  -- most the total.
  pub build_graph_total :
      (run_id workflow_name status : String) (terminal : Bool) (events : List HistoryEvent)
      (pending_activities : List PendingActivity) (pending_task : Bool) (now : Datetime)
      → let g =
          build_graph run_id workflow_name status terminal events pending_activities pending_task
            now in
        let r = reduce events in
        let pending = by_activity [] pending_activities in
        let waits =
          waits_plainly r.parked terminal pending_task pending (vertices_of r terminal pending) in
        (g.total + count_if closes_gate r.scheduled ≡ length r.scheduled + (if waits then 1 else 0))
        × (length g.nodes ≡ g.total)
        × (g.completed ≤ g.total)
  unfolding build_graph graph_of
  build_graph_total run_id workflow_name status terminal events pending_activities pending_task
        now =
      let r = reduce events in
      let pending = by_activity [] pending_activities in
      let vertices = vertices_of r terminal pending in
      let waits = waits_plainly r.parked terminal pending_task pending vertices in
      let all = with_wait waits vertices in
      (
        omega (
          arith,
          length-nodes_of all,
          length-with_wait waits vertices,
          length-vertices_of r terminal pending,
        ),
        length-mark_path (critical_path (nodes_of all)).0 (nodes_of all),
        count_if_le (λ (n : GraphNode). n.state == "completed") (nodes_of all),
      )
