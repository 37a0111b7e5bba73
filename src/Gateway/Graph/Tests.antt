-- ===== src/Gateway/Graph/Tests.antt =====
-- One run's graph (graph.py), with whole seconds for times: two activities that one workflow task
-- decided on, then a gate that is opened twice and closed once.
use ancora.Prelude.{
  ℕ, suc, ◌+◌, ◌≤◌, ◌≡◌, ◌↔◌, refl, true, false, Option, none, some, String, List, [], ◌∷◌,
  string_key, nat_key, decimal, length, count_if, In, arith, if◌then◌else◌, inl, inr, sorted_set,
  set_in, sort_by, sort_in, subst,
}
use ancora.Prelude.Int.{ℤ, pos, ◌-ℤ◌}
use ancora.Number.{at_most}
use ancora.Number.Whole.{whole}
use ancora.Gateway.Ticks.{ticks, at, scheduled_as}
use ancora.Dict.{lookup, insert, lookup_or, bump}
use ancora.Gateway.History.{
  activity_task_started, activity_task_completed, workflow_task_completed, HistoryEvent, text_or,
  get, text_value, str_field, dt, secs, decode_input, node_label,
}
use ancora.Gateway.Graph.{gate_open, gate_close, Sched, GraphNode, Vertex}
use ancora.Gateway.Graph.Reducing.{
  reduce, nothing_seen, scheduling, when_truthy, attempt_or_one, decode_sched, fire_time,
  reduce_event, reduce_from,
}
use ancora.Gateway.Graph.Activities.{
  activity_state, graph_node, present, attempt_note, unfinished, state_of, duration,
  activity_vertex,
}
use ancora.Gateway.Graph.Gates.{
  gate_of, gate_vertices, opened, left_open, past_id, take_before, verdict_note, is_truthy,
  bool_value, decided, open_gates, resolve, update, matched, close_gate, close_gates, first_expiry,
  ended, expiring, update_all, leave_open, wait_vertex,
}
use ancora.Gateway.Graph.Gates.Matching.{fate, closes_of, opens_of, settled}
use ancora.Gateway.Graph.Gates.Fates.{nth_close_resolves}
use ancora.Gateway.Graph.Labels.{disambiguate, count_labels, number_labels}
use ancora.Gateway.Graph.CriticalPath.{
  critical_path, group, key_less, slowest, step_to, visit, walk,
}
use ancora.Gateway.Graph.CriticalPath.Slowest.{Leads, critical_path-slowest}
use ancora.Gateway.Graph.CriticalPath.Seconds.{NonNegative, critical_path_seconds_lem}
use ancora.Gateway.Graph.Layers.{layers, layer_of}
use ancora.Gateway.Graph.Building.{
  GraphEdge, edge, edges, nodes_of, build_graph, by_activity, vertices_of, waits_plainly, put_sched,
  split_scheduled, parked_at_gate, with_wait, ranks, placed, node_at_most, edges_from,
  edges_between, edges_along, mark_path, graph_of,
}
use ancora.Gateway.Graph.Building.Shape.{edges-nodes_of}
use ancora.Gateway.Graph.Building.Totals.{closes_gate, build_graph_total}

abbrev history : List HistoryEvent
history =
    at 4 1 workflow_task_completed
    ∷ at 5 1 (scheduled_as "1" "run_node" "" 4)
    ∷ at 6 1 (scheduled_as "2" "run_node" "" 4)
    ∷ at 7 2 (activity_task_started 5 "worker" 1 none)
    ∷ at 8 4 (activity_task_completed 5)
    ∷ at 10 5 (scheduled_as "3" gate_open "open" 9)
    ∷ at 12 6 (scheduled_as "4" gate_open "open" 11)
    ∷ at 14 7 (scheduled_as "5" gate_close "close" 13)
    ∷ []

abbrev sched : ℕ → String → String → Sched
sched id gate kind = record {
  event_id = id;
  decided_by = id;
  activity_id = "a";
  activity_type = kind;
  task_queue = "q";
  scheduled_at = some id;
  node_id = none;
  node_type = none;
  priority = none;
  gate_id = some gate;
  decision = none;
}

abbrev two_opens : List (ℕ × Sched)
two_opens = (10, sched 10 "g" gate_open) ∷ (12, sched 12 "g" gate_open) ∷ []

abbrev one_close : List Sched
one_close = sched 14 "g" gate_close ∷ []

nth_close_resolves_example :
    lookup 10 (gate_vertices two_opens one_close nothing_seen false)
    ≡ some (
        settled
          (left_open false nothing_seen)
          (fate 10 (opens_of "g" two_opens) (closes_of "g" one_close))
          (opened 10 (sched 10 "g" gate_open) none))
unfolding gate_of lookup
nth_close_resolves_example =
    nth_close_resolves two_opens one_close nothing_seen false 10 (sched 10 "g" gate_open)
      (refl, (refl, tt)) refl (omega arith, tt)

abbrev vertex : String → ℕ → Option ℤ → Vertex
vertex id key seconds = record {
  node = record (graph_node id "greet" "node" "completed") { duration_seconds = seconds };
  layer_key = key;
}

abbrev three : List Vertex
three = vertex "a5" 4 (some (pos 2)) ∷ vertex "a6" 4 none ∷ vertex "a9" 8 (some (pos 3)) ∷ []

abbrev three_nodes : List GraphNode
three_nodes = (vertex "a5" 4 (some (pos 2))).node ∷ (vertex "a6" 4 none).node ∷ []

critical_path-slowest_example :
    (length (critical_path three_nodes).0 ≡ length (layers three_nodes))
    × ((n : GraphNode)
        → In n three_nodes
        → Leads (critical_path three_nodes).0 (layer_of n.layer three_nodes))
critical_path-slowest_example = critical_path-slowest three_nodes

three_measured : (m : GraphNode) → In m three_nodes → NonNegative m.duration_seconds
three_measured m (inl e) = subst (λ (n : GraphNode). NonNegative n.duration_seconds) e refl
three_measured m (inr (inl e)) = subst (λ (n : GraphNode). NonNegative n.duration_seconds) e tt
three_measured m (inr (inr h)) = absurd h

critical_path_seconds_lem_example :
    (t : ℤ) × ((critical_path three_nodes).1 ≡ some t) × (at_most (pos 2) t ≡ true)
critical_path_seconds_lem_example =
    critical_path_seconds_lem three_nodes (vertex "a5" 4 (some (pos 2))).node (pos 2) three_measured
      (inl refl) refl refl

abbrev drawn_edge : GraphEdge
drawn_edge = record { source = "a5"; target = "a9"; done = true }

edges-nodes_of_example : In drawn_edge (edges (nodes_of three)) ↔ (
    (src dst : GraphNode) × In src (nodes_of three)
    × In dst (nodes_of three)
    × (dst.layer ≡ suc src.layer)
    × (edge src dst ≡ drawn_edge))
edges-nodes_of_example = edges-nodes_of three drawn_edge

build_graph_total_example :
    let g = build_graph "run" "workflow" "RUNNING" false history [] false 9 in
    let r = reduce history in
    let waits =
      waits_plainly r.parked false false
        (by_activity [] [])
        (vertices_of r false (by_activity [] [])) in
    (g.total + count_if closes_gate r.scheduled ≡ length r.scheduled + (if waits then 1 else 0))
    × (length g.nodes ≡ g.total)
    × (g.completed ≤ g.total)
build_graph_total_example = build_graph_total "run" "workflow" "RUNNING" false history [] false 9

-- The first gate of two is resolved by the one close, and the two activities share a layer.
run_graph :
    let g = build_graph "run" "workflow" "RUNNING" false history [] false 9 in
    (g.completed ≡ 2)
    × (g.total ≡ 4)
    × (length g.edges ≡ 3)
    × (g.critical_path ≡ "a5" ∷ "gate:10" ∷ "gate:12" ∷ [])
unfolding present attempt_note unfinished state_of activity_state duration activity_vertex
    scheduling when_truthy attempt_or_one decode_sched fire_time reduce_event reduce_from group
    key_less slowest step_to visit walk critical_path past_id take_before verdict_note is_truthy
    bool_value decided gate_of opened open_gates resolve update matched close_gate close_gates
    first_expiry ended expiring left_open update_all leave_open gate_vertices wait_vertex
    by_activity put_sched split_scheduled vertices_of parked_at_gate waits_plainly with_wait ranks
    placed node_at_most edge edges_from edges_between edges_along edges mark_path nodes_of graph_of
    build_graph count_labels number_labels disambiguate text_or get text_value str_field dt secs
    decode_input node_label lookup insert lookup_or bump sort_in sort_by set_in sorted_set decimal
    ◌-ℤ◌
run_graph = (refl, refl, refl, refl)
