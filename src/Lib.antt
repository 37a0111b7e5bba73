-- ===== src/Lib.antt =====
-- Ancora runs agent workflows on Temporal. Workers ask a scheduler before they run a node, record
-- what the node did, and report completion; a consumer keeps a read model; an API serves it.
--
-- The scheduler, services/scheduler/ancora_scheduler:
--   Scheduler/Backlog       backlog.py: InflightTracker, evaluate_backpressure
--   Scheduler/Fairness      fairness.py: FairShare, PriorityLanes
--   Scheduler/Budget        budget.py: BudgetLedger, check_budget
--   Scheduler/Config        config.py: the policy document, its validators and lookups
--   Scheduler/ConfigStore   config.py: load_config, ConfigStore
--   Scheduler/Admission     engine.py: requests, decisions, counters, the engine's state
--   Scheduler/Engine        engine.py: AdmissionEngine.admit, complete, reset. `admit_request` asks
--                           the governors in the code's order, one function each: deadline_gate,
--                           budget_gate, backpressure_gate, fairness_gate, rate_limit_gate; then
--                           take_slot. A gate returns the decision, or the exception, with the
--                           state that the call leaves.
--   Scheduler/Client        api.py: the admit and complete routes, and
--                           packages/common/ancora_common/scheduler_client.py: what the worker's
--                           client makes of the answer
-- What the services share, packages/common/ancora_common:
--   Common/RateLimit        ratelimit.py: the token bucket, its two limiters, the Lua script
--   Common/Resources        resources.py: capabilities, queues, resource requests
--   Common/Registry         registry.py: the worker table
--   Common/Inbox            inbox.py: the guards that run an effect once
--   Common/Events           events.py: events and their stream form
--   Common/Catalog          catalog.py: run states, registration of versions
--   Common/Projections      projections.py: the cost ledger, the retry log, the gates' inbox
-- The API, services/api-gateway/ancora_api:
--   Gateway/Idempotency     idempotency.py: the store and the middleware, whose `dispatch` is two
--                           functions, before and after the application (dispatch_start,
--                           dispatch_end)
--   Gateway/ChaosInvariants chaos_invariants.py: the checks of a history and of inbox rows
--   Gateway/History         history.py, and the events and pending activities that the views read
--   Gateway/Graph           graph.py: Reducing (_reduce), Activities (_activity_vertex), Gates
--                           (_gate_vertices, _wait_vertex), Labels (_disambiguate), CriticalPath,
--                           Building (build_graph)
--   Gateway/Recovery        recovery.py: Liveness (FleetLiveness), Reducing (_reduce_history),
--                           Spans, Deadlines and Windows (_activity_window), Tasks
--                           (_workflow_window), Building (build_recovery)
-- The consumer, services/event-consumer/ancora_event_consumer:
--   Consumer/Projector      projector.py: rows, one pass, the loop
--   Consumer/Reconciler     reconciler.py: one pass over the runs, and its rollback
-- The activity workers, services/activity-workers/ancora_activity_worker:
--   Worker/Nodes            nodes_runtime.py: _admit, run_node; Slots joins it to the scheduler, by
--                           the route that its reports take
-- The SDK, packages/sdk-python/ancora:
--   Sdk/Policy              policy.py: the policy table and resolve_policy
-- Shared: Prelude (tests, lists, sorting, keys, texts, results, integers), Number (floats), Dict
-- (Python's dict as an association list in insertion order, and its laws), Errors.
--
-- Floats are a parameter, the instance argument `Float`: the operations, with the order and the
-- monotonicity of finite doubles. Nothing there says that sums are exact; where a theorem needs
-- it, the equations on its own numbers are among its hypotheses. Number/Whole fills `Float` with
-- whole numbers, at which the tests run. A clock is no state: each reading is an argument, in the order
-- in which the code reads it, and nothing is assumed about it. Exceptions are values of `Result`;
-- beside one stands the state that the code leaves. Keys, ids and counts are texts and natural
-- numbers; a depth is never negative, so the code's differences of depths are natural.
--
-- Loops run over the entries of a dict, the rows of a batch or a list of calls, by recursion on it,
-- so no fuel is needed. The projector's endless loop is run for a list of passes of any length.
-- The graph's code keeps one vertex object in a list and in a gate's queue; the model's queues hold
-- the scheduled event's id, and a write goes to the vertex with that id. sorted and sort are a
-- stable insertion sort; a set is a list of its members.
--
-- Parameters that stand for other programs: the file system, JSON and YAML parsers and pydantic's
-- coercions (ConfigStore.Source), the texts of datetimes, integers and JSON (Events.Texts), Lua's
-- tostring and math.ceil (RateLimit.LuaNumbers), a Redis consumer group (Projector.StreamGroup),
-- protobuf's times, datetimes, json.loads, rounding and the format :g (History.Wire, about which a
-- theorem assumes what is among its hypotheses), what Temporal says of a run, what a node, an
-- effect or the application returns, whether the database takes a projection's write. One call of a
-- table or of Redis is one step.
--
-- Not modelled: HTTP routing, settings, logging, metrics, tracing; Temporal, Ray and Docker calls
-- (the pools and heartbeats of activity workers, workflow workers, the gateway's services); the
-- reconciler's endless loop; the SDK's nodes, base classes and lint; the command line, migrations,
-- scripts, the web interface. measure_rto is modelled before its rounding. A priority's text is
-- taken after strip and lower. A node's inbox is the one in memory. That Redis drops
-- an idle bucket is outside the model, which has the time that the script sets for it.
pub mod Prelude
pub mod Errors
pub mod Number
pub mod Dict
pub mod Common
pub mod Scheduler
pub mod Gateway
pub mod Sdk
pub mod Worker
pub mod Consumer
