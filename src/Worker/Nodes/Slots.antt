-- ===== src/Worker/Nodes/Slots.antt =====
-- The slot that an admitted node holds, after the worker's reports (nodes_runtime.py: run_node,
-- api.py: complete, engine.py: complete).
use ancora.Prelude.{
  ◌==◌, ◌≡◌, refl, ◌∙◌, ap, subst, Bool, true, false, none, some, String, List, [], ◌∷◌, ◌++◌,
  ==_refl, string_key, arith, Result, ok, raised, if◌then◌else◌,
}
use ancora.Number.{Float, Num, fnum, at_most}
use ancora.Number.Laws.{at_most_refl}
use ancora.Dict.{Dict, lookup, IsDict}
use ancora.Scheduler.Backlog.{Entry}
use ancora.Scheduler.Backlog.Slots.{complete_releases}
use ancora.Scheduler.Admission.{slot_token, AdmissionEngine}
use ancora.Scheduler.Engine.{complete}
use ancora.Scheduler.Client.{Verdict, complete_route}
use ancora.Common.Projections.{num_or_zero}
use ancora.Worker.Nodes.{
  NodeRequest, NodeResult, Failure, node_error, other_error, Completion, World, Writes, completion,
  run_effect, run_node,
}
use ancora.Worker.Nodes.Branches.{reported, IsJudged, run_node-IsRun}

module _ ⦃f : Float⦄ where
  -- the engine after the reports have reached it
  unfoldable pub deliver : List Completion → AdmissionEngine → AdmissionEngine
  deliver [] e = e
  deliver (c ∷ completions) e =
      deliver completions (complete_route c.run_id c.node_id c.tenant c.usd e).1

  module _ {J : Type 0} where
    -- whether a node returned, or raised a NodeError
    abbrev is_reported : Result Failure (NodeResult J) → Bool
    is_reported (ok r) = true
    is_reported (raised (node_error _ _ _)) = true
    is_reported (raised other_error) = false

    -- the dollars that a node's result costs
    abbrev dollars_of : Result Failure (NodeResult J) → Num
    dollars_of (ok r) = num_or_zero r.cost.usd
    dollars_of (raised _) = fnum 0

  accepted :
      (run_id node_id tenant : String) (usd : Num) (e : AdmissionEngine)
      → at_most (fnum 0) usd ≡ true
      → (complete_route run_id node_id tenant usd e).1 ≡ (complete run_id node_id tenant usd e).1
  unfolding complete_route
  accepted run_id node_id tenant usd e owed = rw (owed) refl

  freed :
      (run_id node_id tenant : String) (usd : Num) (e : AdmissionEngine)
      → IsDict e.inflight.entries
      → lookup (slot_token run_id node_id) (complete run_id node_id tenant usd e).1.inflight.entries
        ≡ none
  unfolding complete
  freed run_id node_id tenant usd e unique =
      let token = slot_token run_id node_id in
      let (_, _, gone, _) = complete_releases token e.inflight unique in
      ground (arith, gone token, ==_refl token)

  released :
      (req : NodeRequest) (usd : Num) (e : AdmissionEngine)
      → IsDict e.inflight.entries
      → at_most (fnum 0) usd ≡ true
      → lookup
          (slot_token req.wf_id req.node_id)
          (deliver (completion req usd ∷ []) e).inflight.entries
        ≡ none
  unfolding deliver
  released req usd e unique owed =
      ap (λ (e' : AdmissionEngine). lookup (slot_token req.wf_id req.node_id) e'.inflight.entries)
        (accepted req.wf_id req.node_id req.tenant usd e owed)
      ∙ freed req.wf_id req.node_id req.tenant usd e unique

  module _ {J : Type 0} where
    slot_after_reports :
        (req : NodeRequest) (outcome : Result Failure (NodeResult J)) (e : AdmissionEngine)
        (held : Entry)
        → IsDict e.inflight.entries
        → lookup (slot_token req.wf_id req.node_id) e.inflight.entries ≡ some held
        → at_most (fnum 0) (dollars_of outcome) ≡ true
        → lookup
            (slot_token req.wf_id req.node_id)
            (deliver (reported req outcome) e).inflight.entries
          ≡ (if is_reported outcome then none else some held)
    slot_after_reports req (ok r) e held unique slot owed =
        released req (num_or_zero r.cost.usd) e unique owed
    slot_after_reports req (raised (node_error _ _ _)) e held unique slot owed =
        released req (fnum 0) e unique (at_most_refl (fnum 0))
    slot_after_reports req (raised other_error) e held unique slot owed = unfold deliver in slot

  module _ {J T : Type 0} where
    -- A node of a registered type that an enabled client admits, that holds a slot and whose
    -- result costs no negative amount: once its reports have reached the scheduler, its slot is
    -- free where it returned or raised a NodeError, and where it raised any other exception it
    -- holds the slot as before.
    pub slot_after_run :
        (least : Num) (v : Verdict) (req : NodeRequest) (io : Writes) (registry : Dict String Bool)
        (effect : Result Failure (NodeResult J)) (s : World J T) (idempotent : Bool)
        (e : AdmissionEngine) (held : Entry)
        → (v.outcome == "admit") ≡ true
        → lookup req.type_name registry ≡ some idempotent
        → s.completions ≡ []
        → IsDict e.inflight.entries
        → lookup (slot_token req.wf_id req.node_id) e.inflight.entries ≡ some held
        → at_most (fnum 0) (dollars_of (run_effect idempotent req.key effect s.inbox).0) ≡ true
        → let e' =
            deliver (run_node least true (some v) req io registry effect s).1.completions e in
          lookup (slot_token req.wf_id req.node_id) e'.inflight.entries ≡ (
            if is_reported (run_effect idempotent req.key effect s.inbox).0
            then none
            else some held)
    slot_after_run least v req io registry effect s idempotent e held admits known fresh unique slot
          owed =
        let outcome = (run_effect idempotent req.key effect s.inbox).0 in
        let run = run_node least true (some v) req io registry effect s in
        let is_run : IsJudged least v true req effect s (some idempotent) run =
          subst (λ r. IsJudged least v true req effect s r run) known
            (subst (λ b. IsJudged least v b req effect s (lookup req.type_name registry) run) admits
              (run_node-IsRun least true (some v) req io registry effect s)) in
        let given : run.1.completions ≡ reported req outcome =
          is_run.1 ∙ ap (λ cs. cs ++ reported req outcome) fresh in
        ap (λ cs. lookup (slot_token req.wf_id req.node_id) (deliver cs e).inflight.entries) given
        ∙ slot_after_reports req outcome e held unique slot owed
