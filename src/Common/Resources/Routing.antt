-- ===== src/Common/Resources/Routing.antt =====
-- Queues and capabilities stand for each other, and requests survive their dict (resources.py).
use ancora.Prelude.{◌≡◌, refl, true, none, some, String, any, arith, ◌==◌, string_key}
use ancora.Number.{Float}
use ancora.Common.Resources.{
  Capability, cpu, gpu, io, capability_value, capability_of, queue_for, workflow_task_queue,
  all_capability_queues, capability_for, ResourceSpec, to_dict, from_dict,
}

capability_for-queue_for : (c : Capability) → capability_for (queue_for c) ≡ some c
unfolding capability_for queue_for
capability_for-queue_for cpu = refl
capability_for-queue_for gpu = refl
capability_for-queue_for io = refl

pub queue_for_known : (c : Capability) → any (λ q. q == queue_for c) all_capability_queues ≡ true
unfolding queue_for
queue_for_known cpu = refl
queue_for_known gpu = refl
queue_for_known io = refl

capability_of_value : (c : Capability) → capability_of (capability_value c) ≡ some c
unfolding capability_of
capability_of_value cpu = refl
capability_of_value gpu = refl
capability_of_value io = refl

queue_of-capability :
    (queue : String) (c : Capability) → capability_for queue ≡ some c → queue_for c ≡ queue
unfolding capability_for queue_for
queue_of-capability queue cpu h = ground (arith, string_key.agree_iff queue "ancora-cpu")
queue_of-capability queue gpu h = ground (arith, string_key.agree_iff queue "ancora-gpu")
queue_of-capability queue io h = ground (arith, string_key.agree_iff queue "ancora-io")

-- Each capability has one queue, which is among the listed ones; a queue serves a capability
-- exactly if it is that capability's queue, so work of one capability never reaches a worker
-- that polls the queues of others; the orchestration queue serves none; and a capability is
-- read back from its text.
routing :
    (c : Capability) (queue : String)
    → (capability_for (queue_for c) ≡ some c)
      × (capability_for queue ≡ some c → queue_for c ≡ queue)
      × (any (λ q. q == queue_for c) all_capability_queues ≡ true)
      × (capability_for workflow_task_queue ≡ none)
      × (capability_of (capability_value c) ≡ some c)
routing c queue = (
  capability_for-queue_for c,
  queue_of-capability queue c,
  queue_for_known c,
  unfold capability_for in refl,
  capability_of_value c,
)

module _ ⦃f : Float⦄ where
  -- A request that is written to its dict and read back is the same, so a worker sees what the
  -- node asked for.
  from_dict-to_dict : (s : ResourceSpec) → from_dict (some (to_dict s)) ≡ s
  unfolding from_dict to_dict
  from_dict-to_dict s = refl
