-- ===== src/Common/Resources.antt =====
-- packages/common/ancora_common/resources.py: capabilities, the task queue of each, and resource
-- requests. A dict with fixed keys is a record of optional values.
pub mod Routing
mod Tests
use ancora.Prelude.{
  ℕ, ◌*◌, Bool, true, false, Option, none, some, String, List, [], ◌∷◌, map, not, ◌==◌, string_key,
  nat_eq, if◌then◌else◌,
}
use ancora.Number.{Float, Num, fnum, below, same}

pub data Capability : Type 0 where
  cpu gpu io : Capability

abbrev pub capability_value : Capability → String
capability_value cpu = "cpu"
capability_value gpu = "gpu"
capability_value io = "io"

-- Capability(text), none where it raises ValueError
unfoldable pub capability_of : String → Option Capability
capability_of text =
    if text == "cpu"
    then some cpu
    else if text == "gpu"
    then some gpu
    else if text == "io"
    then some io
    else none

-- _QUEUE_BY_CAPABILITY, as queue_for reads it
unfoldable pub queue_for : Capability → String
queue_for cpu = "ancora-cpu"
queue_for gpu = "ancora-gpu"
queue_for io = "ancora-io"

abbrev pub workflow_task_queue : String
workflow_task_queue = "ancora-default"

abbrev pub all_capability_queues : List String
all_capability_queues = "ancora-cpu" ∷ "ancora-gpu" ∷ "ancora-io" ∷ []

-- _CAPABILITY_BY_QUEUE, as capability_for reads it
unfoldable pub capability_for : String → Option Capability
capability_for queue =
    if queue == "ancora-cpu"
    then some cpu
    else if queue == "ancora-gpu"
    then some gpu
    else if queue == "ancora-io"
    then some io
    else none

module _ ⦃f : Float⦄ where
  pub record ResourceSpec : Type 0 where
    pub num_cpus : Num
    pub num_gpus : Num
    pub accelerator_type : Option String
    pub memory_mb : Option ℕ

  -- ResourceSpec.capability
  unfoldable pub capability : ResourceSpec → Capability
  capability s = if below (fnum 0) s.num_gpus then gpu else cpu

  -- the keys of to_ray_options that are set
  pub record RayOptions : Type 0 where
    pub num_cpus : Num
    pub num_gpus : Option Num
    pub accelerator_type : Option String
    pub memory : Option ℕ

  -- if self.accelerator_type
  abbrev pub named : Option String → Option String
  named none = none
  named (some text) = if text == "" then none else some text

  abbrev bytes_of : Option ℕ → Option ℕ
  bytes_of none = none
  bytes_of (some mb) = if nat_eq mb 0 then none else some (mb * 1024 * 1024)

  unfoldable pub to_ray_options : ResourceSpec → RayOptions
  to_ray_options s = record {
    num_cpus = s.num_cpus;
    num_gpus = if same s.num_gpus (fnum 0) then none else some s.num_gpus;
    accelerator_type = named s.accelerator_type;
    memory = bytes_of s.memory_mb;
  }

  -- the dict of to_dict and from_dict
  pub record SpecDict : Type 0 where
    pub num_cpus : Option Num
    pub num_gpus : Option Num
    pub accelerator_type : Option String
    pub memory_mb : Option ℕ

  unfoldable pub to_dict : ResourceSpec → SpecDict
  to_dict s = record {
    num_cpus = some s.num_cpus;
    num_gpus = some s.num_gpus;
    accelerator_type = s.accelerator_type;
    memory_mb = s.memory_mb;
  }

  abbrev or_num : Num → Option Num → Num
  or_num d none = d
  or_num d (some x) = x

  -- from_dict: none is None or the empty dict
  unfoldable pub from_dict : Option SpecDict → ResourceSpec
  from_dict none = record {
    num_cpus = fnum 1;
    num_gpus = fnum 0;
    accelerator_type = none;
    memory_mb = none;
  }
  from_dict (some d) = record {
    num_cpus = or_num (fnum 1) d.num_cpus;
    num_gpus = or_num (fnum 0) d.num_gpus;
    accelerator_type = d.accelerator_type;
    memory_mb = d.memory_mb;
  }

  pub record WorkerCapabilities : Type 0 where
    pub worker_id : String
    pub pools : List Capability
    pub total_cpus : Num
    pub total_gpus : Num
    pub accelerator_type : Option String

  -- WorkerCapabilities.task_queues
  unfoldable pub task_queues : WorkerCapabilities → List String
  task_queues w = map queue_for w.pools
