-- ===== src/Common/Resources/Tests.antt =====
-- Requests and queues of resources.py.
use ancora.Prelude.{◌≡◌, refl, none, some, string_key}
use ancora.Prelude.Int.{pos}
use ancora.Number.Whole.{whole}
use ancora.Common.Resources.{ResourceSpec, to_ray_options}

abbrev two_gpus : ResourceSpec
two_gpus = record {
  num_cpus = pos 4;
  num_gpus = pos 2;
  accelerator_type = some "";
  memory_mb = some 512;
}

ray_options_set : to_ray_options two_gpus ≡ record {
  num_cpus = pos 4;
  num_gpus = some (pos 2);
  accelerator_type = none;
  memory = some 536870912;
}
unfolding to_ray_options
ray_options_set = refl
