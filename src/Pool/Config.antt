-- ===== src/Pool/Config.antt =====
-- `PoolConfig` of tinymachine-fork/src/pool.rs, and the part of tinymachine-fork/src/variant.rs that
-- it reads. The fields `min` and `max` of the source are `min_idle` and `max_idle` here.
use tinymachine.Common.{ℕ, min, Bool, Option, none, some, ◌++◌, Text, codes, take}

pub data ExecutionTier : Type 0 where
  wasm host_gpu kvm_fork orchestrator qemu_vm fresh_boot : ExecutionTier

pub data KernelProfile : Type 0 where
  base gpu_vk gpu_vfio gpu_nvidia : KernelProfile

pub record ResourceLimits : Type 0 where
  pub max_memory : ℕ
  pub max_cpu_ms : ℕ
  pub network_allowed : Bool
  pub gpu_required : Bool

pub record Variant : Type 0 where
  pub lang : Text
  pub name : Text
  pub description : Text
  pub tier : ExecutionTier
  pub kernel_profile : KernelProfile
  pub needs_initrd : Bool
  pub limits : ResourceLimits
  pub pool_min : ℕ
  pub pool_max : ℕ
  pub pool_idle_timeout_secs : ℕ
  pub kernel_version : Option Text

unfoldable pub id : Variant → Text
id v = v.lang ++ (codes ":" ++ v.name)

pub record PoolConfig : Type 0 where
  pub min_idle : ℕ
  pub max_idle : ℕ
  pub idle_timeout_secs : ℕ
  pub variant_id : Option Text

abbrev pub default : PoolConfig
default = record { min_idle = 3; max_idle = 20; idle_timeout_secs = 60; variant_id = none }

abbrev pub pool_max_cap : ℕ
pool_max_cap = 1000

unfoldable pub from_variant : Variant → PoolConfig
from_variant v = record {
  min_idle = min v.pool_min pool_max_cap;
  max_idle = min v.pool_max pool_max_cap;
  idle_timeout_secs = v.pool_idle_timeout_secs;
  variant_id = some (id v);
}

-- `format!("compose:{}", short_key)`
unfoldable pub compose_id : Text → Text
compose_id short_key = codes "compose:" ++ short_key

unfoldable pub from_composition : Text → PoolConfig
unfolding compose_id
from_composition composition_key = record {
  min_idle = 0;
  max_idle = min 10 pool_max_cap;
  idle_timeout_secs = 60;
  variant_id = some (compose_id (take 12 composition_key));
}
