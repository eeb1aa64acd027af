-- ===== src/Lazy/Config.antt =====
-- The state and the configuration of `LazyFork` in tinymachine-fork/src/lazy.rs.
use tinymachine.Common.{
  ℕ, ◌-◌, ◌*◌, ◌/◌, max, Bool, true, false, Option, none, some, List, [], map, ltb, leb, ◌==◌,
  if◌then◌else◌, Text, length, sum,
}
use tinymachine.Pool.Fork.{PoolError}
use tinymachine.Pool.Manager.{PoolManager}

pub record QueuedCode : Type 0 where
  pub code : Text
  pub variant_id : Text

pub record LazyConfig : Type 0 where
  pub max_batch : ℕ
  pub max_latency : ℕ
  pub profiler_enabled : Bool

pub record LazyFork (Engine Vm : Type 0) : Type 0 where
  pub queue : List QueuedCode
  pub pool_manager : Option (PoolManager Engine Vm)
  pub config : LazyConfig
  pub timer_start : Option ℕ

-- The text of an error, by what it is made of.
pub data Failure (E : Type 0) : Type 0 where
  acquire_failed : (variant_id : Text) → PoolError E → Failure E
  code_failed : Text → Failure E
  uninitialized_slot : Failure E

abbrev pub free_ram : ℕ
free_ram = 8 * 1024 * 1024 * 1024

-- whether the latency has passed since the timer was started
expired : Option ℕ → ℕ → ℕ → Bool
expired none now max_latency = false
expired (some start) now max_latency = leb max_latency (now - start)

module _ {Engine Vm : Type 0} where
  abbrev pub new : LazyConfig → LazyFork Engine Vm
  new config = record { queue = []; pool_manager = none; config = config; timer_start = none }

  abbrev pub set_pool_manager : LazyFork Engine Vm → PoolManager Engine Vm → LazyFork Engine Vm
  set_pool_manager l manager = record l { pool_manager = some manager }

  unfoldable pub clear : LazyFork Engine Vm → LazyFork Engine Vm
  clear l = record l { queue = []; timer_start = none }

  unfoldable pub is_ready : LazyFork Engine Vm → ℕ → Bool
  unfolding expired
  is_ready l now =
      if length l.queue == 0
      then false
      else if leb l.config.max_batch (length l.queue)
      then true
      else expired l.timer_start now l.config.max_latency

unfoldable pub effective_batch_size : (Text → ℕ) → LazyConfig → List QueuedCode → ℕ
effective_batch_size ram_bytes config items =
    let total_ram = sum (map (λ item. ram_bytes item.code) items) in
    let max_ram = free_ram / 2 in
    if config.profiler_enabled
    then (if total_ram == 0
        then config.max_batch
        else if ltb max_ram total_ram
        then max (config.max_batch * max_ram / total_ram) 1
        else config.max_batch)
    else config.max_batch
