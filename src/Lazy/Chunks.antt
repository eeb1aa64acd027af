-- ===== src/Lazy/Chunks.antt =====
-- One chunk of a batch, and all of them, in `LazyFork::realize` of tinymachine-fork/src/lazy.rs.
use tinymachine.Common.{
  ℕ, zero, suc, ◌+◌, Option, none, some, List, [], ◌∷◌, ◌++◌, Text, length, take, drop, set, Result,
  ok, err,
}
use tinymachine.Pool.Fork.{PoolError}
use tinymachine.Pool.Manager
use tinymachine.Pool.Manager.{PoolManager}
use tinymachine.Lazy.Config.{QueuedCode, Failure, acquire_failed, uninitialized_slot}

-- what a chunk has come to: the VMs acquired, the slots filled, and the manager and host after it
pub record Batch (Host Engine Vm E : Type 0) : Type 0 where
  pub acquired : List (Text × Vm)
  pub results : List (Option (Result (Failure E) Text))
  pub manager : PoolManager Engine Vm
  pub host : Host

-- `r.unwrap_or_else(…)`
unfoldable pub unwrap_slot :
    {E : Type 0} → Option (Result (Failure E) Text) → Result (Failure E) Text
unwrap_slot none = err uninitialized_slot
unwrap_slot (some r) = r

module _ {Host Engine Vm E : Type 0} where
  unfoldable pub admit :
      Batch Host Engine Vm E
      → ℕ
      → Text
      → Result (PoolError E) Vm × PoolManager Engine Vm × Host
      → Batch Host Engine Vm E
  admit b idx variant_id (ok vm, manager, host) = record b {
    acquired = b.acquired ++ (variant_id, vm) ∷ [];
    manager = manager;
    host = host;
  }
  admit b idx variant_id (err e, manager, host) = record b {
    results = set b.results idx (some (err (acquire_failed variant_id e)));
    manager = manager;
    host = host;
  }

  -- One VM and its result: back to the pool, whatever the release answers, and into its slot.
  unfoldable pub release_all :
      Batch Host Engine Vm E
      → ℕ
      → List (Text × Result (Failure E) Text × Vm)
      → Batch Host Engine Vm E
  release_all b idx [] = b
  release_all b idx ((variant_id, result, vm) ∷ rest) =
      let (released, manager, host) = Manager.release {E = E} b.manager variant_id vm b.host in
      release_all
        (record b { results = set b.results idx (some result); manager = manager; host = host })
        (suc idx) rest

module _ {Host Engine Vm E : Type 0} (fork : Engine → Host → Result E Vm × Host)
    (run_code : Vm → Text → Result (Failure E) Text × Vm) where
  unfoldable pub acquire_all : Batch Host Engine Vm E → ℕ → List QueuedCode → Batch Host Engine Vm E
  unfolding admit
  acquire_all b idx [] = b
  acquire_all b idx (item ∷ items) =
      acquire_all
        (admit b idx item.variant_id (Manager.acquire fork b.manager item.variant_id b.host))
        (suc idx) items

  -- The `vm_idx`-th VM acquired runs the `vm_idx`-th snippet of the chunk.
  unfoldable pub run_all :
      List (Text × Vm) → List QueuedCode → List (Text × Result (Failure E) Text × Vm)
  run_all [] chunk = []
  run_all (a ∷ acquired) [] = []
  run_all ((variant_id, vm) ∷ acquired) (item ∷ chunk) =
      (let (result, vm') = run_code vm item.code in (variant_id, result, vm'))
      ∷ run_all acquired chunk

  unfoldable pub run_chunk : Batch Host Engine Vm E → ℕ → List QueuedCode → Batch Host Engine Vm E
  unfolding acquire_all run_all release_all
  run_chunk b base chunk =
      let b' = acquire_all (record b { acquired = [] }) base chunk in
      release_all b' base (run_all b'.acquired chunk)

  -- `for chunk in items.chunks(batch)`, with fuel of the number of items
  unfoldable pub run_chunks :
      ℕ → ℕ → Batch Host Engine Vm E → ℕ → List QueuedCode → Batch Host Engine Vm E
  unfolding run_chunk
  run_chunks zero batch b base items = b
  run_chunks (suc fuel) batch b base [] = b
  run_chunks (suc fuel) batch b base (item ∷ items) =
      run_chunks fuel batch (run_chunk b base (take batch (item ∷ items)))
        (base + length (take batch (item ∷ items))) (drop batch (item ∷ items))
