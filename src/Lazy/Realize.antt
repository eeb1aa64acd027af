-- ===== src/Lazy/Realize.antt =====
-- `realize` and `push` of `LazyFork` in tinymachine-fork/src/lazy.rs. No result stands for the panic of `chunks`
-- at a batch size of zero.
use tinymachine.Common.{
  ℕ, Option, none, some, List, [], ◌∷◌, ◌++◌, map, leb, if◌then◌else◌, Text, length, replicate,
  Result,
}
use tinymachine.Pool.Manager.{PoolManager}
use tinymachine.Lazy.Config.{QueuedCode, Failure, LazyFork, effective_batch_size}
use tinymachine.Lazy.Chunks.{Batch, unwrap_slot, run_chunks}

-- the time that a push starts the timer at, where it is not running
unfoldable pub started : Option ℕ → ℕ → Option ℕ
started none now = some now
started (some start) now = some start

module _ {Host Engine Vm E : Type 0} where
  -- what is left when all chunks have run
  unfoldable pub finished :
      LazyFork Engine Vm
      → Batch Host Engine Vm E
      → List (Result (Failure E) Text) × LazyFork Engine Vm × Host
  finished l b = (map unwrap_slot b.results, record l { pool_manager = some b.manager }, b.host)

-- the results, the scheduler and the host after a call
abbrev pub Realized : (Host Engine Vm E : Type 0) → Type 0
Realized Host Engine Vm E = Option (List (Result (Failure E) Text) × LazyFork Engine Vm × Host)

module _ {Host Engine Vm E : Type 0} (fork : Engine → Host → Result E Vm × Host)
    (run_code : Vm → Text → Result (Failure E) Text × Vm) (ram_bytes : Text → ℕ) where
  unfoldable pub run_items :
      LazyFork Engine Vm
      → List QueuedCode
      → ℕ
      → Option (PoolManager Engine Vm)
      → Host
      → Realized Host Engine Vm E
  unfolding finished run_chunks
  run_items l [] batch manager host = some ([], l, host)
  run_items l (item ∷ items) batch none host = some ([], l, host)
  run_items l (item ∷ items) batch (some manager) host =
      let slots = replicate (length (item ∷ items)) none in
      let b : Batch Host Engine Vm E = record {
        acquired = [];
        results = slots;
        manager = manager;
        host = host;
      } in
      if leb batch 0
      then none
      else some
          (finished l (run_chunks fork run_code (length (item ∷ items)) batch b 0 (item ∷ items)))

  unfoldable pub realize : LazyFork Engine Vm → Host → Realized Host Engine Vm E
  unfolding run_items
  realize l host =
      run_items (record l { queue = []; timer_start = none }) l.queue
        (effective_batch_size ram_bytes l.config l.queue) l.pool_manager host

  -- `push` throws away the results of the `realize` that it makes.
  unfoldable pub push : LazyFork Engine Vm → Text → Text → ℕ → Host → Realized Host Engine Vm E
  unfolding realize started
  push l code variant_id now host =
      let l' : LazyFork Engine Vm = record l {
        queue = l.queue ++ record { code = code; variant_id = variant_id } ∷ [];
        timer_start = started l.timer_start now;
      } in
      if leb l.config.max_batch (length l'.queue) then realize l' host else some ([], l', host)
