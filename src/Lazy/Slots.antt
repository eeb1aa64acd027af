-- ===== src/Lazy/Slots.antt =====
-- The slots of a batch in `LazyFork::realize` of tinymachine-fork/src/lazy.rs.
use tinymachine.Common.{
  ℕ, zero, suc, ◌<◌, ◌≡◌, refl, ap, ◌∙◌, some, List, [], ◌∷◌, map, Text, length, length-set,
  replicate, take, drop, arith, Result, ok, err,
}
use tinymachine.Pool.Fork.{PoolError}
use tinymachine.Pool.Manager.{PoolManager}
use tinymachine.Lazy.Config.{QueuedCode, LazyConfig, Failure, effective_batch_size}
use tinymachine.Lazy.Chunks.{Batch, admit, acquire_all, release_all, run_all, run_chunk, run_chunks}

pub length-map : {A B : Type 0} (f : A → B) (xs : List A) → length (map f xs) ≡ length xs
length-map f [] = refl
length-map f (x ∷ xs) = ap suc (length-map f xs)

pub length-replicate : {A : Type 0} (n : ℕ) (a : A) → length (replicate n a) ≡ n
length-replicate zero a = refl
length-replicate (suc n) a = ap suc (length-replicate n a)

-- A profiler may lower the size of a batch, to one at the least.
pub effective_batch_size-positive :
    (ram_bytes : Text → ℕ) (config : LazyConfig) (items : List QueuedCode)
    → 0 < config.max_batch
    → 0 < effective_batch_size ram_bytes config items
unfolding effective_batch_size
effective_batch_size-positive ram_bytes config items some_batch = ground arith

module _ {Host Engine Vm E : Type 0} where
  length-admit :
      (b : Batch Host Engine Vm E) (i : ℕ) (id : Text)
      (r : Result (PoolError E) Vm × PoolManager Engine Vm × Host)
      → length (admit b i id r).results ≡ length b.results
  unfolding admit
  length-admit b i id (ok vm, m, host) = refl
  length-admit b i id (err e, m, host) = length-set b.results i _

  length-release_all :
      (l : List (Text × Result (Failure E) Text × Vm)) (b : Batch Host Engine Vm E) (i : ℕ)
      → length (release_all b i l).results ≡ length b.results
  unfolding release_all
  length-release_all [] b i = refl
  length-release_all ((id, r, vm) ∷ rest) b i =
      length-release_all rest _ (suc i) ∙ length-set b.results i (some r)

module _ {Host Engine Vm E : Type 0} (fork : Engine → Host → Result E Vm × Host)
    (run_code : Vm → Text → Result (Failure E) Text × Vm) where
  length-acquire_all :
      (items : List QueuedCode) (b : Batch Host Engine Vm E) (i : ℕ)
      → length (acquire_all fork run_code b i items).results ≡ length b.results
  unfolding acquire_all
  length-acquire_all [] b i = refl
  length-acquire_all (item ∷ items) b i =
      length-acquire_all items _ (suc i) ∙ length-admit b i item.variant_id _

  length-run_chunk :
      (b : Batch Host Engine Vm E) (base : ℕ) (chunk : List QueuedCode)
      → length (run_chunk fork run_code b base chunk).results ≡ length b.results
  unfolding run_chunk
  length-run_chunk b base chunk =
      let b' = acquire_all fork run_code (record b { acquired = [] }) base chunk in
      length-release_all (run_all fork run_code b'.acquired chunk) b' base
      ∙ length-acquire_all chunk (record b { acquired = [] }) base

  pub length-run_chunks :
      (fuel batch : ℕ) (b : Batch Host Engine Vm E) (base : ℕ) (items : List QueuedCode)
      → length (run_chunks fork run_code fuel batch b base items).results ≡ length b.results
  unfolding run_chunks
  length-run_chunks zero batch b base items = refl
  length-run_chunks (suc fuel) batch b base [] = refl
  length-run_chunks (suc fuel) batch b base (item ∷ items) =
      length-run_chunks fuel batch _ _ (drop batch (item ∷ items))
      ∙ length-run_chunk b base (take batch (item ∷ items))
