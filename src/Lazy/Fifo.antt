-- ===== src/Lazy/Fifo.antt =====
-- The results of `LazyFork::realize` of tinymachine-fork/src/lazy.rs, in order.
use tinymachine.Common.{
  ℕ, zero, suc, ◌+◌, ◌<◌, ◌≤◌, ◌≡◌, refl, ap, ◌∙◌, Option, some, none, List, [], ◌∷◌, ◌++◌, map,
  Text, length, length-drop, replicate, take, drop, leb, arith, Result, false,
}
use tinymachine.Pool.Fork.Warm.{IsOk}
use tinymachine.Pool.Manager.{PoolManager}
use tinymachine.Lazy.Config.{QueuedCode, LazyFork, Failure}
use tinymachine.Lazy.Chunks.{Batch, unwrap_slot, acquire_all, run_all, run_chunk, run_chunks}
use tinymachine.Lazy.Realize.{Realized, finished, run_items, realize}
use tinymachine.Lazy.Slots.{effective_batch_size-positive}
use tinymachine.Lazy.Steps.{
  fill, map-unwrap_slot, Registered, Alike, Registered-Alike, Registered-split, release_all_lem,
  acquire_all_lem, run_all_lem, outs, fill-outs, slots_joined, slots_grown,
}

module _ {Host Engine Vm E : Type 0} (fork : Engine → Host → Result E Vm × Host)
    (run_code : Vm → Text → Result (Failure E) Text × Vm)
    (never_fails : (engine : Engine) (host : Host) → IsOk (fork engine host).0)
    (out : Text → Result (Failure E) Text)
    (same_in_all : (vm : Vm) (code : Text) → (run_code vm code).0 ≡ out code) where
  run_chunk_lem :
      (b : Batch Host Engine Vm E) (base : ℕ) (chunk : List QueuedCode)
      → Registered b.manager chunk
      → ((run_chunk fork run_code b base chunk).results ≡ fill b.results base (outs out chunk))
        × Alike b.manager (run_chunk fork run_code b base chunk).manager
  unfolding run_chunk
  run_chunk_lem b base chunk all =
      let b' = acquire_all fork run_code (record b { acquired = [] }) base chunk in
      let (slots, count, alike) =
        acquire_all_lem fork run_code never_fails chunk (record b { acquired = [] }) base all in
      let (filled, alike') = release_all_lem (run_all fork run_code b'.acquired chunk) b' base in
      let ran =
        run_all_lem fork run_code out same_in_all b'.acquired chunk (omega (arith, count)) in
      (
        filled
            ∙ ap (λ l. fill b'.results base l) ran
            ∙ ap (λ l. fill l base (outs out chunk)) slots,
        λ j. alike' j ∙ alike j,
      )

  run_chunks_lem :
      (fuel batch : ℕ) (front : List (Option (Result (Failure E) Text)))
      (b : Batch Host Engine Vm E) (base : ℕ) (items : List QueuedCode)
      → length items ≤ fuel
      → 0 < batch
      → base ≡ length front
      → Registered b.manager items
      → b.results ≡ front ++ replicate (length items) none
      → (run_chunks fork run_code fuel batch b base items).results
        ≡ front ++ map some (outs out items)
  unfolding run_chunks
  run_chunks_lem zero batch front b base [] le positive at all e = e
  run_chunks_lem zero batch front b base (item ∷ items) le positive at all e =
      absurd (omega (arith, le))
  run_chunks_lem (suc fuel) batch front b base [] le positive at all e = e
  run_chunks_lem (suc fuel) batch front b base (item ∷ items) le positive at all e =
      let (now, later) = Registered-split b.manager batch (item ∷ items) all in
      let (filled, alike) = run_chunk_lem b base (take batch (item ∷ items)) now in
      run_chunks_lem fuel batch (front ++ map some (outs out (take batch (item ∷ items))))
        (run_chunk fork run_code b base (take batch (item ∷ items)))
        (base + length (take batch (item ∷ items))) (drop batch (item ∷ items))
        (omega (arith, length-drop batch (item ∷ items))) positive
        (slots_grown out front base batch (item ∷ items) at)
        (Registered-Alike b.manager _ (drop batch (item ∷ items)) alike later)
        (filled
          ∙ ap (λ l. fill l base (outs out (take batch (item ∷ items)))) e
          ∙ fill-outs out front base batch (item ∷ items) at)
      ∙ slots_joined out front batch (item ∷ items)

module _ {Host Engine Vm E : Type 0} where
  -- A call that gave the results `rs`.
  abbrev pub Answers : List (Result (Failure E) Text) → Realized Host Engine Vm E → Type 0
  Answers rs none = ⊥
  Answers rs (some (results, l, host)) = results ≡ rs

  finished-Answers :
      (rs : List (Result (Failure E) Text)) (l : LazyFork Engine Vm) (b : Batch Host Engine Vm E)
      → b.results ≡ map some rs
      → Answers rs (some (finished l b))
  unfolding finished
  finished-Answers rs l b e = ap (λ l'. map unwrap_slot l') e ∙ map-unwrap_slot rs

module _ {Host Engine Vm E : Type 0} (fork : Engine → Host → Result E Vm × Host)
    (run_code : Vm → Text → Result (Failure E) Text × Vm) (ram_bytes : Text → ℕ)
    (never_fails : (engine : Engine) (host : Host) → IsOk (fork engine host).0)
    (out : Text → Result (Failure E) Text)
    (same_in_all : (vm : Vm) (code : Text) → (run_code vm code).0 ≡ out code) where
  run_items-Answers :
      (l : LazyFork Engine Vm) (items : List QueuedCode) (batch : ℕ) (m : PoolManager Engine Vm)
      (host : Host)
      → 0 < batch
      → Registered m items
      → Answers (outs out items) (run_items fork run_code ram_bytes l items batch (some m) host)
  unfolding run_items
  run_items-Answers l [] batch m host some_batch all = refl
  run_items-Answers l (item ∷ items) batch m host some_batch all =
      let b : Batch Host Engine Vm E = record {
        acquired = [];
        results = replicate (length (item ∷ items)) none;
        manager = m;
        host = host;
      } in
      let positive : leb batch 0 ≡ false = ground arith in
      rw (positive, run_items)
        (finished-Answers (outs out (item ∷ items)) l
          (run_chunks fork run_code (length (item ∷ items)) batch b 0 (item ∷ items))
          (run_chunks_lem fork run_code never_fails out same_in_all (length (item ∷ items)) batch []
            b 0 (item ∷ items) (omega arith) some_batch refl all refl))

  -- If a manager is attached that has a pool for every item, the largest batch is positive, no fork
  -- fails, and what a snippet answers does not depend on the VM that runs it, then `realize` answers each
  -- item with the result of its own snippet, first come first, however the items fall into batches.
  pub realize-Answers :
      (l : LazyFork Engine Vm) (m : PoolManager Engine Vm) (host : Host)
      → l.pool_manager ≡ some m
      → 0 < l.config.max_batch
      → Registered m l.queue
      → Answers (outs out l.queue) (realize fork run_code ram_bytes l host)
  unfolding realize
  realize-Answers l m host attached some_batch all = rw attached (
      run_items-Answers _ l.queue _ m host
        (effective_batch_size-positive ram_bytes l.config l.queue some_batch) all)
