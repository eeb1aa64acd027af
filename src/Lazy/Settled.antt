-- ===== src/Lazy/Settled.antt =====
-- All slots of `LazyFork::realize` of tinymachine-fork/src/lazy.rs, where VMs cannot be acquired.
use mathlib.Core.List.{append_assoc}
use tinymachine.Common.{
  ℕ, zero, suc, ◌+◌, ◌<◌, ◌≤◌, ◌≡◌, refl, sym, ap, ◌∙◌, Option, some, none, List, [], ◌∷◌, ◌++◌,
  map, Text, length, length-append, length-drop, length-take, replicate, take, drop, leb, arith,
  Result, false,
}
use tinymachine.Pool.Manager.{PoolManager}
use tinymachine.Lazy.Config.{QueuedCode, LazyFork, Failure, effective_batch_size}
use tinymachine.Lazy.Chunks.{Batch, unwrap_slot, run_chunk, run_chunks}
use tinymachine.Lazy.Realize.{Realized, finished, run_items, realize}
use tinymachine.Lazy.Slots.{
  effective_batch_size-positive, length-map, length-replicate, length-run_chunks,
}
use tinymachine.Lazy.Failures.{attempts, chunk_slots, length-chunk_slots, run_chunk-chunk_slots}

replicate-append :
    {A : Type 0} (m n : ℕ) (a : A) → replicate (m + n) a ≡ replicate m a ++ replicate n a
replicate-append zero n a = ap (λ k. replicate k a) {x = 0 + n} {y = n} (omega arith)
replicate-append (suc m) n a =
    ap (λ k. replicate k a) {x = suc m + n} {y = suc (m + n)} (omega arith)
    ∙ ap (λ l. a ∷ l) (replicate-append m n a)

module _ {Host Engine Vm E : Type 0} (fork : Engine → Host → Result E Vm × Host)
    (run_code : Vm → Text → Result (Failure E) Text × Vm) where
  -- The slots of one chunk after the other, each with the manager and the host that those before it left.
  abbrev pub all_slots :
      ℕ → ℕ → Batch Host Engine Vm E → ℕ → List QueuedCode → List (Option (Result (Failure E) Text))
  all_slots zero batch b base items = []
  all_slots (suc fuel) batch b base [] = []
  all_slots (suc fuel) batch b base (item ∷ items) =
      let chunk = take batch (item ∷ items) in
      chunk_slots fork run_code (attempts fork run_code b.manager b.host chunk) chunk
      ++ all_slots fuel batch (run_chunk fork run_code b base chunk) (base + length chunk)
          (drop batch (item ∷ items))

  -- One chunk, with the empty slots of all items that are left behind it.
  chunk_settled :
      (b : Batch Host Engine Vm E) (front : List (Option (Result (Failure E) Text))) (base n : ℕ)
      (items : List QueuedCode)
      → base ≡ length front
      → b.results ≡ front ++ replicate (length items) none
      → (run_chunk fork run_code b base (take n items)).results
        ≡ (front
            ++ chunk_slots fork run_code
                (attempts fork run_code b.manager b.host (take n items))
                (take n items))
          ++ replicate (length (drop n items)) none
  chunk_settled b front base n items e at =
      let total : length items ≡ length (take n items) + length (drop n items) =
        omega (arith, length-take n items, length-drop n items) in
      rw e (
        run_chunk-chunk_slots fork run_code b (take n items) front
          (replicate (length (drop n items)) none)
          (at
            ∙ ap (λ k. front ++ replicate k none) total
            ∙ ap (λ s. front ++ s) (replicate-append (length (take n items)) _ none))
        ∙ sym (append_assoc front _ _))

  run_chunks-all_slots :
      (fuel batch : ℕ) (front : List (Option (Result (Failure E) Text)))
      (b : Batch Host Engine Vm E) (base : ℕ) (items : List QueuedCode)
      → length items ≤ fuel
      → 0 < batch
      → base ≡ length front
      → b.results ≡ front ++ replicate (length items) none
      → (run_chunks fork run_code fuel batch b base items).results
        ≡ front ++ all_slots fuel batch b base items
  unfolding run_chunks
  run_chunks-all_slots zero batch front b base [] le positive e at = at
  run_chunks-all_slots zero batch front b base (item ∷ items) le positive e at =
      absurd (omega (arith, le))
  run_chunks-all_slots (suc fuel) batch front b base [] le positive e at = at
  run_chunks-all_slots (suc fuel) batch front b base (item ∷ items) le positive e at =
      let chunk = take batch (item ∷ items) in
      let slots = chunk_slots fork run_code (attempts fork run_code b.manager b.host chunk) chunk in
      run_chunks-all_slots fuel batch (front ++ slots) (run_chunk fork run_code b base chunk)
        (base + length chunk) (drop batch (item ∷ items))
        (omega (arith, length-drop batch (item ∷ items))) positive
        (omega (
          arith,
          e,
          length-append front slots,
          length-chunk_slots fork run_code chunk b.manager b.host,
        ))
        (chunk_settled b front base batch (item ∷ items) e at)
      ∙ append_assoc front slots _

-- the state before the first chunk
abbrev pub unfilled :
    {Host Engine Vm : Type 0} (E : Type 0)
    → PoolManager Engine Vm
    → Host
    → List QueuedCode
    → Batch Host Engine Vm E
unfilled E m host items = record {
  acquired = [];
  results = replicate (length items) none;
  manager = m;
  host = host;
}

module _ {Host Engine Vm E : Type 0} where
  -- The results are those of the slots, as many as the items, the queue is empty and the timer stopped.
  abbrev pub Settled :
      List QueuedCode → List (Option (Result (Failure E) Text)) → Realized Host Engine Vm E → Type 0
  Settled items slots none = ⊥
  Settled items slots (some (results, l, host)) =
      (results ≡ map unwrap_slot slots)
      × (length results ≡ length items)
      × (l.queue ≡ [])
      × (l.timer_start ≡ none)

  finished-Settled :
      (items : List QueuedCode) (slots : List (Option (Result (Failure E) Text)))
      (l : LazyFork Engine Vm) (b : Batch Host Engine Vm E)
      → b.results ≡ slots
      → length b.results ≡ length items
      → l.queue ≡ []
      → l.timer_start ≡ none
      → Settled items slots (some (finished l b))
  unfolding finished
  finished-Settled items slots l b same count empty stopped =
      (ap (λ s. map unwrap_slot s) same, length-map _ b.results ∙ count, empty, stopped)

module _ {Host Engine Vm E : Type 0} (fork : Engine → Host → Result E Vm × Host)
    (run_code : Vm → Text → Result (Failure E) Text × Vm) (ram_bytes : Text → ℕ) where
  run_items-Settled :
      (l : LazyFork Engine Vm) (items : List QueuedCode) (batch : ℕ) (m : PoolManager Engine Vm)
      (host : Host)
      → 0 < batch
      → l.queue ≡ []
      → l.timer_start ≡ none
      → Settled items
          (all_slots fork run_code (length items) batch (unfilled E m host items) 0 items)
          (run_items fork run_code ram_bytes l items batch (some m) host)
  unfolding run_items
  run_items-Settled l [] batch m host some_batch empty stopped = (refl, refl, empty, stopped)
  run_items-Settled l (item ∷ items) batch m host some_batch empty stopped =
      let b = unfilled E m host (item ∷ items) in
      let all = length (item ∷ items) in
      let positive : leb batch 0 ≡ false = ground arith in
      rw (positive, run_items)
        (finished-Settled (item ∷ items) _ l (run_chunks fork run_code all batch b 0 (item ∷ items))
          (run_chunks-all_slots fork run_code all batch [] b 0 (item ∷ items) (omega arith)
            some_batch refl refl)
          (length-run_chunks fork run_code all batch b 0 (item ∷ items) ∙ length-replicate all none)
          empty stopped)

  -- With a manager attached and a positive largest batch, `realize` ends with an empty queue and the timer stopped,
  -- whatever fails on the way, and gives as many results as items waited: chunk after chunk, first the answers of the
  -- VMs acquired, the `i`-th VM having run the `i`-th snippet of the chunk, and past them, in its own place, each item's
  -- failure to acquire a VM, or the internal error of an empty slot where its VM was acquired.
  pub realize-Settled :
      (l : LazyFork Engine Vm) (m : PoolManager Engine Vm) (host : Host)
      → l.pool_manager ≡ some m
      → 0 < l.config.max_batch
      → Settled l.queue
          (all_slots fork run_code
            (length l.queue)
            (effective_batch_size ram_bytes l.config l.queue)
            (unfilled E m host l.queue)
            0
            l.queue)
          (realize fork run_code ram_bytes l host)
  unfolding realize
  realize-Settled l m host attached some_batch = rw attached (
      run_items-Settled _ l.queue _ m host
        (effective_batch_size-positive ram_bytes l.config l.queue some_batch) refl refl)
