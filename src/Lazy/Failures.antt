-- ===== src/Lazy/Failures.antt =====
-- The slots of a chunk in `LazyFork::realize` of tinymachine-fork/src/lazy.rs, where VMs cannot be acquired.
use mathlib.Core.List.{append-nil, append_assoc}
use tinymachine.Common.{
  ℕ, zero, suc, ◌≤◌, ◌≡◌, refl, sym, ap, ◌∙◌, Option, some, none, List, [], ◌∷◌, ◌++◌, map, Text,
  length, length-append, length-drop, replicate, drop, arith, Result, ok, err,
}
use tinymachine.Pool.Fork.{PoolError}
use tinymachine.Pool.Manager
use tinymachine.Pool.Manager.{PoolManager}
use tinymachine.Lazy.Config.{QueuedCode, Failure, acquire_failed}
use tinymachine.Lazy.Chunks.{Batch, admit, acquire_all, run_all, run_chunk}
use tinymachine.Lazy.Steps.{fill, set-append, append-cons, release_all_lem}

-- Results put over the first of some slots, after those of the items ahead.
fill-over :
    {R : Type 0} (rs : List R) (front slots : List (Option R)) (i : ℕ)
    → i ≡ length front
    → length rs ≤ length slots
    → fill (front ++ slots) i rs ≡ front ++ (map some rs ++ drop (length rs) slots)
fill-over [] front slots i e le = refl
fill-over (r ∷ rs) front [] i e le = absurd (omega arith)
fill-over (r ∷ rs) front (x ∷ slots) i e le =
    rw (e, set-append front x (some r) slots)
      (rw (← append-cons front (some r) slots) (
        fill-over rs (front ++ some r ∷ []) slots (suc (length front))
          (omega (arith, length-append front (some r ∷ []))) (omega arith)
        ∙ append-cons front (some r) _))

drop-append :
    {A : Type 0} (n : ℕ) (xs ys : List A) → n ≤ length xs → drop n (xs ++ ys) ≡ drop n xs ++ ys
drop-append zero xs ys le = refl
drop-append (suc n) [] ys le = absurd (omega arith)
drop-append (suc n) (x ∷ xs) ys le = drop-append n xs ys (omega arith)

-- an item's variant and what acquiring a VM for it gave
abbrev pub Attempt : (Vm E : Type 0) → Type 0
Attempt Vm E = Text × Result (PoolError E) Vm

module _ {Vm E : Type 0} where
  -- the VMs acquired
  abbrev pub vms : List (Attempt Vm E) → List (Text × Vm)
  vms [] = []
  vms ((id, ok vm) ∷ l) = (id, vm) ∷ vms l
  vms ((id, err e) ∷ l) = vms l

  -- each item's own slot before anything runs: its error, or nothing
  abbrev pub marks : List (Attempt Vm E) → List (Option (Result (Failure E) Text))
  marks [] = []
  marks ((id, ok vm) ∷ l) = none ∷ marks l
  marks ((id, err e) ∷ l) = some (err (acquire_failed id e)) ∷ marks l

  length-marks : (l : List (Attempt Vm E)) → length (marks l) ≡ length l
  length-marks [] = refl
  length-marks ((id, ok vm) ∷ l) = ap suc (length-marks l)
  length-marks ((id, err e) ∷ l) = ap suc (length-marks l)

  length-vms-le : (l : List (Attempt Vm E)) → length (vms l) ≤ length (marks l)
  length-vms-le [] = omega arith
  length-vms-le ((id, ok vm) ∷ l) = omega (arith, length-vms-le l)
  length-vms-le ((id, err e) ∷ l) = omega (arith, length-vms-le l)

module _ {Host Engine Vm E : Type 0} (fork : Engine → Host → Result E Vm × Host)
    (run_code : Vm → Text → Result (Failure E) Text × Vm) where
  -- the manager asked for one VM after another
  abbrev pub attempts : PoolManager Engine Vm → Host → List QueuedCode → List (Attempt Vm E)
  attempts m host [] = []
  attempts m host (item ∷ items) =
      let r = Manager.acquire fork m item.variant_id host in
      (item.variant_id, r.0) ∷ attempts r.1 r.2 items

  -- what the first snippets answer, each in the VM at its place among those acquired
  abbrev pub answers : List (Text × Vm) → List QueuedCode → List (Option (Result (Failure E) Text))
  answers [] chunk = []
  answers (v ∷ vs) [] = []
  answers ((id, vm) ∷ vs) (item ∷ chunk) = some (run_code vm item.code).0 ∷ answers vs chunk

  -- The slots of a chunk: the answers of the VMs acquired, however few, stand first, and the errors of the
  -- items past them in their own slots.
  abbrev pub chunk_slots :
      List (Attempt Vm E) → List QueuedCode → List (Option (Result (Failure E) Text))
  chunk_slots l chunk = answers (vms l) chunk ++ drop (length (vms l)) (marks l)

  length-attempts :
      (items : List QueuedCode) (m : PoolManager Engine Vm) (host : Host)
      → length (attempts m host items) ≡ length items
  length-attempts [] m host = refl
  length-attempts (item ∷ items) m host = ap suc (length-attempts items _ _)

  -- Acquiring fills the empty slots of the items with the errors, and collects the VMs.
  abbrev AreMarked : List QueuedCode → Type 0
  AreMarked items =
      (b : Batch Host Engine Vm E) (front back : List (Option (Result (Failure E) Text))) (i : ℕ)
      → i ≡ length front
      → b.results ≡ front ++ (replicate (length items) none ++ back)
      → ((acquire_all fork run_code b i items).results
          ≡ front ++ (marks (attempts b.manager b.host items) ++ back))
        × ((acquire_all fork run_code b i items).acquired
            ≡ b.acquired ++ vms (attempts b.manager b.host items))

  admitted_marks :
      (items : List QueuedCode)
      → AreMarked items
      → (b : Batch Host Engine Vm E) (front back : List (Option (Result (Failure E) Text))) (i : ℕ)
      → i ≡ length front
      → b.results ≡ front ++ (none ∷ (replicate (length items) none ++ back))
      → (id : Text) (r : Result (PoolError E) Vm × PoolManager Engine Vm × Host)
      → ((acquire_all fork run_code (admit b i id r) (suc i) items).results
          ≡ front ++ (marks ((id, r.0) ∷ attempts r.1 r.2 items) ++ back))
        × ((acquire_all fork run_code (admit b i id r) (suc i) items).acquired
            ≡ b.acquired ++ vms ((id, r.0) ∷ attempts r.1 r.2 items))
  unfolding admit
  admitted_marks items later b front back i e at id (ok vm, m, host) =
      let (slots, found) =
        later (admit b i id (ok vm, m, host)) (front ++ none ∷ []) back (suc i)
          (omega (arith, length-append front (none ∷ []))) (at ∙ sym (append-cons front none _)) in
      (slots ∙ append-cons front none _, found ∙ append_assoc b.acquired ((id, vm) ∷ []) _)
  admitted_marks items later b front back i e at id (err x, m, host) =
      let failed = some (err (acquire_failed id x)) in
      let (slots, found) =
        later (admit b i id (err x, m, host)) (front ++ failed ∷ []) back (suc i)
          (omega (arith, length-append front (failed ∷ [])))
          (rw (at, e) (set-append front none failed _) ∙ sym (append-cons front failed _)) in
      (slots ∙ append-cons front failed _, found)

  acquire_all_marks : (items : List QueuedCode) → AreMarked items
  unfolding acquire_all
  acquire_all_marks [] b front back i e at = (at, sym (append-nil b.acquired))
  acquire_all_marks (item ∷ items) b front back i e at =
      admitted_marks items (acquire_all_marks items) b front back i e at item.variant_id
        (Manager.acquire fork b.manager item.variant_id b.host)

  map-run_all :
      (acquired : List (Text × Vm)) (chunk : List QueuedCode)
      → map some (map (λ x. x.1) (run_all fork run_code acquired chunk)) ≡ answers acquired chunk
  unfolding run_all
  map-run_all [] chunk = refl
  map-run_all (v ∷ vs) [] = refl
  map-run_all ((id, vm) ∷ vs) (item ∷ chunk) =
      ap (λ l. some (run_code vm item.code).0 ∷ l) (map-run_all vs chunk)

  length-run_all :
      (acquired : List (Text × Vm)) (chunk : List QueuedCode)
      → length acquired ≤ length chunk
      → length (map (λ x. x.1) (run_all fork run_code acquired chunk)) ≡ length acquired
  unfolding run_all
  length-run_all [] chunk le = refl
  length-run_all (v ∷ vs) [] le = absurd (omega arith)
  length-run_all (v ∷ vs) (item ∷ chunk) le = omega (arith, length-run_all vs chunk (omega arith))

  length-answers :
      (vs : List (Text × Vm)) (chunk : List QueuedCode)
      → length vs ≤ length chunk
      → length (answers vs chunk) ≡ length vs
  length-answers [] chunk le = refl
  length-answers (v ∷ vs) [] le = absurd (omega arith)
  length-answers (v ∷ vs) (item ∷ chunk) le = ap suc (length-answers vs chunk (omega arith))

  pub length-chunk_slots :
      (chunk : List QueuedCode) (m : PoolManager Engine Vm) (host : Host)
      → length (chunk_slots (attempts m host chunk) chunk) ≡ length chunk
  length-chunk_slots chunk m host =
      let l = attempts m host chunk in
      let count = length-marks l ∙ length-attempts chunk m host in
      let few = length-vms-le l in
      omega (
        arith,
        length-append (answers (vms l) chunk) (drop (length (vms l)) (marks l)),
        length-answers (vms l) chunk (omega (arith, count, few)),
        length-drop (length (vms l)) (marks l),
        count,
        few,
      )

  -- Whichever VMs cannot be acquired, a chunk whose slots are empty fills them as follows, and leaves the slots
  -- of all other chunks. If `n` VMs were acquired, the `i`-th of them ran the `i`-th snippet of the chunk and
  -- its answer is in the `i`-th slot. Each slot past the first `n` holds the error of its own item, or is
  -- empty where that item's VM was acquired.
  pub run_chunk-chunk_slots :
      (b : Batch Host Engine Vm E) (chunk : List QueuedCode)
      (front back : List (Option (Result (Failure E) Text)))
      → b.results ≡ front ++ (replicate (length chunk) none ++ back)
      → (run_chunk fork run_code b (length front) chunk).results
        ≡ front ++ (chunk_slots (attempts b.manager b.host chunk) chunk ++ back)
  unfolding run_chunk
  run_chunk-chunk_slots b chunk front back at =
      let l = attempts b.manager b.host chunk in
      let b' = acquire_all fork run_code (record b { acquired = [] }) (length front) chunk in
      let (slots, found) =
        acquire_all_marks chunk (record b { acquired = [] }) front back (length front) refl at in
      let (filled, _) =
        release_all_lem (run_all fork run_code b'.acquired chunk) b' (length front) in
      let results = map (λ x. x.1) (run_all fork run_code (vms l) chunk) in
      let few : length (vms l) ≤ length (marks l) = length-vms-le l in
      let count : length results ≡ length (vms l) =
        length-run_all (vms l) chunk
          (omega (arith, length-marks l, length-attempts chunk b.manager b.host)) in
      filled
      ∙ ap (λ rs. fill b'.results (length front) (map (λ x. x.1) (run_all fork run_code rs chunk)))
          found
      ∙ ap (λ s. fill s (length front) results) slots
      ∙ fill-over results front (marks l ++ back) (length front) refl
          (omega (arith, length-append (marks l) back))
      ∙ ap (λ s. front ++ s)
          (rw (count, drop-append (length (vms l)) (marks l) back few, map-run_all (vms l) chunk)
            (sym (append_assoc (answers (vms l) chunk) (drop (length (vms l)) (marks l)) back)))
