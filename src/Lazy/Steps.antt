-- ===== src/Lazy/Steps.antt =====
-- The steps of a chunk in `LazyFork::realize` of tinymachine-fork/src/lazy.rs, where every VM is acquired.
use mathlib.Core.List.{append-nil, append_assoc}
use tinymachine.Common.{
  ℕ, zero, suc, ◌+◌, ◌≡◌, refl, ap, ◌∙◌, Option, some, none, List, [], ◌∷◌, ◌++◌, map, Text, length,
  length-append, length-take, length-drop, set, replicate, take, drop, arith, Result, ok, err, true,
  All,
}
use tinymachine.Pool.Fork.{PoolError}
use tinymachine.Pool.Fork.Warm.{IsOk}
use tinymachine.Pool.Manager
use tinymachine.Pool.Manager.{PoolManager, has_pool}
use tinymachine.Pool.Manager.Presence.{has_pool-release, has_pool-acquire, acquire_registered}
use tinymachine.Lazy.Config.{QueuedCode, Failure}
use tinymachine.Lazy.Chunks.{Batch, unwrap_slot, admit, acquire_all, release_all, run_all}
use tinymachine.Lazy.Slots.{length-map}

-- the slots from `i` on, filled in turn
abbrev pub fill : {R : Type 0} → List (Option R) → ℕ → List R → List (Option R)
fill slots i [] = slots
fill slots i (r ∷ rs) = fill (set slots i (some r)) (suc i) rs

module _ {R : Type 0} where
  pub set-append :
      (front : List (Option R)) (x y : Option R) (back : List (Option R))
      → set (front ++ x ∷ back) (length front) y ≡ front ++ y ∷ back
  set-append [] x y back = refl
  set-append (z ∷ front) x y back = ap (λ l. z ∷ l) (set-append front x y back)

  pub append-cons :
      (front : List (Option R)) (x : Option R) (back : List (Option R))
      → (front ++ x ∷ []) ++ back ≡ front ++ x ∷ back
  append-cons [] x back = refl
  append-cons (z ∷ front) x back = ap (λ l. z ∷ l) (append-cons front x back)

  slots_left : (r : R) (rs : List R) (k : ℕ) → length (r ∷ rs) + k ≡ suc (length rs + k)
  slots_left r rs k = omega arith

  -- where the slots ahead of `i` are all there is, the next ones are filled
  pub fill-append :
      (rs : List R) (front : List (Option R)) (i k : ℕ)
      → i ≡ length front
      → fill (front ++ replicate (length rs + k) none) i rs
        ≡ (front ++ map some rs) ++ replicate k none
  fill-append [] front i k e = rw append-nil (ap (λ n. front ++ replicate n none) (omega arith))
  fill-append (r ∷ rs) front i k e =
      rw (e, slots_left r rs k, set-append front none (some r) (replicate (length rs + k) none))
        (rw (← append-cons front (some r) (replicate (length rs + k) none)) (
          fill-append rs (front ++ some r ∷ []) (suc (length front)) k
            (omega (arith, length-append front (some r ∷ [])))
          ∙ ap (λ l. l ++ replicate k none) (append-cons front (some r) (map some rs))))

pub map-unwrap_slot :
    {E : Type 0} (rs : List (Result (Failure E) Text)) → map unwrap_slot (map some rs) ≡ rs
unfolding unwrap_slot
map-unwrap_slot [] = refl
map-unwrap_slot (r ∷ rs) = ap (λ l. r ∷ l) (map-unwrap_slot rs)

module _ {Engine Vm : Type 0} where
  -- The manager has a pool for every item.
  abbrev pub Registered : PoolManager Engine Vm → List QueuedCode → Type 0
  Registered m items = All (λ (item : QueuedCode). has_pool m item.variant_id ≡ true) items

  -- Two managers have pools for the same variants.
  abbrev pub Alike : PoolManager Engine Vm → PoolManager Engine Vm → Type 0
  Alike m m' = (id : Text) → has_pool m' id ≡ has_pool m id

  pub Registered-Alike :
      (m m' : PoolManager Engine Vm) (items : List QueuedCode)
      → Alike m m'
      → Registered m items
      → Registered m' items
  Registered-Alike m m' [] same all = tt
  Registered-Alike m m' (item ∷ items) same (here, more) =
      (same item.variant_id ∙ here, Registered-Alike m m' items same more)

  pub Registered-split :
      (m : PoolManager Engine Vm) (n : ℕ) (items : List QueuedCode)
      → Registered m items
      → Registered m (take n items) × Registered m (drop n items)
  Registered-split m zero items all = (tt, all)
  Registered-split m (suc n) [] all = (tt, tt)
  Registered-split m (suc n) (item ∷ items) (here, more) =
      let (taken, left) = Registered-split m n items more in ((here, taken), left)

module _ {Host Engine Vm E : Type 0} where
  -- The VMs are handed back in turn, each result in the next slot.
  pub release_all_lem :
      (l : List (Text × Result (Failure E) Text × Vm)) (b : Batch Host Engine Vm E) (i : ℕ)
      → ((release_all b i l).results ≡ fill b.results i (map (λ x. x.1) l))
        × Alike b.manager (release_all b i l).manager
  unfolding release_all
  release_all_lem [] b i = (refl, λ id. refl)
  release_all_lem ((id, r, vm) ∷ rest) b i =
      let (filled, same) = release_all_lem rest _ (suc i) in
      (filled, λ j. same j ∙ has_pool-release E b.manager id j vm b.host)

  -- What `admit` does where the VM is there.
  admit_ok :
      (b : Batch Host Engine Vm E) (i : ℕ) (id : Text)
      (r : Result (PoolError E) Vm × PoolManager Engine Vm × Host)
      → IsOk r.0
      → ((admit b i id r).results ≡ b.results)
        × (length (admit b i id r).acquired ≡ suc (length b.acquired))
        × ((admit b i id r).manager ≡ r.1)
  unfolding admit
  admit_ok b i id (ok vm, m, host) done =
      (refl, omega (arith, length-append b.acquired ((id, vm) ∷ [])), refl)
  admit_ok b i id (err e, m, host) done = absurd done

module _ {Host Engine Vm E : Type 0} (fork : Engine → Host → Result E Vm × Host)
    (run_code : Vm → Text → Result (Failure E) Text × Vm)
    (never_fails : (engine : Engine) (host : Host) → IsOk (fork engine host).0) where
  pub acquire_all_lem :
      (items : List QueuedCode) (b : Batch Host Engine Vm E) (i : ℕ)
      → Registered b.manager items
      → ((acquire_all fork run_code b i items).results ≡ b.results)
        × (length (acquire_all fork run_code b i items).acquired ≡ length b.acquired + length items)
        × Alike b.manager (acquire_all fork run_code b i items).manager
  unfolding acquire_all
  acquire_all_lem [] b i all = (refl, omega arith, λ id. refl)
  acquire_all_lem (item ∷ items) b i (here, more) =
      let id = item.variant_id in
      let b' = admit b i id (Manager.acquire fork b.manager id b.host) in
      let (slots, one_more, manager) =
        admit_ok b i id (Manager.acquire fork b.manager id b.host)
          (acquire_registered fork b.manager id b.host never_fails here) in
      let alike : Alike b.manager b'.manager =
        λ j. ap (λ m. has_pool m j) manager ∙ has_pool-acquire fork b.manager id j b.host in
      let (slots', count, alike') =
        acquire_all_lem items b' (suc i) (Registered-Alike b.manager b'.manager items alike more) in
      (slots' ∙ slots, omega (arith, count, one_more), λ j. alike' j ∙ alike j)

module _ {E : Type 0} (out : Text → Result (Failure E) Text) where
  -- what the items answer, in order
  abbrev pub outs : List QueuedCode → List (Result (Failure E) Text)
  outs items = map (λ (item : QueuedCode). out item.code) items

  length-outs : (items : List QueuedCode) → length (outs items) ≡ length items
  length-outs [] = refl
  length-outs (item ∷ items) = ap suc (length-outs items)

  outs-append :
      (n : ℕ) (items : List QueuedCode) → outs (take n items) ++ outs (drop n items) ≡ outs items
  outs-append zero items = refl
  outs-append (suc n) [] = refl
  outs-append (suc n) (item ∷ items) = ap (λ l. out item.code ∷ l) (outs-append n items)

  some_append :
      (rs qs : List (Result (Failure E) Text)) → map some rs ++ map some qs ≡ map some (rs ++ qs)
  some_append [] qs = refl
  some_append (r ∷ rs) qs = ap (λ l. some r ∷ l) (some_append rs qs)

  -- Filling the slots of a chunk leaves those of the items after it.
  pub fill-outs :
      (front : List (Option (Result (Failure E) Text))) (i n : ℕ) (items : List QueuedCode)
      → i ≡ length front
      → fill (front ++ replicate (length items) none) i (outs (take n items))
        ≡ (front ++ map some (outs (take n items))) ++ replicate (length (drop n items)) none
  fill-outs front i n items e =
      let total : length items ≡ length (outs (take n items)) + length (drop n items) =
        omega (arith, length-outs (take n items), length-take n items, length-drop n items) in
      rw total (fill-append (outs (take n items)) front i (length (drop n items)) e)

  -- The slots of a chunk and of the items after it are those of all.
  pub slots_joined :
      (front : List (Option (Result (Failure E) Text))) (n : ℕ) (items : List QueuedCode)
      → (front ++ map some (outs (take n items))) ++ map some (outs (drop n items))
        ≡ front ++ map some (outs items)
  slots_joined front n items =
      append_assoc front _ _
      ∙ ap (λ l. front ++ l)
          (some_append (outs (take n items)) (outs (drop n items))
            ∙ ap (λ l. map some l) (outs-append n items))

  pub slots_grown :
      (front : List (Option (Result (Failure E) Text))) (i n : ℕ) (items : List QueuedCode)
      → i ≡ length front
      → i + length (take n items) ≡ length (front ++ map some (outs (take n items)))
  slots_grown front i n items e = omega (
    arith,
    e,
    length-append front (map some (outs (take n items))),
    length-map some (outs (take n items)),
    length-outs (take n items),
  )

module _ {Host Engine Vm E : Type 0} (fork : Engine → Host → Result E Vm × Host)
    (run_code : Vm → Text → Result (Failure E) Text × Vm) (out : Text → Result (Failure E) Text)
    (same_in_all : (vm : Vm) (code : Text) → (run_code vm code).0 ≡ out code) where
  pub run_all_lem :
      (acquired : List (Text × Vm)) (chunk : List QueuedCode)
      → length acquired ≡ length chunk
      → map (λ x. x.1) (run_all fork run_code acquired chunk) ≡ outs out chunk
  unfolding run_all
  run_all_lem [] [] e = refl
  run_all_lem [] (item ∷ chunk) e = absurd (omega (arith, e))
  run_all_lem (a ∷ acquired) [] e = absurd (omega (arith, e))
  run_all_lem ((id, vm) ∷ acquired) (item ∷ chunk) e =
      rw (same_in_all vm item.code)
        (ap (λ l. out item.code ∷ l) (run_all_lem acquired chunk (omega (arith, e))))
