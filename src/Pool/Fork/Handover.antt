-- ===== src/Pool/Fork/Handover.antt =====
-- Which VMs `acquire` and `acquire_batch` hand out, and which stay in the pool.
use mathlib.Core.List.{append-nil}
use tinymachine.Common.{
  ℕ, ◌+◌, ◌-◌, ◌<◌, ◌≤◌, ◌≡◌, refl, sym, ap, ◌∙◌, inl, inr, Bool-cases, ◌==◌, ltb, ltb→lt, subst,
  take-all, drop-all, List, [], ◌∷◌, ◌++◌, length, take, drop, arith, Result, ok, err,
  length-append, length-take, take-append-drop,
}
use tinymachine.Pool.Fork.{
  PoolError, ForkPool, extended, serve, refill, fork_on_demand, acquire_from, acquire, supplement,
  top_up, acquire_batch,
}
use tinymachine.Pool.Fork.Batch.{Extends, fork_batch-Extends, drain_lem}

module _ {Host Engine Vm : Type 0} where
  -- `more` VMs stand behind those that waited, and no more than the limit leaves room for.
  abbrev pub Grows : ForkPool Engine Vm → ForkPool Engine Vm × Host → Type 0
  Grows p (p', host) =
      (more : List Vm) × (p' ≡ record p { pool = p.pool ++ more })
      × (length more ≤ p.config.max_idle - length p.pool)

  Grows-refl : (p : ForkPool Engine Vm) (host : Host) → Grows p (p, host)
  Grows-refl p host = ([], ap (λ l. record p { pool = l }) (sym (append-nil p.pool)), omega arith)

module _ {Host Engine Vm E : Type 0} where
  abbrev pub Acquired :
      ForkPool Engine Vm → Result (PoolError E) Vm × ForkPool Engine Vm × Host → Type 0
  Acquired p (ok vm, p', host) = (more : List Vm) × (vm ∷ p'.pool ≡ p.pool ++ more)
  Acquired p (err e, p', host) = (p.pool ≡ []) × (p' ≡ p)

  extended-Grows :
      (p : ForkPool Engine Vm) (n : ℕ) (r : Result E (List Vm) × Host)
      → n ≤ p.config.max_idle - length p.pool
      → Extends n [] r.0
      → Grows p (extended p r)
  unfolding extended
  extended-Grows p n (ok vms, host) le (more, e, l) = (vms, refl, rw e (omega arith))
  extended-Grows p n (err x, host) le e = Grows-refl p host

module _ {Host Engine Vm E : Type 0} (fork : Engine → Host → Result E Vm × Host) where
  -- `refill` only adds VMs behind those that wait, at most up to the limit.
  pub refill-Grows : (p : ForkPool Engine Vm) (host : Host) → Grows p (refill fork p host)
  unfolding refill
  refill-Grows p host = elim (Bool-cases (p.config.min_idle - length p.pool == 0)) [
    | inl full ↦ rw (full, refill, Grows) (Grows-refl p host)
    | inr short ↦
        rw (short, refill, Grows)
          (extended-Grows p _ _ (omega arith) (fork_batch-Extends fork p.engine _ [] host))
  ]

  on_demand-Acquired :
      (p : ForkPool Engine Vm) (r : Result E Vm × Host)
      → p.pool ≡ []
      → Acquired p (fork_on_demand fork p r)
  unfolding fork_on_demand serve
  on_demand-Acquired p (ok vm, host) e =
      let (more, g, l) = refill-Grows p host in (vm ∷ more, rw (g, e))
  on_demand-Acquired p (err x, host) e = (e, refl)

  acquire_from-Acquired :
      (p : ForkPool Engine Vm) (l : List Vm) (host : Host)
      → p.pool ≡ l
      → Acquired p (acquire_from fork p l host)
  unfolding acquire_from serve
  acquire_from-Acquired p (vm ∷ rest) host e =
      let (more, g, l) = refill-Grows (record p { pool = rest }) host in (more, cc)
  acquire_from-Acquired p [] host e = on_demand-Acquired p _ e

  -- Where VMs wait, `acquire` hands out the one that has waited longest, and the others stay in their
  -- order with new ones only behind them; it fails only on an empty pool, which it leaves as it was.
  pub acquire-Acquired : (p : ForkPool Engine Vm) (host : Host) → Acquired p (acquire fork p host)
  unfolding acquire
  acquire-Acquired p host = acquire_from-Acquired p p.pool host refl

module _ {Host Engine Vm E : Type 0} where
  abbrev pub Batched :
      ForkPool Engine Vm → ℕ → Result (PoolError E) (List Vm) × ForkPool Engine Vm × Host → Type 0
  Batched p n (ok vms, p', host) =
      (length vms ≡ n) × (more : List Vm) × (vms ++ p'.pool ≡ p.pool ++ more)
  Batched p n (err e, p', host) = (length p.pool < n) × (p'.pool ≡ [])

  supplement-Batched :
      (p p' : ForkPool Engine Vm) (vms : List Vm) (n k : ℕ) (r : Result E (List Vm) × Host)
      → vms ≡ p.pool
      → p'.pool ≡ []
      → length vms + k ≡ n
      → 0 < k
      → Extends k [] r.0
      → Batched p n (supplement p' vms r)
  unfolding supplement
  supplement-Batched p p' vms n k (ok forked, host) all_taken none_left sum short (more, e, l) = (
    omega (arith, length-append vms forked, ap length e),
    forked,
    rw (none_left, append-nil) (rw all_taken),
  )
  supplement-Batched p p' vms n k (err x, host) all_taken none_left sum short e =
      (omega (arith, ap length all_taken), none_left)

module _ {Host Engine Vm E : Type 0} (fork : Engine → Host → Result E Vm × Host) where
  top_up-Batched :
      (p : ForkPool Engine Vm) (n : ℕ) (host : Host)
      → Batched p n (top_up fork p n (take n p.pool, drop n p.pool) host)
  unfolding top_up
  top_up-Batched p n host = elim (Bool-cases (ltb 0 (n - length (take n p.pool)))) [
    | inl short ↦
        rw (short, top_up, Batched)
          (supplement-Batched p _ _ n _ _
            (take-all n p.pool (omega (arith, ltb→lt _ _ short, length-take n p.pool)))
            (drop-all n p.pool (omega (arith, ltb→lt _ _ short, length-take n p.pool)))
            (omega (arith, length-take n p.pool)) (ltb→lt _ _ short)
            (fork_batch-Extends fork p.engine _ [] _))
    | inr enough ↦
        rw (enough, top_up, Batched)
          (
            ground (arith, length-take n p.pool),
            [],
            take-append-drop n p.pool ∙ sym (append-nil p.pool),
          )
  ]

  -- `acquire_batch n` hands out exactly `n` VMs, the waiting ones first and in order; it fails only
  -- where fewer than `n` wait, and then the pool is left empty: the VMs it had taken are gone.
  pub acquire_batch-Batched :
      (p : ForkPool Engine Vm) (n : ℕ) (host : Host) → Batched p n (acquire_batch fork p n host)
  unfolding acquire_batch
  acquire_batch-Batched p n host =
      subst (λ d. Batched p n (top_up fork p n d host)) (sym (drain_lem n p.pool))
        (top_up-Batched p n host)
