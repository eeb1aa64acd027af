-- ===== src/Pool/Fork/Warm.antt =====
-- A pool whose engine never fails stays warm.
use tinymachine.Common.{
  ℕ, zero, suc, ◌+◌, ◌-◌, ◌≤◌, ◌≡◌, refl, ap, inl, inr, Bool-cases, ◌==◌, List, [], ◌∷◌, ◌++◌,
  length, arith, Result, ok, err, length-append, Result-cases,
}
use tinymachine.Pool.Config.{PoolConfig}
use tinymachine.Pool.Fork.{
  PoolError, ForkPool, fork_batch, extended, refill, serve, fork_on_demand, acquire_from, acquire,
}
use tinymachine.Pool.Fork.Batch.{Extends, fork_batch-Extends}

-- A `Result` that is a success.
abbrev pub IsOk : {E A : Type 0} → Result E A → Type 0
IsOk (ok a) = Unit
IsOk (err e) = ⊥

abbrev Refilled :
    {Host Engine Vm : Type 0} → ForkPool Engine Vm → ForkPool Engine Vm × Host → Type 0
Refilled p (p', host) = (p'.config ≡ p.config) × (p.config.min_idle ≤ length p'.pool)

module _ {Host Engine Vm E : Type 0} where
  -- The pool holds its minimum again.
  abbrev pub IsWarm : Result (PoolError E) Vm × ForkPool Engine Vm × Host → Type 0
  IsWarm (r, p, host) = IsOk r × (p.config.min_idle ≤ length p.pool)

  extended-Refilled :
      (p : ForkPool Engine Vm) (n : ℕ) (r : Result E (List Vm) × Host)
      → p.config.min_idle ≤ length p.pool + n
      → IsOk r.0
      → Extends n [] r.0
      → Refilled p (extended p r)
  unfolding extended
  extended-Refilled p n (ok vms, host) h done (more, e, l) =
      (refl, omega (arith, length-append p.pool vms, ap length e))
  extended-Refilled p n (err x, host) h done e = absurd done

module _ {Host Engine Vm E : Type 0} (fork : Engine → Host → Result E Vm × Host) (engine : Engine)
    (never_fails : (host : Host) → IsOk (fork engine host).0) where
  fork_batch-IsOk :
      (n : ℕ) (vms : List Vm) (host : Host) → IsOk (fork_batch fork engine n vms host).0
  unfolding fork_batch
  fork_batch-IsOk zero vms host = tt
  fork_batch-IsOk (suc n) vms host = elim (Result-cases (fork engine host).0) [
    | inl (vm, e) ↦ rw (e, fork_batch) (fork_batch-IsOk n (vms ++ vm ∷ []) (fork engine host).1)
    | inr (x, e) ↦ absurd (rw e at (never_fails host))
  ]

  refill-Refilled :
      (p : ForkPool Engine Vm) (host : Host)
      → p.engine ≡ engine
      → p.config.min_idle ≤ p.config.max_idle
      → Refilled p (refill fork p host)
  unfolding refill
  refill-Refilled p host same le = elim (Bool-cases (p.config.min_idle - length p.pool == 0)) [
    | inl full ↦ rw (full, refill) (refl, ground arith)
    | inr short ↦
        rw (short, refill)
          (extended-Refilled p _ _ (omega arith) (rw same (fork_batch-IsOk _ [] host))
            (fork_batch-Extends fork p.engine _ [] host))
  ]

  serve-IsWarm :
      (p : ForkPool Engine Vm) (vm : Vm) (host : Host)
      → p.engine ≡ engine
      → p.config.min_idle ≤ p.config.max_idle
      → IsWarm {E = E} (serve vm (refill fork p host))
  unfolding serve
  serve-IsWarm p vm host same le =
      let (c, h) = refill-Refilled p host same le in
      (tt, omega (arith, ap (λ (k : PoolConfig). k.min_idle) c))

  demand-IsWarm :
      (p : ForkPool Engine Vm) (r : Result E Vm × Host)
      → p.engine ≡ engine
      → p.config.min_idle ≤ p.config.max_idle
      → IsOk r.0
      → IsWarm (fork_on_demand fork p r)
  unfolding fork_on_demand
  demand-IsWarm p (ok vm, host) same le done = serve-IsWarm p vm host same le
  demand-IsWarm p (err e, host) same le done = absurd done

  acquire_from-IsWarm :
      (p : ForkPool Engine Vm) (l : List Vm) (host : Host)
      → p.engine ≡ engine
      → p.config.min_idle ≤ p.config.max_idle
      → IsWarm (acquire_from fork p l host)
  unfolding acquire_from
  acquire_from-IsWarm p [] host same le = demand-IsWarm p _ same le (rw same (never_fails host))
  acquire_from-IsWarm p (vm ∷ rest) host same le =
      serve-IsWarm (record p { pool = rest }) vm host same le

  -- While the engine's forks succeed, `acquire` succeeds and leaves at least the minimum of idle
  -- VMs, for a configuration whose minimum is no more than its maximum.
  pub acquire-IsWarm :
      (p : ForkPool Engine Vm) (host : Host)
      → p.engine ≡ engine
      → p.config.min_idle ≤ p.config.max_idle
      → IsWarm (acquire fork p host)
  unfolding acquire
  acquire-IsWarm p host same le = acquire_from-IsWarm p p.pool host same le

module _ {Host Engine Vm E : Type 0} (fork : Engine → Host → Result E Vm × Host) where
  fork_on_demand-IsOk :
      (p : ForkPool Engine Vm) (r : Result E Vm × Host)
      → IsOk r.0
      → IsOk (fork_on_demand fork p r).0
  unfolding fork_on_demand serve
  fork_on_demand-IsOk p (ok vm, host) done = tt
  fork_on_demand-IsOk p (err e, host) done = absurd done

  acquire_from-IsOk :
      (p : ForkPool Engine Vm) (l : List Vm) (host : Host)
      → IsOk (fork p.engine host).0
      → IsOk (acquire_from fork p l host).0
  unfolding acquire_from serve
  acquire_from-IsOk p [] host done = fork_on_demand-IsOk p _ done
  acquire_from-IsOk p (vm ∷ rest) host done = tt

  -- Whatever the configuration, `acquire` succeeds where the one fork that it may need does.
  pub acquire-IsOk :
      (p : ForkPool Engine Vm) (host : Host)
      → IsOk (fork p.engine host).0
      → IsOk (acquire fork p host).0
  unfolding acquire
  acquire-IsOk p host done = acquire_from-IsOk p p.pool host done
