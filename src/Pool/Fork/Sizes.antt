-- ===== src/Pool/Fork/Sizes.antt =====
-- How many VMs a pool holds.
use tinymachine.Common.{
  ℕ, ◌+◌, ◌-◌, ◌≤◌, ◌≡◌, refl, ap, sym, subst, inl, inr, Bool-cases, ltb, leb, List, [], ◌∷◌,
  length, arith, Result, ok, err, length-append, length-drop,
}
use tinymachine.Pool.Config.{PoolConfig}
use tinymachine.Pool.Fork.{
  ForkPool, extended, refill, new, serve, fork_on_demand, acquire_from, acquire, supplement, top_up,
  acquire_batch, release,
}
use tinymachine.Pool.Fork.Batch.{Extends, fork_batch-Extends, drain_lem}
use tinymachine.Pool.Fork.Handover.{refill-Grows}

-- The pool has this configuration and holds no more idle VMs than it allows.
abbrev pub Within : {Engine Vm : Type 0} → PoolConfig → ForkPool Engine Vm → Type 0
Within config p = (p.config ≡ config) × (length p.pool ≤ config.max_idle)

-- The calls that a client makes on a pool, with the VMs that it returns.
pub data Call (Vm : Type 0) : Type 0 where
  acquires : Call Vm
  acquires_batch : ℕ → Call Vm
  releases : Vm → Call Vm

module _ {Engine Vm : Type 0} where
  release-Within :
      (config : PoolConfig) (p : ForkPool Engine Vm) (vm : Vm)
      → Within config p
      → Within config (release p vm)
  unfolding release
  release-Within config p vm (c, h) = elim (Bool-cases (leb p.config.max_idle (length p.pool))) [
    | inl full ↦ rw (full, release) (c, h)
    | inr room ↦
        rw (room, release)
          (c, ground (arith, length-append p.pool (vm ∷ []), ap (λ (k : PoolConfig). k.max_idle) c))
  ]

module _ {Host Engine Vm E : Type 0} where
  extended-Within :
      (config : PoolConfig) (p : ForkPool Engine Vm) (n : ℕ) (r : Result E (List Vm) × Host)
      → p.config ≡ config
      → length p.pool + n ≤ config.max_idle
      → Extends n [] r.0
      → Within config (extended p r).0
  unfolding extended
  extended-Within config p n (ok vms, host) c h (more, e, l) =
      (c, omega (arith, length-append p.pool vms, ap length e))
  extended-Within config p n (err x, host) c h e = (c, omega arith)

module _ {Host Engine Vm E : Type 0} (fork : Engine → Host → Result E Vm × Host) where
  step : ForkPool Engine Vm × Host → Call Vm → ForkPool Engine Vm × Host
  step (p, host) acquires = let (r, p', host') = acquire fork p host in (p', host')
  step (p, host) (acquires_batch n) =
      let (r, p', host') = acquire_batch fork p n host in (p', host')
  step (p, host) (releases vm) = (release p vm, host)

  pub run : ForkPool Engine Vm × Host → List (Call Vm) → ForkPool Engine Vm × Host
  unfolding step
  run s [] = s
  run s (c ∷ cs) = run (step s c) cs

  refill-Within :
      (config : PoolConfig) (p : ForkPool Engine Vm) (host : Host)
      → Within config p
      → Within config (refill fork p host).0
  refill-Within config p host (c, h) =
      let (more, g, l) = refill-Grows fork p host in
      rw g (c, omega (arith, length-append p.pool more, ap (λ (k : PoolConfig). k.max_idle) c))

  demand-Within :
      (config : PoolConfig) (p : ForkPool Engine Vm) (r : Result E Vm × Host)
      → Within config p
      → Within config (fork_on_demand fork p r).1
  unfolding fork_on_demand serve
  demand-Within config p (ok vm, host) w = refill-Within config p host w
  demand-Within config p (err e, host) w = w

  acquire_from-Within :
      (config : PoolConfig) (p : ForkPool Engine Vm) (l : List Vm) (host : Host)
      → p.pool ≡ l
      → Within config p
      → Within config (acquire_from fork p l host).1
  unfolding acquire_from serve
  acquire_from-Within config p [] host e w = demand-Within config p _ w
  acquire_from-Within config p (vm ∷ rest) host e (c, h) =
      refill-Within config _ host (c, omega (arith, ap length e))

  supplement-Within :
      (config : PoolConfig) (p : ForkPool Engine Vm) (vms : List Vm) (r : Result E (List Vm) × Host)
      → Within config p
      → Within config (supplement p vms r).1
  unfolding supplement
  supplement-Within config p vms (ok more, host) w = w
  supplement-Within config p vms (err e, host) w = w

  top_up-Within :
      (config : PoolConfig) (p : ForkPool Engine Vm) (n : ℕ) (vms rest : List Vm) (host : Host)
      → p.config ≡ config
      → length rest ≤ config.max_idle
      → Within config (top_up fork p n (vms, rest) host).1
  unfolding top_up
  top_up-Within config p n vms rest host c h = elim (Bool-cases (ltb 0 (n - length vms))) [
    | inl short ↦ rw (short, top_up) (supplement-Within config _ vms _ (c, h))
    | inr enough ↦ rw (enough, top_up) (c, h)
  ]

  step-Within :
      (config : PoolConfig) (s : ForkPool Engine Vm × Host) (c : Call Vm)
      → Within config s.0
      → Within config (step s c).0
  unfolding step acquire acquire_batch release
  step-Within config (p, host) acquires w = acquire_from-Within config p p.pool host refl w
  step-Within config (p, host) (acquires_batch n) (c, h) =
      subst (λ d. Within config (top_up fork p n d host).1) (sym (drain_lem n p.pool))
        (top_up-Within config p n _ _ host c (omega (arith, length-drop n p.pool)))
  step-Within config (p, host) (releases vm) w = release-Within config p vm w

  run-Within :
      (config : PoolConfig) (s : ForkPool Engine Vm × Host) (cs : List (Call Vm))
      → Within config s.0
      → Within config (run s cs).0
  unfolding run
  run-Within config s [] w = w
  run-Within config s (c ∷ cs) w = run-Within config (step s c) cs (step-Within config s c w)

  new-Within :
      (engine : Engine) (config : PoolConfig) (host : Host)
      → config.min_idle ≤ config.max_idle
      → Within config (new fork engine config host).0
  unfolding new
  new-Within engine config host le = elim (Bool-cases (ltb 0 config.min_idle)) [
    | inl warm ↦
        rw (warm, new)
          (extended-Within config (record { engine = engine; pool = []; config = config })
            config.min_idle _ refl (omega arith)
            (fork_batch-Extends fork engine config.min_idle [] host))
    | inr cold ↦ rw (cold, new) (refl, omega arith)
  ]

  -- A pool made from a configuration whose minimum is no more than its maximum keeps that
  -- configuration and never holds more idle VMs than the maximum, whatever is acquired and released
  -- and whichever forks fail.
  pub run-new-Within :
      (engine : Engine) (config : PoolConfig) (host : Host) (cs : List (Call Vm))
      → config.min_idle ≤ config.max_idle
      → Within config (run (new fork engine config host) cs).0
  run-new-Within engine config host cs le =
      run-Within config _ cs (new-Within engine config host le)
