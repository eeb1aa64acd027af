-- ===== src/Pool/Fork.antt =====
-- `ForkPool` of tinymachine-fork/src/pool.rs. A method that Rust writes on `&mut self` takes the pool
-- and the host's state and returns both beside its result. Logging is left out.
pub mod Batch
pub mod Sizes
pub mod Handover
pub mod Warm
use tinymachine.Common.{
  ℕ, zero, suc, ◌+◌, ◌-◌, min, Bool, List, [], ◌∷◌, ◌++◌, ltb, leb, ◌==◌, if◌then◌else◌, length,
  Result, ok, err, Text,
}
use tinymachine.Pool.Config.{PoolConfig}

pub data PoolError (E : Type 0) : Type 0 where
  fork_error : E → PoolError E
  empty : PoolError E
  variant_not_found : Text → PoolError E

pub record ForkPool (Engine Vm : Type 0) : Type 0 where
  pub engine : Engine
  pub pool : List Vm
  pub config : PoolConfig

module _ {Vm : Type 0} where
  -- `while vms.len() < n { match self.pool.pop_front() { … } }`
  unfoldable pub drain : ℕ → List Vm → List Vm → List Vm × List Vm
  drain n vms [] = (vms, [])
  drain n vms (vm ∷ rest) =
      let more = drain n (vms ++ vm ∷ []) rest in
      if ltb (length vms) n then more else (vms, vm ∷ rest)

module _ {Engine Vm : Type 0} where
  unfoldable pub release : ForkPool Engine Vm → Vm → ForkPool Engine Vm
  release p vm =
      if leb p.config.max_idle (length p.pool) then p else record p { pool = p.pool ++ vm ∷ [] }

module _ {Host Engine Vm E : Type 0} where
  -- `Ok(vms) => pool.extend(vms), Err(e) => warn!(…)`
  extended : ForkPool Engine Vm → Result E (List Vm) × Host → ForkPool Engine Vm × Host
  extended p (ok vms, host) = (record p { pool = p.pool ++ vms }, host)
  extended p (err e, host) = (p, host)

  -- `let forked = self.engine.fork_batch(needed)?; vms.extend(forked);`
  supplement :
      ForkPool Engine Vm
      → List Vm
      → Result E (List Vm) × Host
      → Result (PoolError E) (List Vm) × ForkPool Engine Vm × Host
  supplement p vms (ok more, host) = (ok (vms ++ more), p, host)
  supplement p vms (err e, host) = (err (fork_error e), p, host)

  filled :
      ForkPool Engine Vm
      → Result E (List Vm) × Host
      → Result (PoolError E) (Unit {0}) × ForkPool Engine Vm × Host
  filled p (ok vms, host) = (ok tt, record p { pool = p.pool ++ vms }, host)
  filled p (err e, host) = (err (fork_error e), p, host)

  serve : Vm → ForkPool Engine Vm × Host → Result (PoolError E) Vm × ForkPool Engine Vm × Host
  serve vm (p, host) = (ok vm, p, host)

module _ {Host Engine Vm E : Type 0} (fork : Engine → Host → Result E Vm × Host) where
  -- `for _ in 0..count { vms.push(self.fork()?); }`
  unfoldable pub fork_batch : Engine → ℕ → List Vm → Host → Result E (List Vm) × Host
  fork_batch engine zero vms host = (ok vms, host)
  fork_batch engine (suc count) vms host =
      let (forked, host') = fork engine host in
      elim forked [
        | ok vm ↦ fork_batch engine count (vms ++ vm ∷ []) host'
        | err e ↦ (err e, host')
      ]

  unfoldable pub refill : ForkPool Engine Vm → Host → ForkPool Engine Vm × Host
  unfolding extended
  refill p host =
      let needed = p.config.min_idle - length p.pool in
      let batch_size = min needed (p.config.max_idle - length p.pool) in
      if needed == 0 then (p, host) else extended p (fork_batch p.engine batch_size [] host)

  unfoldable pub new : Engine → PoolConfig → Host → ForkPool Engine Vm × Host
  unfolding extended
  new engine config host =
      let p : ForkPool Engine Vm = record { engine = engine; pool = []; config = config } in
      if ltb 0 config.min_idle
      then extended p (fork_batch engine config.min_idle [] host)
      else (p, host)

  -- the pool is empty: fork on demand
  fork_on_demand :
      ForkPool Engine Vm → Result E Vm × Host → Result (PoolError E) Vm × ForkPool Engine Vm × Host
  unfolding serve
  fork_on_demand p (ok vm, host) = serve vm (refill p host)
  fork_on_demand p (err e, host) = (err (fork_error e), p, host)

  acquire_from :
      ForkPool Engine Vm → List Vm → Host → Result (PoolError E) Vm × ForkPool Engine Vm × Host
  unfolding fork_on_demand
  acquire_from p (vm ∷ rest) host = serve vm (refill (record p { pool = rest }) host)
  acquire_from p [] host = fork_on_demand p (fork p.engine host)

  unfoldable pub acquire :
      ForkPool Engine Vm → Host → Result (PoolError E) Vm × ForkPool Engine Vm × Host
  unfolding acquire_from
  acquire p host = acquire_from p p.pool host

  -- what is left to do once the loop has moved `vms` out of the pool
  top_up :
      ForkPool Engine Vm
      → ℕ
      → List Vm × List Vm
      → Host
      → Result (PoolError E) (List Vm) × ForkPool Engine Vm × Host
  unfolding supplement
  top_up p n (vms, rest) host =
      let p' : ForkPool Engine Vm = record p { pool = rest } in
      let needed = n - length vms in
      if ltb 0 needed
      then supplement p' vms (fork_batch p.engine needed [] host)
      else (ok vms, p', host)

  unfoldable pub acquire_batch :
      ForkPool Engine Vm → ℕ → Host → Result (PoolError E) (List Vm) × ForkPool Engine Vm × Host
  unfolding top_up drain
  acquire_batch p n host = top_up p n (drain n [] p.pool) host

  unfoldable pub fill_to :
      ForkPool Engine Vm → ℕ → Host → Result (PoolError E) (Unit {0}) × ForkPool Engine Vm × Host
  unfolding filled
  fill_to p target host =
      if leb target (length p.pool)
      then (ok tt, p, host)
      else filled p (fork_batch p.engine (target - length p.pool) [] host)
