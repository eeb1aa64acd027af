-- ===== src/Pool/Manager/Presence.antt =====
-- Which pools a manager of tinymachine-fork/src/pool.rs has after a call, and when `acquire` succeeds.
use tinymachine.Common.{
  ◌≡◌, true, inl, inr, some, Option-cases, Bool-cases, Text, Result, ok, text_eq, text_eq_sound,
  arith,
}
use tinymachine.Common.Maps.{lookup, lookup-insert}
use tinymachine.Pool.Fork
use tinymachine.Pool.Fork.{ForkPool, PoolError}
use tinymachine.Pool.Fork.Warm.{IsOk, acquire-IsOk}
use tinymachine.Pool.Manager.{PoolManager, has_pool, put_back, on_pool, release, acquire}

module _ {Host Engine Vm E : Type 0} where
  put_back-has :
      {A : Type 0} (m : PoolManager Engine Vm) (id j : Text) (p : ForkPool Engine Vm)
      (r : Result (PoolError E) A × ForkPool Engine Vm × Host)
      → lookup id m.pools ≡ some p
      → has_pool (put_back m id r).1 j ≡ has_pool m j
  unfolding put_back has_pool
  put_back-has m id j p r e = elim (Bool-cases (text_eq id j)) [
    | inl same ↦ rw (has_pool, lookup-insert, same) (rw (← text_eq_sound id j same, has_pool, e))
    | inr other ↦ rw (has_pool, lookup-insert, other)
  ]

  on_pool-has :
      {A : Type 0}
      (method : ForkPool Engine Vm → Host → Result (PoolError E) A × ForkPool Engine Vm × Host)
      (m : PoolManager Engine Vm) (id j : Text) (host : Host)
      → has_pool (on_pool method m id host).1 j ≡ has_pool m j
  unfolding on_pool
  on_pool-has method m id j host = elim (Option-cases (lookup id m.pools)) [
    | inl e ↦ rw (e, on_pool)
    | inr (p, e) ↦ rw (e, on_pool) (put_back-has m id j p (method p host) e)
  ]

pub has_pool-release :
    {Host Engine Vm : Type 0} (E : Type 0) (m : PoolManager Engine Vm) (id j : Text) (vm : Vm)
    (host : Host)
    → has_pool (release {E = E} m id vm host).1 j ≡ has_pool m j
unfolding release
has_pool-release E m id j vm host =
    on_pool-has {E = E} (λ p h. (ok tt, Fork.release p vm, h)) m id j host

module _ {Host Engine Vm E : Type 0} (fork : Engine → Host → Result E Vm × Host) where
  pub has_pool-acquire :
      (m : PoolManager Engine Vm) (id j : Text) (host : Host)
      → has_pool (acquire fork m id host).1 j ≡ has_pool m j
  unfolding acquire
  has_pool-acquire m id j host = on_pool-has (Fork.acquire fork) m id j host

  -- While forks succeed, `acquire` of a registered pool succeeds.
  pub acquire_registered :
      (m : PoolManager Engine Vm) (id : Text) (host : Host)
      → ((engine : Engine) (h : Host) → IsOk (fork engine h).0)
      → has_pool m id ≡ true
      → IsOk (acquire fork m id host).0
  unfolding acquire on_pool put_back has_pool
  acquire_registered m id host never_fails present = elim (Option-cases (lookup id m.pools)) [
    | inl e ↦ absurd (ground (arith, rw (has_pool, e) at present))
    | inr (p, e) ↦ rw (e, on_pool) (acquire-IsOk fork p host (never_fails p.engine host))
  ]
