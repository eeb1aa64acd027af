-- ===== src/Pool/Manager.antt =====
-- `PoolManager` of tinymachine-fork/src/pool.rs: one `ForkPool` for each variant or composition. A
-- method that hands back a reference to a pool returns the pool's value.
pub mod Isolation
pub mod Presence
use tinymachine.Common.{
  length, [], ◌==◌, ℕ, Bool, true, false, Option, none, some, List, Text, Result, ok, err, take,
}
use tinymachine.Common.Maps.{Map, lookup, insert, remove}
use tinymachine.Pool.Config.{PoolConfig, compose_id, from_composition}
use tinymachine.Pool.Fork
use tinymachine.Pool.Fork.{ForkPool, PoolError, variant_not_found}

pub record PoolManager (Engine Vm : Type 0) : Type 0 where
  pub pools : Map (ForkPool Engine Vm)

module _ {Engine Vm : Type 0} where
  abbrev pub new : PoolManager Engine Vm
  new = record { pools = [] }

  unfoldable pub len : PoolManager Engine Vm → ℕ
  len m = length m.pools

  unfoldable pub is_empty : PoolManager Engine Vm → Bool
  is_empty m = length m.pools == 0

  unfoldable pub has_pool : PoolManager Engine Vm → Text → Bool
  has_pool m id = elim (lookup id m.pools) [ some p ↦ true | none ↦ false ]

  unfoldable pub drop_pool :
      PoolManager Engine Vm → Text → Option (ForkPool Engine Vm) × PoolManager Engine Vm
  drop_pool m id = (lookup id m.pools, record { pools = remove id m.pools })

module _ {Host Engine Vm : Type 0} where
  added :
      PoolManager Engine Vm
      → Text
      → ForkPool Engine Vm × Host
      → ForkPool Engine Vm × PoolManager Engine Vm × Host
  added m id (p, host) = (p, record { pools = insert id p m.pools }, host)

module _ {Host Engine Vm E : Type 0} where
  put_back :
      {A : Type 0}
      → PoolManager Engine Vm
      → Text
      → Result (PoolError E) A × ForkPool Engine Vm × Host
      → Result (PoolError E) A × PoolManager Engine Vm × Host
  put_back m id (r, p, host) = (r, record { pools = insert id p m.pools }, host)

  -- `self.pools.get_mut(variant_id).ok_or_else(…)?.method()`
  on_pool :
      {A : Type 0}
      → (ForkPool Engine Vm → Host → Result (PoolError E) A × ForkPool Engine Vm × Host)
      → PoolManager Engine Vm
      → Text
      → Host
      → Result (PoolError E) A × PoolManager Engine Vm × Host
  unfolding put_back
  on_pool method m id host = elim (lookup id m.pools) [
    | none ↦ (err (variant_not_found id), m, host)
    | some p ↦ put_back m id (method p host)
  ]

  unfoldable pub release :
      PoolManager Engine Vm
      → Text
      → Vm
      → Host
      → Result (PoolError E) (Unit {0}) × PoolManager Engine Vm × Host
  unfolding on_pool
  release m id vm host = on_pool (λ p host'. (ok tt, Fork.release p vm, host')) m id host

module _ {Host Engine Vm E : Type 0} (fork : Engine → Host → Result E Vm × Host) where
  unfoldable pub register :
      PoolManager Engine Vm
      → Text
      → Engine
      → PoolConfig
      → Host
      → ForkPool Engine Vm × PoolManager Engine Vm × Host
  unfolding added
  register m id engine config host = elim (lookup id m.pools) [
    | none ↦ added m id (Fork.new fork engine config host)
    | some p ↦ (p, m, host)
  ]

  unfoldable pub register_composition :
      PoolManager Engine Vm
      → Text
      → Engine
      → Host
      → ForkPool Engine Vm × PoolManager Engine Vm × Host
  unfolding register
  register_composition m composition_key engine host =
      let config = from_composition composition_key in
      register m (compose_id (take 12 composition_key)) engine config host

  unfoldable pub acquire :
      PoolManager Engine Vm → Text → Host → Result (PoolError E) Vm × PoolManager Engine Vm × Host
  unfolding on_pool
  acquire m id host = on_pool (Fork.acquire fork) m id host

  unfoldable pub acquire_batch :
      PoolManager Engine Vm
      → Text
      → ℕ
      → Host
      → Result (PoolError E) (List Vm) × PoolManager Engine Vm × Host
  unfolding on_pool
  acquire_batch m id n host = on_pool (λ p. Fork.acquire_batch fork p n) m id host

  unfoldable pub fill_pool :
      PoolManager Engine Vm
      → Text
      → ℕ
      → Host
      → Result (PoolError E) (Unit {0}) × PoolManager Engine Vm × Host
  unfolding on_pool
  fill_pool m id target host = on_pool (λ p. Fork.fill_to fork p target) m id host
