-- ===== src/Pool/Manager/Isolation.antt =====
-- The pools of a manager do not affect one another.
use tinymachine.Common.{
  ℕ, ◌≡◌, false, inl, inr, some, Option-cases, Text, Result, ok, text_eq, text_eq_refl, take,
}
use tinymachine.Common.Maps.{lookup, lookup-insert, lookup-remove}
use tinymachine.Pool.Config.{PoolConfig, compose_id}
use tinymachine.Pool.Fork
use tinymachine.Pool.Fork.{ForkPool, PoolError, variant_not_found}
use tinymachine.Pool.Manager.{
  PoolManager, drop_pool, put_back, on_pool, release, added, register, register_composition,
  acquire, acquire_batch, fill_pool,
}

-- The calls on a manager.
pub data Call (Engine Vm : Type 0) : Type 0 where
  registers : Text → Engine → PoolConfig → Call Engine Vm
  registers_composition : Text → Engine → Call Engine Vm
  acquires : Text → Call Engine Vm
  acquires_batch fills : Text → ℕ → Call Engine Vm
  releases : Text → Vm → Call Engine Vm
  drops : Text → Call Engine Vm

module _ {Engine Vm : Type 0} where
  -- the key of the pool that a call is about
  abbrev pub target : Call Engine Vm → Text
  target (registers id engine config) = id
  target (registers_composition key engine) = compose_id (take 12 key)
  target (acquires id) = id
  target (acquires_batch id n) = id
  target (fills id n) = id
  target (releases id vm) = id
  target (drops id) = id

module _ {Host Engine Vm E : Type 0} where
  on_pool_other :
      {A : Type 0}
      (method : ForkPool Engine Vm → Host → Result (PoolError E) A × ForkPool Engine Vm × Host)
      (m : PoolManager Engine Vm) (id j : Text) (host : Host)
      → text_eq id j ≡ false
      → lookup j (on_pool method m id host).1.pools ≡ lookup j m.pools
  unfolding on_pool put_back
  on_pool_other method m id j host ne = elim (Option-cases (lookup id m.pools)) [
    | inl e ↦ rw (e, on_pool)
    | inr (p, e) ↦ rw (e, on_pool) (rw lookup-insert (rw ne))
  ]

module _ {Host Engine Vm E : Type 0} (fork : Engine → Host → Result E Vm × Host) where
  register_other :
      (m : PoolManager Engine Vm) (id : Text) (engine : Engine) (config : PoolConfig) (host : Host)
      (j : Text)
      → text_eq id j ≡ false
      → lookup j (register fork m id engine config host).1.pools ≡ lookup j m.pools
  unfolding register added
  register_other m id engine config host j ne = elim (Option-cases (lookup id m.pools)) [
    | inl e ↦ rw (e, register) (rw lookup-insert (rw ne))
    | inr (p, e) ↦ rw (e, register)
  ]

  pub step : PoolManager Engine Vm → Host → Call Engine Vm → PoolManager Engine Vm
  step m host (registers id engine config) = (register fork m id engine config host).1
  step m host (registers_composition key engine) = (register_composition fork m key engine host).1
  step m host (acquires id) = (acquire fork m id host).1
  step m host (acquires_batch id n) = (acquire_batch fork m id n host).1
  step m host (fills id n) = (fill_pool fork m id n host).1
  step m host (releases id vm) = (release {E = E} m id vm host).1
  step m host (drops id) = (drop_pool m id).1

  -- A call on one pool leaves every pool of another key as it was.
  pub lookup-step_other :
      (m : PoolManager Engine Vm) (host : Host) (c : Call Engine Vm) (j : Text)
      → text_eq (target c) j ≡ false
      → lookup j (step m host c).pools ≡ lookup j m.pools
  unfolding step register_composition acquire acquire_batch fill_pool release drop_pool
  lookup-step_other m host (registers id engine config) j ne =
      register_other m id engine config host j ne
  lookup-step_other m host (registers_composition key engine) j ne =
      register_other m _ engine _ host j ne
  lookup-step_other m host (acquires id) j ne = on_pool_other (Fork.acquire fork) m id j host ne
  lookup-step_other m host (acquires_batch id n) j ne =
      on_pool_other (λ p. Fork.acquire_batch fork p n) m id j host ne
  lookup-step_other m host (fills id n) j ne =
      on_pool_other (λ p. Fork.fill_to fork p n) m id j host ne
  lookup-step_other m host (releases id vm) j ne =
      on_pool_other {E = E} (λ p h. (ok tt, Fork.release p vm, h)) m id j host ne
  lookup-step_other m host (drops id) j ne = rw lookup-remove (rw ne)

  lookup-register :
      (m : PoolManager Engine Vm) (id : Text) (engine : Engine) (config : PoolConfig) (host : Host)
      → lookup id (register fork m id engine config host).1.pools
        ≡ some (register fork m id engine config host).0
  unfolding register added
  lookup-register m id engine config host = elim (Option-cases (lookup id m.pools)) [
    | inl e ↦ rw (e, register) (rw lookup-insert (rw (text_eq_refl id)))
    | inr (p, e) ↦ rw (e, register) e
  ]

  register_known :
      (m : PoolManager Engine Vm) (id : Text) (engine : Engine) (config : PoolConfig) (host : Host)
      (p : ForkPool Engine Vm)
      → lookup id m.pools ≡ some p
      → register fork m id engine config host ≡ (p, m, host)
  unfolding register
  register_known m id engine config host p e = rw (e, register)

  -- Two composition keys that agree on their first twelve characters share one pool: the second
  -- registration gives back the pool of the first, ignores its own engine and changes nothing.
  register_composition_again :
      (m : PoolManager Engine Vm) (key key' : Text) (e₁ e₂ : Engine) (h₁ h₂ : Host)
      → take 12 key ≡ take 12 key'
      → register_composition fork (register_composition fork m key e₁ h₁).1 key' e₂ h₂
        ≡ ((register_composition fork m key e₁ h₁).0, (register_composition fork m key e₁ h₁).1, h₂)
  unfolding register_composition
  register_composition_again m key key' e₁ e₂ h₁ h₂ same =
      register_known _ (compose_id (take 12 key')) e₂ _ h₂ _
        (rw (← same) (lookup-register m (compose_id (take 12 key)) e₁ _ h₁))
