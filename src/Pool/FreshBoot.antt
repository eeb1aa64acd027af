-- ===== src/Pool/FreshBoot.antt =====
-- `FreshBootPool` of tinymachine-fork/src/pool.rs. The backend's `init`, `reset` and `destroy` are
-- calls of a virtual machine monitor: they are parameters, as are backends, variants and the host.
pub mod Bounds
use tinymachine.Common.{
  ℕ, zero, suc, ◌+◌, ◌-◌, Bool, List, [], ◌∷◌, ◌++◌, ltb, leb, if◌then◌else◌, length, Result, ok,
  err, Text,
}

pub data FreshBootPoolError (E : Type 0) : Type 0 where
  empty full : FreshBootPoolError E
  backend : E → FreshBootPoolError E
  variant_not_found : Text → FreshBootPoolError E

pub record FreshBootPool (Variant Backend : Type 0) : Type 0 where
  pub pool : List Backend
  pub variant : Variant
  pub min_idle : ℕ
  pub max_idle : ℕ

-- `SandboxBackend` as the pool uses it. `init` boots a new backend; `reset` may fail.
pub record Vmm (Host Variant Backend E : Type 0) : Type 0 where
  pub init : Variant → Host → Result E Backend × Host
  pub reset : Backend → Host → Result E (Unit {0}) × Backend × Host
  pub destroy : Backend → Host → Host

module _ {Host Variant Backend E : Type 0} (vmm : Vmm Host Variant Backend E) where
  -- `for _ in 0..min { …init(…)?; pool.push_back(backend) }`
  boot : Variant → ℕ → List Backend → Host → Result (FreshBootPoolError E) (List Backend) × Host
  boot v zero pool host = (ok pool, host)
  boot v (suc n) pool host =
      let (booted, host') = vmm.init v host in
      elim booted [ ok b ↦ boot v n (pool ++ b ∷ []) host' | err e ↦ (err (backend e), host') ]

  unfoldable pub new :
      Variant → ℕ → ℕ → Host → Result (FreshBootPoolError E) (FreshBootPool Variant Backend) × Host
  unfolding boot
  new v min_idle max_idle host =
      let (booted, host') = boot v min_idle [] host in
      elim booted [
        | ok pool ↦ (
          ok (record { pool = pool; variant = v; min_idle = min_idle; max_idle = max_idle }),
          host',
        )
        | err e ↦ (err e, host')
      ]

  -- `for _ in 0..needed { …; if let Err(e) = init { break; } …push_back(backend) }`
  refill_rounds : ℕ → FreshBootPool Variant Backend → Host → FreshBootPool Variant Backend × Host
  refill_rounds zero p host = (p, host)
  refill_rounds (suc n) p host =
      let (booted, host') = vmm.init p.variant host in
      elim booted [
        | ok b ↦ refill_rounds n (record p { pool = p.pool ++ b ∷ [] }) host'
        | err e ↦ (p, host')
      ]

  unfoldable pub refill :
      FreshBootPool Variant Backend → Host → FreshBootPool Variant Backend × Host
  unfolding refill_rounds
  refill p host = refill_rounds (p.min_idle - length p.pool) p host

  serve :
      Backend
      → FreshBootPool Variant Backend × Host
      → Result (FreshBootPoolError E) Backend × FreshBootPool Variant Backend × Host
  serve b (p, host) = (ok b, p, host)

  boot_on_demand :
      FreshBootPool Variant Backend
      → Result E Backend × Host
      → Result (FreshBootPoolError E) Backend × FreshBootPool Variant Backend × Host
  unfolding serve
  boot_on_demand p (ok b, host) = serve b (refill p host)
  boot_on_demand p (err e, host) = (err (backend e), p, host)

  acquire_from :
      FreshBootPool Variant Backend
      → List Backend
      → Host
      → Result (FreshBootPoolError E) Backend × FreshBootPool Variant Backend × Host
  unfolding boot_on_demand
  acquire_from p (b ∷ rest) host = serve b (refill (record p { pool = rest }) host)
  acquire_from p [] host =
      if ltb p.max_idle (length p.pool + 1)
      then (err empty, p, host)
      else boot_on_demand p (vmm.init p.variant host)

  unfoldable pub acquire :
      FreshBootPool Variant Backend
      → Host
      → Result (FreshBootPoolError E) Backend × FreshBootPool Variant Backend × Host
  unfolding acquire_from
  acquire p host = acquire_from p p.pool host

  keep :
      FreshBootPool Variant Backend
      → Result E (Unit {0}) × Backend × Host
      → FreshBootPool Variant Backend × Host
  keep p (ok _, b, host) = (record p { pool = p.pool ++ b ∷ [] }, host)
  keep p (err e, b, host) = (p, vmm.destroy b host)

  unfoldable pub release :
      FreshBootPool Variant Backend → Backend → Host → FreshBootPool Variant Backend × Host
  unfolding keep
  release p b host =
      if leb p.max_idle (length p.pool) then (p, vmm.destroy b host) else keep p (vmm.reset b host)
