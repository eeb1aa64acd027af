-- ===== src/Pool/FreshBoot/Bounds.antt =====
-- How many booted VMs a `FreshBootPool` holds, and when it refuses one.
use tinymachine.Common.{
  ℕ, zero, suc, ◌+◌, ◌≤◌, ◌≡◌, ◌↔◌, refl, ap, inl, inr, Bool-cases, ltb, leb, List, [], ◌∷◌, ◌++◌,
  length, arith, Result, ok, err, Result-cases, length-append,
}
use tinymachine.Pool.FreshBoot.{
  FreshBootPool, Vmm, empty, refill_rounds, refill, serve, boot_on_demand, acquire_from, acquire,
  keep, release,
}

module _ {Variant Backend : Type 0} where
  -- The limits are `lo` and `hi`, and at most `hi` VMs are idle.
  abbrev pub Within : ℕ → ℕ → FreshBootPool Variant Backend → Type 0
  Within lo hi p = (p.min_idle ≡ lo) × (p.max_idle ≡ hi) × (length p.pool ≤ hi)

pub data Call (Backend : Type 0) : Type 0 where
  acquires : Call Backend
  releases : Backend → Call Backend

module _ {Host Variant Backend E : Type 0} (vmm : Vmm Host Variant Backend E) where
  step : FreshBootPool Variant Backend × Host → Call Backend → FreshBootPool Variant Backend × Host
  step (p, host) acquires = let (r, p', host') = acquire vmm p host in (p', host')
  step (p, host) (releases b) = release vmm p b host

  pub run :
      FreshBootPool Variant Backend × Host
      → List (Call Backend)
      → FreshBootPool Variant Backend × Host
  unfolding step
  run s [] = s
  run s (c ∷ cs) = run (step s c) cs

  module _ (lo hi : ℕ) (ordered : lo ≤ hi) where
    rounds-Within :
        (n : ℕ) (p : FreshBootPool Variant Backend) (host : Host)
        → length p.pool + n ≤ hi
        → Within lo hi p
        → Within lo hi (refill_rounds vmm n p host).0
    unfolding refill_rounds
    rounds-Within zero p host fits w = w
    rounds-Within (suc n) p host fits (a, b, c) = elim (Result-cases (vmm.init p.variant host).0) [
      | inl (vm, e) ↦
          let l = length-append p.pool (vm ∷ []) in
          rw (e, refill_rounds)
            (rounds-Within n (record p { pool = p.pool ++ vm ∷ [] }) (vmm.init p.variant host).1
              (omega arith) (a, b, omega arith))
      | inr (x, e) ↦ rw (e, refill_rounds) (a, b, c)
    ]

    refill-Within :
        (p : FreshBootPool Variant Backend) (host : Host)
        → Within lo hi p
        → Within lo hi (refill vmm p host).0
    unfolding refill
    refill-Within p host (a, b, c) = rounds-Within _ p host (omega arith) (a, b, c)

    demand-Within :
        (p : FreshBootPool Variant Backend) (r : Result E Backend × Host)
        → Within lo hi p
        → Within lo hi (boot_on_demand vmm p r).1
    unfolding boot_on_demand serve
    demand-Within p (ok b, host) w = refill-Within p host w
    demand-Within p (err e, host) w = w

    acquire_from-Within :
        (p : FreshBootPool Variant Backend) (l : List Backend) (host : Host)
        → p.pool ≡ l
        → Within lo hi p
        → Within lo hi (acquire_from vmm p l host).1
    unfolding acquire_from serve
    acquire_from-Within p (x ∷ rest) host e (a, b, c) =
        refill-Within (record p { pool = rest }) host (a, b, omega (arith, ap length e))
    acquire_from-Within p [] host e w = elim (Bool-cases (ltb p.max_idle (length p.pool + 1))) [
      | inl full ↦ rw (full, acquire_from) w
      | inr room ↦ rw (room, acquire_from) (demand-Within p _ w)
    ]

    keep-Within :
        (p : FreshBootPool Variant Backend) (r : Result E (Unit {0}) × Backend × Host)
        → length p.pool + 1 ≤ hi
        → Within lo hi p
        → Within lo hi (keep vmm p r).0
    unfolding keep
    keep-Within p (ok _, x, host) fits (a, b, c) =
        (a, b, omega (arith, length-append p.pool (x ∷ [])))
    keep-Within p (err e, x, host) fits w = w

    release-Within :
        (p : FreshBootPool Variant Backend) (x : Backend) (host : Host)
        → Within lo hi p
        → Within lo hi (release vmm p x host).0
    unfolding release
    release-Within p x host (a, b, c) = elim (Bool-cases (leb p.max_idle (length p.pool))) [
      | inl full ↦ rw (full, release) (a, b, c)
      | inr room ↦ rw (room, release) (keep-Within p _ (ground arith) (a, b, c))
    ]

    step-Within :
        (s : FreshBootPool Variant Backend × Host) (c : Call Backend)
        → Within lo hi s.0
        → Within lo hi (step s c).0
    unfolding step acquire
    step-Within (p, host) acquires w = acquire_from-Within p p.pool host refl w
    step-Within (p, host) (releases x) w = release-Within p x host w

    -- Whatever is acquired and released and whichever boots and resets fail, a pool with limits
    -- `lo ≤ hi` that holds at most `hi` idle VMs goes on holding at most `hi`, with the same limits.
    run-Within :
        (s : FreshBootPool Variant Backend × Host) (cs : List (Call Backend))
        → Within lo hi s.0
        → Within lo hi (run s cs).0
    unfolding run
    run-Within s [] w = w
    run-Within s (c ∷ cs) w = run-Within (step s c) cs (step-Within s c w)

  demand_not_empty :
      (p : FreshBootPool Variant Backend) (r : Result E Backend × Host)
      → (boot_on_demand vmm p r).0 ≡ err empty
      → ⊥
  unfolding boot_on_demand serve
  demand_not_empty p (ok b, host) e = cc
  demand_not_empty p (err x, host) e = cc

  acquire_from-empty :
      (p : FreshBootPool Variant Backend) (l : List Backend) (host : Host)
      → p.pool ≡ l
      → ((acquire_from vmm p l host).0 ≡ err empty) ↔ ((p.pool ≡ []) × (p.max_idle ≡ 0))
  unfolding acquire_from serve
  acquire_from-empty p (x ∷ rest) host e = (λ h. absurd (cc), λ h. cc)
  acquire_from-empty p [] host e = elim (Bool-cases (ltb p.max_idle (length p.pool + 1))) [
    | inl full ↦ rw (full, acquire_from) (λ h. (e, ground (arith, ap length e)), λ h. refl)
    | inr room ↦
        rw (room, acquire_from)
          (λ h. absurd (demand_not_empty p _ h), λ h. ground (arith, ap length e))
  ]

  -- `acquire` answers `Empty` exactly where no VM is idle and the maximum is zero: the VMs that are
  -- handed out do not count.
  acquire-empty :
      (p : FreshBootPool Variant Backend) (host : Host)
      → ((acquire vmm p host).0 ≡ err empty) ↔ ((p.pool ≡ []) × (p.max_idle ≡ 0))
  unfolding acquire
  acquire-empty p host = acquire_from-empty p p.pool host refl
