-- ===== src/Pool/Fork/Batch.antt =====
-- What `fork_batch` and the draining loop of `acquire_batch` return.
use mathlib.Core.List.{append-nil, append_assoc}
use tinymachine.Common.{
  ℕ, zero, suc, ◌≡◌, refl, sym, ap, ◌∙◌, inl, inr, List, [], ◌∷◌, ◌++◌, length, take, drop, ◌+◌,
  arith, Result, ok, err, Result-cases, length-append,
}
use tinymachine.Pool.Fork.{fork_batch, drain}

-- A batch of `n` that succeeds puts exactly `n` VMs behind `vms`.
abbrev pub Extends : {Vm E : Type 0} → ℕ → List Vm → Result E (List Vm) → Type 0
Extends {Vm} n vms (ok all) = (more : List Vm) × (all ≡ vms ++ more) × (length more ≡ n)
Extends n vms (err e) = Unit

module _ {Vm E : Type 0} where
  Extends-cons :
      (n : ℕ) (vms : List Vm) (vm : Vm) (r : Result E (List Vm))
      → Extends n (vms ++ vm ∷ []) r
      → Extends (suc n) vms r
  Extends-cons n vms vm (ok all) (more, e, l) =
      (vm ∷ more, e ∙ append_assoc vms (vm ∷ []) more, ap suc l)
  Extends-cons n vms vm (err e) x = tt

module _ {Host Engine Vm E : Type 0} (fork : Engine → Host → Result E Vm × Host) where
  pub fork_batch-Extends :
      (engine : Engine) (n : ℕ) (vms : List Vm) (host : Host)
      → Extends n vms (fork_batch fork engine n vms host).0
  unfolding fork_batch
  fork_batch-Extends engine zero vms host = ([], sym (append-nil vms), refl)
  fork_batch-Extends engine (suc n) vms host = elim (Result-cases (fork engine host).0) [
    | inl (vm, e) ↦
        rw (e, fork_batch)
          (Extends-cons n vms vm _
            (fork_batch-Extends engine n (vms ++ vm ∷ []) (fork engine host).1))
    | inr (x, e) ↦ rw (e, fork_batch) tt
  ]

module _ {Vm : Type 0} where
  drain_from :
      (n k : ℕ) (vms pool : List Vm)
      → n ≡ length vms + k
      → drain n vms pool ≡ (vms ++ take k pool, drop k pool)
  unfolding drain
  drain_from n zero vms [] h = rw append-nil
  drain_from n (suc k) vms [] h = rw append-nil
  drain_from n zero vms (vm ∷ rest) h = ground (arith, append-nil vms)
  drain_from n (suc k) vms (vm ∷ rest) h = ground (
    arith,
    length-append vms (vm ∷ []),
    drain_from n k (vms ++ vm ∷ []) rest,
    append_assoc vms (vm ∷ []) (take k rest),
  )

  -- The draining loop moves VMs from the front until it has `n` or the pool is empty.
  pub drain_lem : (n : ℕ) (pool : List Vm) → drain n [] pool ≡ (take n pool, drop n pool)
  drain_lem n pool = drain_from n n [] pool (omega arith)
