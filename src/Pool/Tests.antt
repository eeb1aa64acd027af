-- ===== src/Pool/Tests.antt =====
-- The theorems about the pools at work on small pools.
use tinymachine.Common.{
  ℕ, suc, ◌≡◌, refl, none, [], ◌∷◌, ltb, if◌then◌else◌, text_eq, codes, arith, Result, ok, err,
}
use tinymachine.Common.Maps.{lookup}
use tinymachine.Pool.Config.{PoolConfig}
use tinymachine.Pool.Fork.{ForkPool, acquire, acquire_batch, new}
use tinymachine.Pool.Fork.Handover.{Acquired, acquire-Acquired, Batched, acquire_batch-Batched}
use tinymachine.Pool.Fork.Sizes
use tinymachine.Pool.Fork.Sizes.{run-new-Within}
use tinymachine.Pool.Fork.Warm.{IsWarm, acquire-IsWarm}
use tinymachine.Pool.FreshBoot.{FreshBootPool, Vmm}
use tinymachine.Pool.Manager.{PoolManager}
use tinymachine.Pool.Manager.Isolation.{step, acquires, lookup-step_other}

-- A host numbers its VMs; the engine `limit` makes those below its limit.
abbrev fork_next : ℕ → ℕ → Result ℕ ℕ × ℕ
fork_next limit next = if ltb next limit then (ok next, suc next) else (err next, next)

abbrev fork_always : ℕ → ℕ → Result ℕ ℕ × ℕ
fork_always engine next = (ok next, suc next)

abbrev small : PoolConfig
small = record { min_idle = 1; max_idle = 3; idle_timeout_secs = 60; variant_id = none }

abbrev two_idle : ForkPool ℕ ℕ
two_idle = record { engine = 12; pool = 7 ∷ 8 ∷ []; config = small }

acquire_batch-Batched_example : Batched two_idle 5 (acquire_batch fork_next two_idle 5 10)
acquire_batch-Batched_example = acquire_batch-Batched fork_next two_idle 5 10

acquire-Acquired_example : Acquired two_idle (acquire fork_next two_idle 10)
acquire-Acquired_example = acquire-Acquired fork_next two_idle 10

run-new-Within_example :
    Sizes.Within small
      (Sizes.run fork_next
        (new fork_next 12 small 9)
        (Sizes.acquires ∷ Sizes.releases 7 ∷ Sizes.acquires_batch 4 ∷ [])).0
run-new-Within_example =
    run-new-Within fork_next 12 small 9
      (Sizes.acquires ∷ Sizes.releases 7 ∷ Sizes.acquires_batch 4 ∷ []) (omega arith)

acquire-IsWarm_example : IsWarm (acquire fork_always two_idle 10)
acquire-IsWarm_example = acquire-IsWarm fork_always 12 (λ host. tt) two_idle 10 refl (omega arith)

abbrev manager : PoolManager ℕ ℕ
manager = record { pools = (codes "a:b", two_idle) ∷ (codes "a:c", two_idle) ∷ [] }

lookup-step_other_example :
    lookup (codes "a:c") (step fork_next manager 10 (acquires (codes "a:b"))).pools
    ≡ lookup (codes "a:c") manager.pools
unfolding text_eq
lookup-step_other_example =
    lookup-step_other fork_next manager 10 (acquires (codes "a:b")) (codes "a:c") refl

-- a monitor that boots VMs below ten and resets those that are below five
abbrev vmm : Vmm ℕ ℕ ℕ ℕ
vmm = record {
  init = λ variant next. if ltb next 10 then (ok next, suc next) else (err next, next);
  reset = λ vm next. if ltb vm 5 then (ok tt, vm, next) else (err vm, vm, next);
  destroy = λ vm next. next;
}

abbrev one_idle : FreshBootPool ℕ ℕ
one_idle = record { pool = 4 ∷ []; variant = 0; min_idle = 1; max_idle = 2 }
