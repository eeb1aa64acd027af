-- ===== src/Lazy/Tests.antt =====
-- The theorems about lazy runs at work on a queue of three snippets.
use tinymachine.Common.{
  ℕ, suc, refl, none, some, [], ◌∷◌, false, Text, codes, text_eq, ltb, if◌then◌else◌, arith, Result,
  ok, err, length,
}
use tinymachine.Common.Maps.{lookup}
use tinymachine.Pool.Config.{PoolConfig}
use tinymachine.Pool.Fork.{ForkPool}
use tinymachine.Pool.Manager.{PoolManager, has_pool}
use tinymachine.Lazy.Config.{LazyFork, Failure, effective_batch_size}
use tinymachine.Lazy.Realize.{realize}
use tinymachine.Lazy.Settled.{all_slots, unfilled, Settled, realize-Settled}
use tinymachine.Lazy.Steps.{outs}
use tinymachine.Lazy.Fifo.{Answers, realize-Answers}

-- a host that numbers its VMs, whose engines make those below their limit
abbrev fork_next : ℕ → ℕ → Result ℕ ℕ × ℕ
fork_next limit next = if ltb next limit then (ok next, suc next) else (err next, next)

abbrev fork_always : ℕ → ℕ → Result ℕ ℕ × ℕ
fork_always engine next = (ok next, suc next)

abbrev echo : Text → Result (Failure ℕ) Text
echo code = ok code

abbrev run_echo : ℕ → Text → Result (Failure ℕ) Text × ℕ
run_echo vm code = (ok code, suc vm)

abbrev small : PoolConfig
small = record { min_idle = 1; max_idle = 3; idle_timeout_secs = 60; variant_id = none }

abbrev one_idle : ForkPool ℕ ℕ
one_idle = record { engine = 12; pool = 7 ∷ []; config = small }

abbrev manager : PoolManager ℕ ℕ
manager = record { pools = (codes "a:b", one_idle) ∷ [] }

abbrev three_queued : LazyFork ℕ ℕ
three_queued = record {
  queue =
      record { code = codes "x"; variant_id = codes "a:b" }
      ∷ record { code = codes "y"; variant_id = codes "a:b" }
      ∷ record { code = codes "z"; variant_id = codes "a:b" }
      ∷ [];
  pool_manager = some manager;
  config = record { max_batch = 2; max_latency = 50; profiler_enabled = false };
  timer_start = some 5;
}

-- The pool hands out its idle VM and fails to fork another at the host's limit, so the second item fails.
realize-Settled_example :
    Settled three_queued.queue
      (all_slots fork_next run_echo 3
        (effective_batch_size length three_queued.config three_queued.queue)
        (unfilled ℕ manager 12 three_queued.queue)
        0
        three_queued.queue)
      (realize fork_next run_echo length three_queued 12)
realize-Settled_example =
    realize-Settled fork_next run_echo length three_queued manager 12 refl (omega arith)

realize-Answers_example :
    Answers (outs echo three_queued.queue) (realize fork_always run_echo length three_queued 10)
unfolding has_pool lookup text_eq
realize-Answers_example =
    realize-Answers fork_always run_echo length (λ engine host. tt) echo (λ vm code. refl)
      three_queued manager 10 refl (omega arith) (refl, (refl, (refl, tt)))
