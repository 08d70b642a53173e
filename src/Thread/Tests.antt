-- ===== src/Thread/Tests.antt =====
-- Two CPUs and three threads.
use verve_os.Base.{false, ℕ, ◌*◌, refl, arith, ◌==◌, if◌then◌else◌, [], ◌∷◌, none, some}
use verve_os.Thread.{Thread, Threads, runnable, no_token, aff_any, sched_yield, unlink_thread}
use verve_os.Thread.Checkpoint.{Kern, sched_checkpoint}
use verve_os.Thread.Check.{Checks, sched_checkpoint-Checks}
use verve_os.Thread.Unlink.{Unlinked, unlink_thread-Unlinked}
use verve_os.Thread.Yield.{IsExclusive, Yields, sched_yield-Yields}

abbrev thread : ℕ → ℕ → Thread
thread next token = record {
  esp = 0;
  next = some next;
  fn = 0;
  state = runnable;
  kstack = 0;
  affinity_cpu = aff_any;
  sched_token = token;
}

-- The main thread runs on CPU 0 and thread 0 on CPU 1; thread 1 waits.
abbrev two_cpus : Threads
two_cpus = record {
  slots = λ t. if t == 64 then thread 0 0 else if t == 0 then thread 1 1 else thread 64 no_token;
  current = λ cpu. if cpu == 0 then some 64 else if cpu == 1 then some 0 else none;
  idle_for_cpu = λ cpu. none;
  yield_from = none;
  heap = record { mem = λ a. 0; freelist = 0; heap_off = 0 };
  serial = [];
}

two_cpus-IsExclusive : IsExclusive two_cpus
two_cpus-IsExclusive = record { claimed = λ cpu t cpu_lt runs. ground arith }

sched_yield-Yields_example : Yields 0 64 two_cpus (0 ∷ 1 ∷ []) (sched_yield false 0 two_cpus)
sched_yield-Yields_example =
    sched_yield-Yields 0 64 two_cpus (0 ∷ 1 ∷ []) (omega arith) refl
      (refl, omega arith, (refl, omega arith, refl)) (omega arith) two_cpus-IsExclusive

unlink_thread-Unlinked_example : Unlinked two_cpus 64 1 (0 ∷ []) [] (unlink_thread 1 two_cpus)
unlink_thread-Unlinked_example =
    unlink_thread-Unlinked 1 two_cpus (0 ∷ []) [] (refl, omega arith, (refl, omega arith, refl))
      ((omega arith, tt), (tt, tt)) (omega arith)

-- CPU 0 has three ticks waiting.
abbrev kern : Kern
kern = record {
  threads = two_cpus;
  sched = record {
    tick = λ c. 9;
    need_resched = λ c. 1;
    defer_ring = λ c i. 5 * i;
    defer_w = λ c. 1;
    defer_r = λ c. 14;
    defer_overflow = λ c. 0;
    preempt_disable_depth = 0;
    serial = [];
  };
}

sched_checkpoint-Checks_example : Checks 0 64 kern (0 ∷ 1 ∷ []) (sched_checkpoint 0 kern)
sched_checkpoint-Checks_example =
    sched_checkpoint-Checks 0 64 kern (0 ∷ 1 ∷ [])
      (record { w_in = omega arith; r_in = omega arith }) (omega arith) refl
      (refl, omega arith, (refl, omega arith, refl)) (omega arith) two_cpus-IsExclusive
