-- ===== src/Thread/Demo.antt =====
-- kernel/thread.c: the two demonstration threads and the run of the main thread, as lists of their calls.
use verve_os.Base.{ℕ, zero, suc, ◌+◌, Option, none, some, List, [], ◌∷◌, ◌++◌, ◌==◌, if◌then◌else◌}
use verve_os.Base.Array.{codes}
use verve_os.Sched.{preempt_disable, preempt_enable, preempt_disabled}
use verve_os.Serial.{puts, put_u64_hex}
use verve_os.Thread.{Threads, Image, sched_yield}
use verve_os.Thread.Start.{thread_spawn}
use verve_os.Thread.Checkpoint.{
  Kern, outside, Check, finishes, switches, then_go_on, sched_checkpoint,
}

pub data Action : Type 0 where
  tell : List ℕ → Action
  tell_number : List ℕ → ℕ → Action
  disable : Action
  enable : Action
  check : Action
  yield : Action
  spawn : ℕ → Action

-- The loop of `worker_a` from round `i` on.
unfoldable pub rounds_a : ℕ → ℕ → List Action
rounds_a zero i = []
rounds_a (suc left) i =
    (if i == 0
      then disable
        ∷ tell (codes "[VerveOS] thread A critical begin (preempt disabled)\r\n")
        ∷ tell (codes "[VerveOS] thread A critical end\r\n")
        ∷ enable
        ∷ []
      else [])
    ++ tell_number (codes "[VerveOS] thread A work ") i ∷ check ∷ rounds_a left (i + 1)

unfoldable pub worker_a : List Action
worker_a =
    tell (codes "[VerveOS] thread A start (will checkpoint on timer quantum)\r\n") ∷ rounds_a 6 0
    ++ tell (codes "[VerveOS] thread A end\r\n") ∷ []

unfoldable pub rounds_b : ℕ → ℕ → List Action
rounds_b zero i = []
rounds_b (suc left) i =
    tell_number (codes "[VerveOS] thread B work ") i ∷ check ∷ rounds_b left (i + 1)

unfoldable pub worker_b : List Action
worker_b =
    tell (codes "[VerveOS] thread B start (will checkpoint on timer quantum)\r\n") ∷ rounds_b 6 0
    ++ tell (codes "[VerveOS] thread B end\r\n") ∷ []

unfoldable pub demo_rounds : ℕ → List Action
demo_rounds zero = []
demo_rounds (suc left) = yield ∷ check ∷ demo_rounds left

-- `fn_a` and `fn_b` are the addresses of `worker_a` and `worker_b`.
unfoldable pub thread_demo_run : ℕ → ℕ → List Action
thread_demo_run fn_a fn_b =
    tell (codes "[VerveOS] coop threads: spawning A,B (LAPIC timer sets need_resched)\r\n")
      ∷ tell (codes "[VerveOS] thread: SMP affinity + sched_token claim\r\n")
      ∷ spawn fn_a
      ∷ spawn fn_b
      ∷ tell (codes "[VerveOS] main: round-robin + timer checkpoints\r\n")
      ∷ demo_rounds 48
    ++ tell (codes "[VerveOS] coop demo: main returns to idle\r\n") ∷ []

abbrev told : List ℕ → Kern → Option Check
told out k = some (finishes (record k { sched = record k.sched { serial = out } }))

abbrev after_spawn : Kern → Option Threads → Option Check
after_spawn k none = none
after_spawn k (some t) =
    some (finishes (record { threads = t; sched = record k.sched { serial = t.serial } }))

-- One call of a thread on a CPU.
unfoldable pub perform : Image → ℕ → Action → Kern → Option Check
perform im cpu (tell text) k = told (puts text k.sched.serial) k
perform im cpu (tell_number text n) k =
    told (puts (codes "\r\n") (put_u64_hex n (puts text k.sched.serial))) k
perform im cpu disable k = some (finishes (record k { sched = preempt_disable k.sched }))
perform im cpu enable k = some (finishes (record k { sched = preempt_enable k.sched }))
perform im cpu check k = sched_checkpoint cpu k
perform im cpu yield k =
    then_go_on outside (λ k. some (finishes k)) k
      (sched_yield (preempt_disabled k.sched) cpu k.threads)
perform im cpu (spawn fn) k =
    after_spawn k (thread_spawn im fn (record k.threads { serial = k.sched.serial }))

-- The calls up to the first switch, with those that are left.
unfoldable pub run_until_switch : Image → ℕ → List Action → Kern → Option (Check × List Action)
run_until_switch im cpu [] k = some (finishes k, [])
run_until_switch im cpu (a ∷ as_left) k = elim (perform im cpu a k) [
  | none ↦ none
  | some (finishes k') ↦ run_until_switch im cpu as_left k'
  | some (switches old next point k') ↦ some (switches old next point k', as_left)
]
