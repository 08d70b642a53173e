-- ===== src/Thread/Checkpoint.antt =====
-- kernel/thread.c: the points where a thread lets the scheduler in, over the deferred ring.
use verve_os.Base.{ℕ, not, ◌&&◌, ◌||◌, Option, none, some, ◌==◌, if◌then◌else◌}
use verve_os.Sched.{Sched, process_deferred, need_resched, clear_resched, preempt_disabled}
use verve_os.Thread.{Threads, Image, thread_reap_yield_from, sched_yield}

-- The output is that of `sched`; `sched_yield` prints nothing.
pub record Kern : Type 0 where
  pub threads : Threads
  pub sched : Sched

-- Where the thread goes on when it is switched to again; `outside` is behind a call of `sched_yield` that
-- is not in a checkpoint.
pub data Point : Type 0 where
  after_schedule : Point
  after_yield : Point
  outside : Point

-- The checkpoint is over, or `cpu_switch` is called.
pub data Check : Type 0 where
  finishes : Kern → Check
  switches : (old next : ℕ) → Point → Kern → Check

-- `sched_yield` and `rest` behind it, which waits for the switch back if there is one.
abbrev pub then_go_on :
    Point → (Kern → Option Check) → Kern → Option (Option (ℕ × ℕ) × Threads) → Option Check
then_go_on point rest k none = none
then_go_on point rest k (some (none, t)) = rest (record k { threads = t })
then_go_on point rest k (some (some (old, next), t)) =
    some (switches old next point (record k { threads = t }))

unfoldable pub schedule : ℕ → Kern → Option (Option (ℕ × ℕ) × Threads)
schedule cpu k =
    if preempt_disabled k.sched
    then some (none, k.threads)
    else sched_yield (preempt_disabled k.sched) cpu k.threads

abbrev pub clear : ℕ → Kern → Kern
clear cpu k = record k { sched = clear_resched cpu k.sched }

abbrev pub end_check : ℕ → Kern → Option Check
end_check cpu k = some (finishes (clear cpu k))

-- From the second test on.
unfoldable pub second_half : ℕ → Kern → Option Check
second_half cpu k =
    if (need_resched cpu k.sched == 0) || preempt_disabled k.sched
    then some (finishes k)
    else then_go_on after_yield (end_check cpu) k
        (sched_yield (preempt_disabled k.sched) cpu k.threads)

abbrev pub after_drain : ℕ → Kern → Option (ℕ × Sched) → Option Check
after_drain cpu k none = none
after_drain cpu k (some (drained, s)) =
    let k' : Kern = record k { sched = s } in
    if not (drained == 0) && not (preempt_disabled s)
    then then_go_on after_schedule (λ k. second_half cpu (clear cpu k)) k' (schedule cpu k')
    else second_half cpu k'

unfoldable pub sched_checkpoint : ℕ → Kern → Option Check
sched_checkpoint cpu k = after_drain cpu k (process_deferred cpu k.sched)

abbrev pub go_on : ℕ → Point → Sched → Option Threads → Option Check
go_on cpu point s none = none
go_on cpu after_schedule s (some t) =
    second_half cpu (clear cpu (record { threads = t; sched = s }))
go_on cpu after_yield s (some t) = end_check cpu (record { threads = t; sched = s })
go_on cpu outside s (some t) = some (finishes (record { threads = t; sched = s }))

-- What follows the switch back.
unfoldable pub resume_check : Image → ℕ → Point → Kern → Option Check
resume_check im cpu point k = go_on cpu point k.sched (thread_reap_yield_from im k.threads)
