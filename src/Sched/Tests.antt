-- ===== src/Sched/Tests.antt =====
-- A CPU whose ring holds three ticks, round the end of the array, with the tenth tick to come.
use verve_os.Base.{ℕ, ◌+◌, ◌*◌, ◌≡◌, refl, some, [], ◌∷◌, arith}
use verve_os.Sched.{
  Sched, cpu_ix, defer_push_tick, clear_from, sched_init, process_deferred, tick_count,
  need_resched, clear_resched,
}
use verve_os.Sched.Ring.{IsValid, Pushed, pending, defer_push_tick-Pushed}
use verve_os.Sched.Deferred.{Processed, process_deferred-Processed}
use verve_os.Sched.History.{timer, checkpoint, run, unreported, quanta, run-quanta}

abbrev sample : Sched
sample = record {
  tick = λ c. 9;
  need_resched = λ c. 0;
  defer_ring = λ c i. 5 * i;
  defer_w = λ c. 1;
  defer_r = λ c. 14;
  defer_overflow = λ c. 2;
  preempt_disable_depth = 0;
  serial = [];
}

sample-IsValid : (c : ℕ) → IsValid c sample
sample-IsValid c = record { w_in = omega arith; r_in = omega arith }

pending-sample : pending 1 sample ≡ 70 ∷ 75 ∷ 0 ∷ []
pending-sample = refl

defer_push_tick-Pushed_example : Pushed 1 10 sample (defer_push_tick 1 10 sample)
defer_push_tick-Pushed_example = defer_push_tick-Pushed 1 10 sample (sample-IsValid 1)

process_deferred-Processed_example : Processed (cpu_ix 1) sample (process_deferred 1 sample)
process_deferred-Processed_example = process_deferred-Processed 1 sample (sample-IsValid (cpu_ix 1))

run-quanta_example :
    (s' : Sched) × (sum' : ℕ) × (run 1 (sample, 0) (timer ∷ checkpoint ∷ timer ∷ [])
      ≡ some (s', sum'))
    × (sum' + unreported (cpu_ix 1) s'
        ≡ 0 + unreported (cpu_ix 1) sample + quanta (sample.tick (cpu_ix 1)) 2)
run-quanta_example =
    run-quanta 1 sample 0 (timer ∷ checkpoint ∷ timer ∷ []) (sample-IsValid (cpu_ix 1))
      (omega arith) (omega arith)

-- An index that is too large stands for CPU 0.
need_resched_out_of_range : need_resched 40 (clear_resched 0 sample) ≡ 0
unfolding need_resched clear_resched cpu_ix
need_resched_out_of_range = refl

tick_count-sched_init : tick_count 31 (sched_init sample) ≡ 0
unfolding tick_count sched_init clear_from cpu_ix
tick_count-sched_init = refl
