-- ===== src/Thread/Check.antt =====
-- A checkpoint drains the ring, and gives the CPU up where it is wanted.
use verve_os.Base.{
  ℕ, ◌<◌, ◌≡◌, refl, sym, ◌∙◌, ap, arith, inl, inr, ◌⊎◌, Bool, Bool-cases, true, false, not, ◌&&◌,
  ◌||◌, Option, none, some, List, ◌==◌, length,
}
use verve_os.Sched.{Sched, cpu_ix, need_resched, clear_resched, preempt_disabled}
use verve_os.Sched.Ring.{IsValid, pending}
use verve_os.Sched.Deferred.{process_deferred-Processed}
use verve_os.Thread.{Threads, sched_yield}
use verve_os.Thread.Ring.{Leads, first_ready}
use verve_os.Thread.Yield.{IsExclusive, Switched, Yields, sched_yield-Yields}
use verve_os.Thread.Checkpoint.{
  Kern, Point, end_check, after_schedule, after_yield, Check, finishes, switches, then_go_on,
  schedule, clear, second_half, after_drain, sched_checkpoint,
}

-- Whether ticks wait or a switch is asked for, and switches are allowed.
abbrev pub wants : ℕ → Kern → Bool
wants cpu k =
    not (preempt_disabled k.sched)
    && (not (length (pending (cpu_ix cpu) k.sched) == 0) || not (need_resched cpu k.sched == 0))

-- The ring of the CPU is empty, and no switch is asked for that is allowed.
pub record IsSettled (cpu : ℕ) (k k' : Kern) : Type 0 where
  pub threads : k'.threads ≡ k.threads
  pub empty : k'.sched.defer_r (cpu_ix cpu) ≡ k'.sched.defer_w (cpu_ix cpu)
  pub asked : (preempt_disabled k.sched ≡ true) ⊎ (need_resched cpu k'.sched ≡ 0)

pub data Checks (cpu old : ℕ) (k : Kern) (ts : List ℕ) : Option Check → Type 0 where
  settles :
      (k' : Kern)
      → IsSettled cpu k k'
      → (wants cpu k ≡ false) ⊎ (first_ready cpu k.threads ts ≡ none)
      → Checks cpu old k ts (some (finishes k'))
  gives_up :
      (next : ℕ) (point : Point) (k' : Kern)
      → wants cpu k ≡ true
      → first_ready cpu k.threads ts ≡ some next
      → Switched cpu old next k.threads k'.threads
      → k'.sched.defer_r (cpu_ix cpu) ≡ k'.sched.defer_w (cpu_ix cpu)
      → Checks cpu old k ts (some (switches old next point k'))

module _ (cpu old : ℕ) (k : Kern) (ts : List ℕ) (s : Sched)
    (y : Yields cpu old k.threads ts (sched_yield false cpu k.threads))
    (empty : s.defer_r (cpu_ix cpu) ≡ s.defer_w (cpu_ix cpu)) where
  abbrev drained : Kern
  drained = record k { sched = s }

  cleared : need_resched cpu (clear_resched cpu s) ≡ 0
  unfolding need_resched clear_resched
  cleared = ground arith

  yield-Checks :
      (point : Point) (rest : Kern → Option Check)
      → wants cpu k ≡ true
      → rest drained ≡ some (finishes (clear cpu drained))
      → (r : Option (Option (ℕ × ℕ) × Threads)) → Yields cpu old k.threads ts r
      → Checks cpu old k ts (then_go_on point rest drained r)
  unfolding clear_resched
  yield-Checks point rest wanted ends _ (Yields.stays idle) = rw ends (
      settles (clear cpu drained) (record { threads = refl; empty = empty; asked = inr cleared })
        (inr idle))
  yield-Checks point rest wanted ends _ (Yields.switches next t ready switched) =
      gives_up next point (record drained { threads = t }) wanted ready switched empty

  second_half_cleared : second_half cpu (clear cpu drained) ≡ some (finishes (clear cpu drained))
  unfolding second_half clear_resched preempt_disabled
  second_half_cleared = rw cleared refl

  module _ (same_depth : preempt_disabled s ≡ preempt_disabled k.sched)
      (same_need : need_resched cpu s ≡ need_resched cpu k.sched) where
    quiet-Checks :
        (wants cpu k ≡ false)
        → (preempt_disabled k.sched ≡ true) ⊎ (need_resched cpu k.sched ≡ 0)
        → Checks cpu old k ts (some (finishes drained))
    quiet-Checks calm why =
        settles drained
          (record {
            threads = refl;
            empty = empty;
            asked = elim why [ inl off ↦ inl off | inr none_asked ↦ inr (same_need ∙ none_asked) ];
          })
          (inl calm)

    drained-Checks :
        Checks cpu old k ts (after_drain cpu k (some (length (pending (cpu_ix cpu) k.sched), s)))
    unfolding second_half schedule
    drained-Checks = elim (Bool-cases (preempt_disabled k.sched)) [
      | inl off ↦
          let off' : preempt_disabled s ≡ true = same_depth ∙ off in
          let calm : wants cpu k ≡ false = ground (arith, off) in
          let first : (not (length (pending (cpu_ix cpu) k.sched) == 0) && false) ≡ false =
            ground arith in
          let second : ((need_resched cpu s == 0) || true) ≡ true = ground arith in
          rw (off', first, second_half, second) (quiet-Checks calm (inl off))
      | inr on ↦
          let on' : preempt_disabled s ≡ false = same_depth ∙ on in
          elim (Bool-cases (length (pending (cpu_ix cpu) k.sched) == 0)) [
            | inl none_wait ↦ elim (Bool-cases (need_resched cpu k.sched == 0)) [
              | inl calm ↦
                  let calm' : (need_resched cpu s == 0) ≡ true = rw same_need calm in
                  rw (on', none_wait, second_half, calm')
                    (quiet-Checks (ground (arith, on, none_wait, calm))
                      (inr (ground (arith, calm))))
              | inr asked ↦
                  let asked' : (need_resched cpu s == 0) ≡ false = rw same_need asked in
                  rw (on', none_wait, second_half, asked')
                    (yield-Checks after_yield (end_check cpu) (ground (arith, on, none_wait, asked))
                      refl _ y)
            ]
            | inr wait ↦
                rw (on', wait, schedule)
                  (yield-Checks after_schedule (λ k'. second_half cpu (clear cpu k'))
                    (ground (arith, on, wait)) second_half_cleared _ y)
          ]
    ]

-- With a valid deferred ring, and in the ring of threads where `sched_yield` returns: `sched_checkpoint`
-- drains the deferred ring. If ticks waited or a switch was asked for, and switches are allowed, it
-- switches to the first thread that is ready, and ends as there is none; else it ends with the same
-- thread. At the end no switch is asked for, unless switches are off.
pub sched_checkpoint-Checks :
    (cpu old : ℕ) (k : Kern) (ts : List ℕ)
    → IsValid (cpu_ix cpu) k.sched
    → cpu < 32
    → k.threads.current cpu ≡ some old
    → Leads k.threads (k.threads.slots old).next ts old
    → length ts < 65
    → IsExclusive k.threads
    → Checks cpu old k ts (sched_checkpoint cpu k)
unfolding sched_checkpoint need_resched preempt_disabled
sched_checkpoint-Checks cpu old k ts v small runs leads few is =
    let p = process_deferred-Processed cpu k.sched v in
    let y = sched_yield-Yields cpu old k.threads ts small runs leads few is in
    let writes = ap (λ (q : Sched). q.defer_w (cpu_ix cpu)) p.same in
    let depth = ap (λ (q : Sched). not (q.preempt_disable_depth == 0)) p.same in
    let need = ap (λ (q : Sched). q.need_resched (cpu_ix cpu)) p.same in
    rw p.returns (drained-Checks cpu old k ts p.after y (p.empty ∙ sym writes) depth need)
