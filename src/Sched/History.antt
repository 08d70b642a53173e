-- ===== src/Sched/History.antt =====
-- Timer interrupts and drains of one CPU in any order: no quantum is lost.
use verve_os.Base.{
  ℕ, suc, ◌+◌, ◌-◌, ◌/◌, ◌%◌, ◌^◌, ◌<◌, ◌≡◌, refl, ap, ◌∙◌, ◌&&◌, Option, none, some, List, [], ◌∷◌,
  arith, Bool-cases, inl, inr, leb, ◌==◌, if◌then◌else◌, length, u64,
}
use verve_os.Base.Array.{Array, update}
use verve_os.Base.Lists.{length-append}
use verve_os.Sched.{Sched, cpu_ix, timer_tick, print_tick, defer_push_tick, process_deferred}
use verve_os.Sched.Ring.{IsValid, Pushed, pending, fill, length-window, defer_push_tick-Pushed}
use verve_os.Sched.Deferred.{Processed, process_deferred-Processed}

-- The quanta of CPU `c` that were not reported yet: those that wait, and those dropped.
abbrev pub unreported : ℕ → Sched → ℕ
unreported c s = length (pending c s) + s.defer_overflow c

abbrev pub next_tick : ℕ → Sched → ℕ
next_tick c s = u64 (s.tick c + 1)

-- The state when the tick is counted, before the quantum is looked at.
abbrev counted : ℕ → List ℕ → Sched → Sched
counted c out s = record s { tick = update s.tick c (next_tick c s); serial = out }

abbrev with_resched : ℕ → Sched → Sched
with_resched c s = record s { need_resched = update s.need_resched c 1 }

print_tick_lem :
    (c t : ℕ) (s : Sched) → print_tick c t s ≡ record s { serial = (print_tick c t s).serial }
unfolding print_tick
print_tick_lem c t s = elim (Bool-cases (leb t 5 && c == 0)) [
  | inl shown ↦ rw shown
  | inr silent ↦ rw silent
]

timer_tick_shape :
    (cpu : ℕ) (s : Sched)
    → let c = cpu_ix cpu in
      (out : List ℕ) × (timer_tick cpu s ≡ (
        if next_tick c s % 5 == 0
        then defer_push_tick c (next_tick c s) (with_resched c (counted c out s))
        else counted c out s))
unfolding timer_tick
timer_tick_shape cpu s =
    let c = cpu_ix cpu in
    let printed =
      print_tick c (next_tick c s) (record s { tick = update s.tick c (next_tick c s) }) in
    (
      printed.serial,
      rw (print_tick_lem c (next_tick c s) (record s { tick = update s.tick c (next_tick c s) })),
    )

-- What one timer interrupt does on CPU index `c`.
pub record Ticked (c : ℕ) (s s' : Sched) : Type 0 where
  pub tick : s'.tick c ≡ next_tick c s
  pub resched : s'.need_resched c ≡ (if next_tick c s % 5 == 0 then 1 else s.need_resched c)
  pub quantum : unreported c s' ≡ unreported c s + (if next_tick c s % 5 == 0 then 1 else 0)
  pub valid : IsValid c s'

push_unreported :
    (c tick : ℕ) (s s' : Sched)
    → Pushed c tick s s'
    → s.defer_overflow c + 1 < 2 ^ 32
    → unreported c s' ≡ unreported c s + 1
push_unreported c tick s s' p small = elim (Bool-cases (length (pending c s) == 15)) [
  | inl full ↦ ground (arith, full, ap length p.queue, p.overflow)
  | inr room ↦ ground (
    arith,
    room,
    ap length p.queue,
    p.overflow,
    length-append (pending c s) ((tick % 2 ^ 32) ∷ []),
  )
]

push_keeps :
    (c tick : ℕ) (s : Sched)
    → ((defer_push_tick c tick s).tick ≡ s.tick)
      × ((defer_push_tick c tick s).need_resched ≡ s.need_resched)
unfolding defer_push_tick
push_keeps c tick s = ground arith

pub tick-timer_tick :
    (cpu : ℕ) (s : Sched) → (timer_tick cpu s).tick (cpu_ix cpu) ≡ u64 (s.tick (cpu_ix cpu) + 1)
tick-timer_tick cpu s =
    let c = cpu_ix cpu in
    let (out, shape) = timer_tick_shape cpu s in
    let keeps = push_keeps c (next_tick c s) (with_resched c (counted c out s)) in
    elim (Bool-cases (next_tick c s % 5 == 0)) [
      | inl quantum ↦ rw (shape, quantum) (ground (arith, ap (λ (f : Array ℕ). f c) keeps.0))
      | inr between ↦ rw (shape, between) (ground arith)
    ]

-- A timer interrupt counts the tick; each fifth one asks to reschedule and queues a quantum, or
-- counts it as dropped; the ring stays valid. The overflow counter must not wrap.
pub timer_tick-Ticked :
    (cpu : ℕ) (s : Sched)
    → IsValid (cpu_ix cpu) s
    → s.defer_overflow (cpu_ix cpu) + 1 < 2 ^ 32
    → Ticked (cpu_ix cpu) s (timer_tick cpu s)
timer_tick-Ticked cpu s v small =
    let c = cpu_ix cpu in
    let (out, shape) = timer_tick_shape cpu s in
    let before = with_resched c (counted c out s) in
    let t = next_tick c s in
    let valid : IsValid c before = record { w_in = v.w_in; r_in = v.r_in } in
    let p = defer_push_tick-Pushed c t before valid in
    let keeps = push_keeps c t before in
    elim (Bool-cases (next_tick c s % 5 == 0)) [
      | inl quantum ↦
          rw (shape, quantum)
            (record {
              tick = ground (arith, ap (λ (f : Array ℕ). f c) keeps.0);
              resched = ground (arith, quantum, ap (λ (f : Array ℕ). f c) keeps.1);
              quantum = rw quantum (push_unreported c t before _ p small);
              valid = p.valid;
            })
      | inr between ↦
          rw (shape, between)
            (record {
              tick = ground arith;
              resched = rw between;
              quantum = rw between (omega arith);
              valid = record { w_in = v.w_in; r_in = v.r_in };
            })
    ]

-- A drain leaves nothing unreported, and the tick as it was.
Processed-reported :
    {c : ℕ} {s : Sched} {r : Option (ℕ × Sched)}
    → IsValid c s
    → (p : Processed c s r)
    → IsValid c p.after × (unreported c p.after ≡ 0) × (p.after.tick c ≡ s.tick c)
Processed-reported {c} {s} v p =
    let w = ap (λ (t : Sched). t.defer_w c) p.same in
    let overflow : p.after.defer_overflow c ≡ 0 =
      ap (λ (t : Sched). t.defer_overflow c) p.same ∙ ground arith in
    let none_left : fill c p.after ≡ 0 = omega (arith, w, p.empty, v.w_in) in
    (
      record { w_in = omega (arith, w, v.w_in); r_in = omega (arith, p.empty, v.w_in) },
      omega (
        arith,
        overflow,
        none_left,
        length-window (p.after.defer_ring c) (p.after.defer_r c) (fill c p.after),
      ),
      ap (λ (t : Sched). t.tick c) p.same,
    )

-- A CPU takes timer interrupts, and drains its ring at checkpoints.
pub data Event : Type 0 where
  timer : Event
  checkpoint : Event

-- The sum adds what each drain takes from the ring and what it reports as dropped.
drained : ℕ → Sched × ℕ → Option (ℕ × Sched) → Option (Sched × ℕ)
drained c (s, sum) none = none
drained c (s, sum) (some (n, s')) = some (s', sum + n + s.defer_overflow c)

unfoldable pub run : ℕ → Sched × ℕ → List Event → Option (Sched × ℕ)
unfolding drained
run cpu (s, sum) [] = some (s, sum)
run cpu (s, sum) (timer ∷ es) = run cpu (timer_tick cpu s, sum) es
run cpu (s, sum) (checkpoint ∷ es) = elim (drained (cpu_ix cpu) (s, sum) (process_deferred cpu s)) [
  | none ↦ none
  | some r ↦ run cpu r es
]

-- The quanta that `n` ticks after tick `t` complete.
abbrev pub quanta : ℕ → ℕ → ℕ
quanta t n = (t + n) / 5 - t / 5

abbrev pub ticks : List Event → ℕ
ticks [] = 0
ticks (timer ∷ es) = suc (ticks es)
ticks (checkpoint ∷ es) = ticks es

run-checkpoint :
    (cpu : ℕ) (s : Sched) (sum : ℕ) (es : List Event) {n : ℕ} {s' : Sched}
    → process_deferred cpu s ≡ some (n, s')
    → run cpu (s, sum) (checkpoint ∷ es) ≡ run cpu (s', sum + n + s.defer_overflow (cpu_ix cpu)) es
unfolding run
run-checkpoint cpu s sum es e = rw (e, run)

quanta-suc :
    (t n : ℕ)
    → t + 1 < 2 ^ 64
    → (if u64 (t + 1) % 5 == 0 then 1 else 0) + quanta (t + 1) n ≡ quanta t (suc n)
quanta-suc t n small = ground arith

-- Every history returns, and each quantum that ended in it was reported or is still unreported.
pub run-quanta :
    (cpu : ℕ) (s : Sched) (sum : ℕ) (es : List Event)
    → IsValid (cpu_ix cpu) s
    → s.tick (cpu_ix cpu) + ticks es < 2 ^ 64
    → unreported (cpu_ix cpu) s + ticks es < 2 ^ 32
    → (s' : Sched) × (sum' : ℕ) × (run cpu (s, sum) es ≡ some (s', sum'))
      × (sum' + unreported (cpu_ix cpu) s'
          ≡ sum + unreported (cpu_ix cpu) s + quanta (s.tick (cpu_ix cpu)) (ticks es))
unfolding run
run-quanta cpu s sum [] v small fits = (s, sum, refl, omega arith)
run-quanta cpu s sum (timer ∷ es) v small fits =
    let k = timer_tick-Ticked cpu s v (omega arith) in
    let after : (timer_tick cpu s).tick (cpu_ix cpu) ≡ s.tick (cpu_ix cpu) + 1 =
      omega (arith, k.tick) in
    let step : (if next_tick (cpu_ix cpu) s % 5 == 0 then 1 else 0)
          + quanta ((timer_tick cpu s).tick (cpu_ix cpu)) (ticks es)
        ≡ quanta (s.tick (cpu_ix cpu)) (suc (ticks es)) =
      rw after (quanta-suc (s.tick (cpu_ix cpu)) (ticks es) (omega arith)) in
    let (s', sum', returns, total) =
      run-quanta cpu (timer_tick cpu s) sum es k.valid (omega (arith, k.tick))
        (ground (arith, k.quantum)) in
    (s', sum', returns, omega (arith, total, k.quantum, step))
run-quanta cpu s sum (checkpoint ∷ es) v small fits =
    let p = process_deferred-Processed cpu s v in
    let q = Processed-reported v p in
    let (s', sum', returns, total) =
      run-quanta cpu p.after (sum + length (pending (cpu_ix cpu) s) + s.defer_overflow (cpu_ix cpu))
        es q.0 (omega (arith, q.2)) (omega (arith, q.1)) in
    (s', sum', run-checkpoint cpu s sum es p.returns ∙ returns, omega (arith, total, q.1, q.2))
