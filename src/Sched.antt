-- ===== src/Sched.antt =====
-- kernel/sched.c: ticks, the wish to reschedule and the deferred ring of each CPU.
-- The static arrays, with an element for each CPU, are functions of its index. `cpu` is what
-- `smp_cpu_index` returns. Interrupts are off inside `sched_process_deferred`, so a step of this
-- model is a whole call. The nesting depth starts at 0 and is not taken below, so it is a number.
pub mod Ring
pub mod Loop
pub mod Deferred
pub mod History
pub mod Start
mod Tests
use verve_os.Base.{
  ℕ, zero, suc, ◌+◌, ◌-◌, ◌%◌, Bool, true, false, not, ◌&&◌, Option, none, some, List, ltb, leb,
  ◌==◌, if◌then◌else◌, u32, u64, bit_and,
}
use verve_os.Base.Array.{Array, update, codes}
use verve_os.Serial.{puts, put_u64_hex}

pub record Sched : Type 0 where
  pub tick : Array ℕ
  pub need_resched : Array ℕ
  pub defer_ring : Array (Array ℕ)
  pub defer_w : Array ℕ
  pub defer_r : Array ℕ
  pub defer_overflow : Array ℕ
  pub preempt_disable_depth : ℕ
  pub serial : List ℕ

abbrev pub preempt_interval_ticks : ℕ
preempt_interval_ticks = 5

abbrev pub sched_defer_cap : ℕ
sched_defer_cap = 16

abbrev pub sched_max_cpu : ℕ
sched_max_cpu = 32

unfoldable pub cpu_ix : ℕ → ℕ
cpu_ix cpu = if leb sched_max_cpu cpu then 0 else cpu

unfoldable pub defer_push_tick : ℕ → ℕ → Sched → Sched
defer_push_tick cpu tick s =
    let w = s.defer_w cpu in
    let r = s.defer_r cpu in
    let next = u32 (w + 1) % sched_defer_cap in
    if next == r
    then record s { defer_overflow = update s.defer_overflow cpu (u32 (s.defer_overflow cpu + 1)) }
    else record s {
      defer_ring = update s.defer_ring cpu (update (s.defer_ring cpu) w (bit_and tick 0xffff_ffff));
      defer_w = update s.defer_w cpu next;
    }

-- The loop of `sched_init`, from CPU `i` on.
clear_from : ℕ → ℕ → Sched → Sched
clear_from zero i s = s
clear_from (suc left) i s = clear_from left (i + 1) (record s {
  tick = update s.tick i 0;
  need_resched = update s.need_resched i 0;
  defer_w = update s.defer_w i 0;
  defer_r = update s.defer_r i 0;
  defer_overflow = update s.defer_overflow i 0;
})

unfoldable pub sched_init : Sched → Sched
unfolding clear_from
sched_init s = record (clear_from sched_max_cpu 0 s) { preempt_disable_depth = 0 }

print_tick : ℕ → ℕ → Sched → Sched
print_tick cpu t s =
    if leb t 5 && cpu == 0
    then record s {
      serial =
          puts (codes "\r\n")
            (put_u64_hex t (puts (codes "[VerveOS] sched: timer tick ") s.serial));
    }
    else s

unfoldable pub timer_tick : ℕ → Sched → Sched
unfolding print_tick
timer_tick cpu s =
    let c = cpu_ix cpu in
    let t = u64 (s.tick c + 1) in
    let counted = print_tick c t (record s { tick = update s.tick c t }) in
    if t % preempt_interval_ticks == 0
    then defer_push_tick c t (record counted { need_resched = update counted.need_resched c 1 })
    else counted

-- The loop of `sched_process_deferred`: the ring's state, the count and the last tick. `none`
-- means that the fuel ran out.
pub record Drain : Type 0 where
  pub state : Sched
  pub drained : ℕ
  pub last_tick : ℕ

unfoldable pub drain : ℕ → ℕ → Drain → Option Drain
drain zero c d = none
drain (suc fuel) c d =
    let s = d.state in
    let r = s.defer_r c in
    let rest = drain fuel c (record {
      state = record s { defer_r = update s.defer_r c (u32 (r + 1) % sched_defer_cap) };
      drained = u32 (d.drained + 1);
      last_tick = s.defer_ring c r;
    }) in
    if r == s.defer_w c then some d else rest

-- What `sched_process_deferred` prints.
unfoldable pub report : ℕ → Drain → List ℕ → List ℕ
report ovf d out =
    let out₁ = put_u64_hex d.drained (puts (codes "[VerveOS] sched: deferred ring drained=") out) in
    let out₂ =
      if not (d.drained == 0)
      then put_u64_hex d.last_tick (puts (codes " last_tick=") out₁)
      else out₁ in
    let out₃ = if not (ovf == 0) then put_u64_hex ovf (puts (codes " dropped=") out₂) else out₂ in
    puts (codes " (cpu_switch stays out of IRQ)\r\n") out₃

finish_drain : ℕ → Drain → ℕ × Sched
finish_drain c d =
    let s = d.state in
    let ovf = s.defer_overflow c in
    let s' = record s { defer_overflow = update s.defer_overflow c 0 } in
    if d.drained == 0 && ovf == 0
    then (0, s')
    else (d.drained, record s' { serial = report ovf d s.serial })

-- Each round takes one entry of the ring, which holds less than `sched_defer_cap`.
unfoldable pub process_deferred : ℕ → Sched → Option (ℕ × Sched)
unfolding finish_drain
process_deferred cpu s =
    let c = cpu_ix cpu in
    elim (drain sched_defer_cap c (record { state = s; drained = 0; last_tick = 0 })) [
      | none ↦ none
      | some d ↦ some (finish_drain c d)
    ]

unfoldable pub tick_count : ℕ → Sched → ℕ
tick_count cpu s = s.tick (cpu_ix cpu)

unfoldable pub need_resched : ℕ → Sched → ℕ
need_resched cpu s = s.need_resched (cpu_ix cpu)

unfoldable pub clear_resched : ℕ → Sched → Sched
clear_resched cpu s = record s { need_resched = update s.need_resched (cpu_ix cpu) 0 }

-- An `int` in the source, where the addition is undefined from 2^31 - 1 on; the model has no bound.
unfoldable pub preempt_disable : Sched → Sched
preempt_disable s = record s { preempt_disable_depth = s.preempt_disable_depth + 1 }

unfoldable pub preempt_enable : Sched → Sched
preempt_enable s =
    if ltb 0 s.preempt_disable_depth
    then record s { preempt_disable_depth = s.preempt_disable_depth - 1 }
    else s

unfoldable pub preempt_disabled : Sched → Bool
preempt_disabled s = not (s.preempt_disable_depth == 0)
