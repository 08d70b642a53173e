-- ===== src/Interrupt/Serve.antt =====
-- One hardware interrupt: it is acknowledged once, and the timers tick.
use verve_os.Base.{
  true, false, not, ℕ, ◌+◌, ◌-◌, ◌≤◌, ◌<◌, ◌≡◌, ◌≢◌, refl, arith, Bool, Bool-cases, inl, inr, ◌||◌,
  leb, ltb, ◌==◌, if◌then◌else◌, List, [], ◌∷◌, ◌++◌, u8,
}
use verve_os.Base.Array.{Array}
use verve_os.Devices.{Log, Access, out_byte, write_word}
use verve_os.Devices.Idt.{Gate, idt_init}
use verve_os.Devices.Idt.Gates.{decode, present-has_handler}
use verve_os.Devices.Lapic.{lapic_eoi}
use verve_os.Devices.Pic.{pic_send_eoi}
use verve_os.Sched.{timer_tick}
use verve_os.Syscall.{with_serial}
use verve_os.Interrupt.{
  ExcFrame, Irq, Handled, returns, serial_of, tick, line_interrupt, irq_dispatch,
}

-- The vectors of timers: that of the CPU and line 0.
abbrev pub is_timer : ℕ → Bool
is_timer v = v == 64 || v == 32

-- The end of interrupt for a vector: to the CPU's controller, or to the chips of the line.
abbrev pub ends : ℕ → ℕ → List Access
ends lapic v =
    if v == 64
    then write_word 0xfee0_00b0 0 ∷ []
    else if not (lapic == 0)
    then write_word 0xfee0_00b0 0 ∷ []
    else if leb 40 v
    then out_byte 0x20 0x20 ∷ out_byte 0xa0 0x20 ∷ []
    else out_byte 0x20 0x20 ∷ []

-- The interrupted code goes on with its registers; a timer counts a tick on this CPU, and nothing but
-- the output, the ticks and the log has changed.
pub record Serves (cpu v : ℕ) (f : ExcFrame) (s : Irq) (r : Handled) : Type 0 where
  pub after : Irq
  pub goes_on : r ≡ returns f after
  pub log : after.log ≡ ends s.timer_lapic_eoi v ++ s.log
  pub sched :
      after.sched
      ≡ (if is_timer v then timer_tick cpu (record s.sched { serial = serial_of s }) else s.sched)
  pub kernel : after.kernel ≡ with_serial s.kernel (serial_of after)
  pub mode : after.timer_lapic_eoi ≡ s.timer_lapic_eoi

ends-line :
    (irq mode : ℕ) (log : Log)
    → irq < 16
    → (if mode == 0 then pic_send_eoi irq log else lapic_eoi log) ≡ ends mode (irq + 32) ++ log
unfolding pic_send_eoi lapic_eoi
ends-line irq mode log h =
    let own : (irq + 32 == 64) ≡ false = ground arith in
    let second : leb 8 irq ≡ leb 40 (irq + 32) = ground arith in
    elim (Bool-cases (mode == 0)) [
      | inl pic ↦ elim (Bool-cases (leb 40 (irq + 32))) [
        | inl high ↦ rw (pic, own, second, high) refl
        | inr low ↦ rw (pic, own, second, low) refl
      ]
      | inr lapic ↦ rw (lapic, own) refl
    ]

line-Serves :
    (cpu irq : ℕ) (f : ExcFrame) (s : Irq)
    → irq < 16
    → Serves cpu (irq + 32) f s (returns f (line_interrupt cpu irq s))
unfolding line_interrupt tick
line-Serves cpu irq f s h = elim (Bool-cases (irq == 0)) [
  | inl timer ↦
      let ticks : is_timer (irq + 32) ≡ true = ground (arith, timer) in
      rw (line_interrupt, timer)
        (record {
          after = _;
          goes_on = refl;
          log = ends-line irq s.timer_lapic_eoi s.log h;
          sched = rw ticks refl;
          kernel = refl;
          mode = refl;
        })
  | inr device ↦
      let quiet : is_timer (irq + 32) ≡ false = ground (arith, device) in
      rw (line_interrupt, device)
        (record {
          after = _;
          goes_on = refl;
          log = ends-line irq s.timer_lapic_eoi s.log h;
          sched = rw quiet refl;
          kernel = refl;
          mode = refl;
        })
]

-- On every vector from 32 on that `idt_init` makes present, but the one of system calls,
-- `verve_irq_dispatch` returns with the registers as they were, and sends one end of interrupt where the
-- mode and the line want it; vectors 32 and 64 count one tick.
pub irq_dispatch-Serves :
    (stub : ℕ → ℕ) (idt : Array Gate) (cpu : ℕ) (f : ExcFrame) (s : Irq)
    → 32 ≤ f.vec
    → f.vec < 256
    → f.vec ≢ 128
    → (decode ((idt_init stub idt).0 f.vec)).present ≡ 1
    → Serves cpu f.vec f s (irq_dispatch cpu f s)
unfolding irq_dispatch tick lapic_eoi
irq_dispatch-Serves stub idt cpu f s low high user present =
    let no_call : (f.vec == 128) ≡ false = ground arith in
    let handled = present-has_handler stub idt f.vec high present in
    elim (Bool-cases (f.vec == 64)) [
      | inl local ↦
          rw (no_call, local)
            (record {
              after = _;
              goes_on = refl;
              log = rw local refl;
              sched = rw local refl;
              kernel = refl;
              mode = refl;
            })
      | inr other ↦
          let line : ltb f.vec 48 ≡ true = ground (arith, handled, other) in
          let from : leb 32 f.vec ≡ true = ground arith in
          let irq : u8 (f.vec - 32) ≡ f.vec - 32 = omega arith in
          let back : f.vec - 32 + 32 ≡ f.vec = omega arith in
          rw (no_call, other, from, line, irq)
            (rw back at (line-Serves cpu (f.vec - 32) f s (ground arith)))
    ]
