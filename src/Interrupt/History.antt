-- ===== src/Interrupt/History.antt =====
-- A sequence of hardware interrupts on one CPU.
use verve_os.Base.{
  true, not, ℕ, ◌+◌, ◌^◌, ◌≤◌, ◌<◌, ◌≡◌, ◌≢◌, refl, ◌∙◌, ap, arith, Bool-cases, inl, inr, ◌&&◌, leb,
  ◌==◌, if◌then◌else◌, Option, none, some, List, [], ◌∷◌, ◌++◌, u64, length,
}
use verve_os.Base.Array.{Array}
use verve_os.Devices.{Log, Access, out_byte, in_byte, write_word, read_word, write_msr, read_msr}
use verve_os.Devices.Idt.{Gate, idt_init}
use verve_os.Devices.Idt.Gates.{decode}
use verve_os.Sched.{Sched, cpu_ix}
use verve_os.Sched.History.{tick-timer_tick}
use verve_os.Interrupt.{ExcFrame, Irq, returns, stops, loops, serial_of, irq_dispatch}
use verve_os.Interrupt.Serve.{is_timer, ends, irq_dispatch-Serves}

-- The handlers run one after the other; `none` as one does not return.
unfoldable pub dispatch_all : ℕ → List ExcFrame → Irq → Option Irq
dispatch_all cpu [] s = some s
dispatch_all cpu (f ∷ fs) s = elim (irq_dispatch cpu f s) [
  | returns f' s' ↦ dispatch_all cpu fs s'
  | stops s' ↦ none
  | loops ↦ none
]

abbrev ends_one : Access → ℕ
ends_one (out_byte port v) = if (port == 0x20) && (v == 0x20) then 1 else 0
ends_one (write_word a v) = if (a == 0xfee0_00b0) && (v == 0) then 1 else 0
ends_one (in_byte port) = 0
ends_one (read_word a) = 0
ends_one (write_msr r lo hi) = 0
ends_one (read_msr r) = 0

-- The ends of interrupt that the controller of the CPU or the first chip got.
abbrev pub acknowledged : Log → ℕ
acknowledged [] = 0
acknowledged (a ∷ log) = ends_one a + acknowledged log

abbrev ends_chip : ℕ → Access → ℕ
ends_chip port (out_byte p v) = if (p == port) && (v == 0x20) then 1 else 0
ends_chip port (write_word a v) = 0
ends_chip port (in_byte p) = 0
ends_chip port (read_word a) = 0
ends_chip port (write_msr r lo hi) = 0
ends_chip port (read_msr r) = 0

-- The ends of interrupt that the chip with this command port got.
abbrev pub chip_ends : ℕ → Log → ℕ
chip_ends port [] = 0
chip_ends port (a ∷ log) = ends_chip port a + chip_ends port log

-- The interrupts of lines from vector `low` on, where the chips serve the lines.
abbrev pub lines_from : ℕ → ℕ → List ExcFrame → ℕ
lines_from lapic low [] = 0
lines_from lapic low (f ∷ fs) =
    (if (lapic == 0) && (leb low f.vec) && not (f.vec == 64) then 1 else 0)
    + lines_from lapic low fs

abbrev pub timers : List ExcFrame → ℕ
timers [] = 0
timers (f ∷ fs) = (if is_timer f.vec then 1 else 0) + timers fs

-- Vectors that the table makes present, and none of them that of system calls.
abbrev pub AreHardware : (ℕ → ℕ) → Array Gate → List ExcFrame → Type 0
AreHardware stub idt [] = Unit {0}
AreHardware stub idt (f ∷ fs) =
    (32 ≤ f.vec)
    × (f.vec < 256)
    × (f.vec ≢ 128)
    × ((decode ((idt_init stub idt).0 f.vec)).present ≡ 1)
    × AreHardware stub idt fs

pub record IsServed (cpu : ℕ) (fs : List ExcFrame) (s : Irq) (r : Option Irq) : Type 0 where
  pub after : Irq
  pub all_return : r ≡ some after
  pub one_each : acknowledged after.log ≡ length fs + acknowledged s.log
  pub first_chip :
      chip_ends 0x20 after.log ≡ lines_from s.timer_lapic_eoi 32 fs + chip_ends 0x20 s.log
  pub second_chip :
      chip_ends 0xa0 after.log ≡ lines_from s.timer_lapic_eoi 40 fs + chip_ends 0xa0 s.log
  pub ticks : after.sched.tick (cpu_ix cpu) ≡ u64 (s.sched.tick (cpu_ix cpu) + timers fs)

acknowledged-ends :
    (lapic v : ℕ) (log : Log) → acknowledged (ends lapic v ++ log) ≡ 1 + acknowledged log
acknowledged-ends lapic v log = elim (Bool-cases (v == 64)) [
  | inl own ↦ rw own refl
  | inr line ↦ elim (Bool-cases (lapic == 0)) [
    | inl pic ↦ elim (Bool-cases (leb 40 v)) [
      | inl high ↦ rw (line, pic, high) (omega arith)
      | inr low ↦ rw (line, pic, low) refl
    ]
    | inr on ↦ rw (line, on) refl
  ]
]

chip_ends-first :
    (lapic v : ℕ) (log : Log)
    → 32 ≤ v
    → chip_ends 0x20 (ends lapic v ++ log)
      ≡ (if (lapic == 0) && (leb 32 v) && not (v == 64) then 1 else 0) + chip_ends 0x20 log
chip_ends-first lapic v log h =
    let all : leb 32 v ≡ true = ground (arith, h) in
    elim (Bool-cases (v == 64)) [
      | inl own ↦ elim (Bool-cases (lapic == 0)) [
        | inl pic ↦ rw (own, pic, all) (omega arith)
        | inr on ↦ rw (own, on) (omega arith)
      ]
      | inr line ↦ elim (Bool-cases (lapic == 0)) [
        | inl pic ↦ elim (Bool-cases (leb 40 v)) [
          | inl high ↦ rw (line, pic, high, all) (omega arith)
          | inr low ↦ rw (line, pic, low, all) (omega arith)
        ]
        | inr on ↦ rw (line, on) (omega arith)
      ]
    ]

chip_ends-second :
    (lapic v : ℕ) (log : Log)
    → chip_ends 0xa0 (ends lapic v ++ log)
      ≡ (if (lapic == 0) && (leb 40 v) && not (v == 64) then 1 else 0) + chip_ends 0xa0 log
chip_ends-second lapic v log = elim (Bool-cases (v == 64)) [
  | inl own ↦ elim (Bool-cases (lapic == 0)) [
    | inl pic ↦ elim (Bool-cases (leb 40 v)) [
      | inl high ↦ rw (own, pic, high) (omega arith)
      | inr low ↦ rw (own, pic, low) (omega arith)
    ]
    | inr on ↦ rw (own, on) (omega arith)
  ]
  | inr line ↦ elim (Bool-cases (lapic == 0)) [
    | inl pic ↦ elim (Bool-cases (leb 40 v)) [
      | inl high ↦ rw (line, pic, high) (omega arith)
      | inr low ↦ rw (line, pic, low) (omega arith)
    ]
    | inr on ↦ rw (line, on) (omega arith)
  ]
]

-- Whatever hardware interrupts a CPU takes one after the other, on vectors that `idt_init` makes present
-- and with a tick count below 2^64, every handler returns, and each interrupt is acknowledged once by the
-- controller of the CPU or the first chip: by the first chip exactly the lines, where it serves them. The
-- second chip gets one end of interrupt for each of its own lines, from vector 40 on, and no other. The
-- ticks of the CPU grow by the number of timer interrupts, modulo 2^64.
pub dispatch_all-IsServed :
    (stub : ℕ → ℕ) (idt : Array Gate) (cpu : ℕ) (fs : List ExcFrame) (s : Irq)
    → s.sched.tick (cpu_ix cpu) < 2 ^ 64
    → AreHardware stub idt fs
    → IsServed cpu fs s (dispatch_all cpu fs s)
unfolding dispatch_all
dispatch_all-IsServed stub idt cpu [] s h hardware = record {
  after = s;
  all_return = refl;
  one_each = omega arith;
  first_chip = omega arith;
  second_chip = omega arith;
  ticks = omega (arith, h);
}
dispatch_all-IsServed stub idt cpu (f ∷ fs) s h (low, high, user, present, more) =
    let one = irq_dispatch-Serves stub idt cpu f s low high user present in
    let counted : one.after.sched.tick (cpu_ix cpu) ≡ (
        if is_timer f.vec then u64 (s.sched.tick (cpu_ix cpu) + 1) else s.sched.tick (cpu_ix cpu)) =
      elim (Bool-cases (is_timer f.vec)) [
        | inl timer ↦
            ap (λ (q : Sched). q.tick (cpu_ix cpu)) one.sched
            ∙ rw timer (tick-timer_tick cpu (record s.sched { serial = serial_of s }))
        | inr device ↦ ap (λ (q : Sched). q.tick (cpu_ix cpu)) one.sched ∙ rw device refl
      ] in
    let rest = dispatch_all-IsServed stub idt cpu fs one.after (ground (arith, counted)) more in
    rw (dispatch_all, one.goes_on)
      (record {
        after = rest.after;
        all_return = rest.all_return;
        one_each = omega (
          arith,
          rest.one_each,
          ap acknowledged one.log,
          acknowledged-ends s.timer_lapic_eoi f.vec s.log,
        );
        first_chip = omega (
          arith,
          rw one.mode at rest.first_chip,
          ap (chip_ends 0x20) one.log,
          chip_ends-first s.timer_lapic_eoi f.vec s.log low,
        );
        second_chip = omega (
          arith,
          rw one.mode at rest.second_chip,
          ap (chip_ends 0xa0) one.log,
          chip_ends-second s.timer_lapic_eoi f.vec s.log,
        );
        ticks = ground (arith, rest.ticks, counted);
      })
