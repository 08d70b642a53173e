-- ===== src/Interrupt/Tests.antt =====
-- A CPU takes the timer of line 0, the keyboard and its own timer.
use verve_os.Base.{true, ℕ, ◌+◌, ◌<◌, ◌≡◌, refl, arith, [], ◌∷◌}
use verve_os.Devices.Idt.{no_gate, idt_init}
use verve_os.Devices.Idt.Gates.{decode, has_handler, has_handler-present}
use verve_os.Paging.Sample.{small_machine}
use verve_os.Sched.{Sched}
use verve_os.Interrupt.{ExcFrame, Irq, irq_dispatch}
use verve_os.Interrupt.Serve.{Serves, irq_dispatch-Serves}
use verve_os.Interrupt.History.{IsServed, dispatch_all, dispatch_all-IsServed}

abbrev stub : ℕ → ℕ
stub v = 0x10_0000 + v

abbrev interrupt : ℕ → ExcFrame
interrupt v = record {
  regs = record { eax = 1; ebx = 2; ecx = 3; edx = 4 };
  vec = v;
  err = 0;
  eip = 0x10_1000;
  cs = 8;
}

abbrev idle : Sched
idle = record {
  tick = λ c. 4;
  need_resched = λ c. 0;
  defer_ring = λ c i. 0;
  defer_w = λ c. 0;
  defer_r = λ c. 0;
  defer_overflow = λ c. 0;
  preempt_disable_depth = 0;
  serial = [];
}

abbrev before : Irq
before = record {
  kernel = record {
    proc = record { machine = small_machine; pid = 1; pd_phys = 0x2000; brk = 0x8000_2000 };
    vfs = record { ufd = λ i. record { used = 0; vfidx = 0; pos = 0 }; mem = λ a. 0 };
  };
  sched = idle;
  timer_lapic_eoi = 0;
  log = [];
}

there :
    (v : ℕ)
    → v < 256
    → has_handler v ≡ true
    → (decode ((idt_init stub (λ i. no_gate)).0 v)).present ≡ 1
there v small handled = has_handler-present stub (λ i. no_gate) v small handled

irq_dispatch-Serves_example :
    Serves 0 40 (interrupt 40) before (irq_dispatch 0 (interrupt 40) before)
irq_dispatch-Serves_example =
    irq_dispatch-Serves stub (λ v. no_gate) 0 (interrupt 40) before (omega arith) (omega arith)
      (λ e. absurd (omega (arith, e))) (there 40 (omega arith) refl)

dispatch_all-IsServed_example :
    IsServed 0
      (interrupt 32 ∷ interrupt 33 ∷ interrupt 64 ∷ [])
      before
      (dispatch_all 0 (interrupt 32 ∷ interrupt 33 ∷ interrupt 64 ∷ []) before)
dispatch_all-IsServed_example =
    dispatch_all-IsServed stub (λ v. no_gate) 0 (interrupt 32 ∷ interrupt 33 ∷ interrupt 64 ∷ [])
      before (omega arith)
      (
        omega arith,
        omega arith,
        (λ e. absurd (omega (arith, e))),
        there 32 (omega arith) refl,
        (
          omega arith,
          omega arith,
          (λ e. absurd (omega (arith, e))),
          there 33 (omega arith) refl,
          (
            omega arith,
            omega arith,
            (λ e. absurd (omega (arith, e))),
            there 64 (omega arith) refl,
            record {},
          ),
        ),
      )
