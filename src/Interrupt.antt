-- ===== src/Interrupt.antt =====
-- kernel/interrupt.c: what the stubs of the vectors call.
-- `cpu` is what `smp_cpu_index` answers in the tick; its read of the identifier is not in the log.
pub mod Serve
pub mod History
mod Tests
use verve_os.Base.{ℕ, ◌+◌, ◌-◌, Bool, true, false, List, leb, ltb, ◌==◌, ◌&&◌, if◌then◌else◌, u8}
use verve_os.Base.Array.{codes}
use verve_os.Devices.{Log}
use verve_os.Devices.Lapic.{lapic_eoi}
use verve_os.Devices.Pic.{pic_send_eoi}
use verve_os.Sched.{Sched, timer_tick}
use verve_os.Serial.{puts, put_u64_hex}
use verve_os.Syscall.{Frame, Kernel, Outcome, with_serial, syscall_invoke}

-- `verve_exc_frame`
pub record ExcFrame : Type 0 where
  pub regs : Frame
  pub vec : ℕ
  pub err : ℕ
  pub eip : ℕ
  pub cs : ℕ

-- The kernel, the ticks, `g_timer_lapic_eoi` and the accesses to devices. The output is that of the
-- kernel; the one of `sched` is set to it before a tick, and copied back.
pub record Irq : Type 0 where
  pub kernel : Kernel
  pub sched : Sched
  pub timer_lapic_eoi : ℕ
  pub log : Log

-- The handler returns; or the CPU stops for good; or a system call does not end.
pub data Handled : Type 0 where
  returns : ExcFrame → Irq → Handled
  stops : Irq → Handled
  loops : Handled

abbrev pub serial_of : Irq → List ℕ
serial_of s = s.kernel.proc.machine.serial

abbrev with_output : List ℕ → Irq → Irq
with_output out s = record s { kernel = with_serial s.kernel out }

unfoldable pub irq_timer_set_lapic_eoi : ℕ → Irq → Irq
irq_timer_set_lapic_eoi on s = record s { timer_lapic_eoi = on }

-- The call of `sched_timer_tick`.
unfoldable pub tick : ℕ → Irq → Irq
tick cpu s =
    let ticked = timer_tick cpu (record s.sched { serial = serial_of s }) in
    record s { sched = ticked; kernel = with_serial s.kernel ticked.serial }

abbrev after_call : ExcFrame → Irq → Outcome → Handled
after_call f s (Outcome.returned regs k) =
    returns (record f { regs = regs }) (record s { kernel = k })
after_call f s (Outcome.halted k) = stops (record s { kernel = k })
after_call f s Outcome.hangs = loops

-- The sixteen lines.
unfoldable pub line_interrupt : ℕ → ℕ → Irq → Irq
line_interrupt cpu irq s =
    let s' = if irq == 0 then tick cpu s else s in
    record s' {
      log = if s'.timer_lapic_eoi == 0 then pic_send_eoi irq s'.log else lapic_eoi s'.log;
    }

unfoldable pub irq_dispatch : ℕ → ExcFrame → Irq → Handled
irq_dispatch cpu f s =
    let v = f.vec in
    let ticked = tick cpu s in
    if v == 128
    then after_call f s (syscall_invoke f.regs s.kernel)
    else if v == 64
    then returns f (record ticked { log = lapic_eoi ticked.log })
    else if leb 32 v && ltb v 48
    then returns f (line_interrupt cpu (u8 (v - 32)) s)
    else stops (with_output (puts (codes "[VerveOS] irq: unexpected vector\r\n") (serial_of s)) s)

-- `cr2` is the address of the last page fault. The CPU stops after the messages.
unfoldable pub exc_dispatch : ℕ → ExcFrame → Irq → Handled
exc_dispatch cr2 f s =
    let out = put_u64_hex f.vec (puts (codes "\r\n[VerveOS] CPU exception vec=0x") (serial_of s)) in
    let out = puts (codes "\r\n") (put_u64_hex f.err (puts (codes " err=0x") out)) in
    let out = put_u64_hex f.eip (puts (codes "[VerveOS] faulting EIP=0x") out) in
    let out = puts (codes "\r\n") (put_u64_hex f.cs (puts (codes " CS=0x") out)) in
    let fault = puts (codes "\r\n") (put_u64_hex cr2 (puts (codes "[VerveOS] #PF CR2=0x") out)) in
    let out = if f.vec == 14 then fault else out in
    stops (with_output (puts (codes "[VerveOS] halted after exception\r\n") out) s)
