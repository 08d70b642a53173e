-- ===== src/Syscall.antt =====
-- kernel/syscall.c: the calls of user programs, over the process, the files and the output.
-- User memory is the memory of the files' reads, `vfs.mem`, by user addresses: the frames behind
-- it, which `brk` changes, are in `proc.machine`.
pub mod Write
pub mod Invariant
pub mod Run
mod Tests
use verve_os.Base.{
  ℕ, zero, suc, ◌+◌, ◌-◌, ◌^◌, Bool, true, false, not, Option, none, some, List, ltb, leb, ◌==◌,
  if◌then◌else◌, u32,
}
use verve_os.Base.Array.{codes}
use verve_os.Base.Int32.{minus}
use verve_os.Base.Memory.{Mem, load8}
use verve_os.Serial.{putc, puts, put_u64_hex}
use verve_os.Vfs.{Vfs, open_u, read_u, close_u}
use verve_os.Paging.{Machine, user_range_ok}
use verve_os.Proc.{Proc, current_pid, sys_brk}

-- The registers of `verve_exc_frame` that a call reads and writes.
pub record Frame : Type 0 where
  pub eax : ℕ
  pub ebx : ℕ
  pub ecx : ℕ
  pub edx : ℕ

pub record Kernel : Type 0 where
  pub proc : Proc
  pub vfs : Vfs

-- `sys_exit` stops the machine; `hangs` is a loop that does not end.
pub data Outcome : Type 0 where
  returned : Frame → Kernel → Outcome
  halted : Kernel → Outcome
  hangs : Outcome

abbrev pub sys_write_max : ℕ
sys_write_max = 512

abbrev pub sys_enosys : ℕ
sys_enosys = 38

abbrev pub with_serial : Kernel → List ℕ → Kernel
with_serial k out = record k {
  proc = record k.proc { machine = record k.proc.machine { serial = out } };
}

-- `paging_user_range_ok` as the files use it: `none` where it does not come back.
abbrev pub range_ok : Machine → ℕ → ℕ → Bool → Option Bool
range_ok s va len for_write = user_range_ok va len for_write s

-- The loop of `sys_write`.
unfoldable pub write_loop : ℕ → ℕ → Mem → List ℕ → List ℕ
write_loop zero va m out = out
write_loop (suc left) va m out = write_loop left (u32 (va + 1)) m (putc (load8 m va) out)

unfoldable pub sys_write : ℕ → ℕ → ℕ → Kernel → Option (ℕ × Kernel)
sys_write fd buf_va len k =
    if not (fd == 1)
    then some (minus 5, k)
    else if ltb sys_write_max len
    then some (minus 22, k)
    else elim (range_ok k.proc.machine buf_va len false) [
      | none ↦ none
      | some ok ↦ some (
          if not ok
          then (minus 14, k)
          else (len, with_serial k (write_loop len buf_va k.vfs.mem k.proc.machine.serial)))
    ]

-- What `sys_exit` prints before it stops.
sys_exit : ℕ → Kernel → Kernel
sys_exit code k = with_serial k (
    puts (codes "\r\n")
      (put_u64_hex code (puts (codes "[VerveOS] SYS_EXIT code=") k.proc.machine.serial)))

-- The result goes to `eax`.
abbrev answer : Frame → ℕ × Kernel → Outcome
answer f r = returned (record f { eax = r.0 }) r.1

abbrev answer_write : Frame → Option (ℕ × Kernel) → Outcome
answer_write f none = hangs
answer_write f (some r) = answer f r

abbrev answer_vfs : Frame → Kernel → Option (ℕ × Vfs) → Outcome
answer_vfs f k none = hangs
answer_vfs f k (some r) = answer f (r.0, record k { vfs = r.1 })

abbrev answer_brk : Frame → Kernel → Option (ℕ × Proc) → Outcome
answer_brk f k none = hangs
answer_brk f k (some (out, p)) = answer f (out, record k { proc = p })

unfoldable pub syscall_invoke : Frame → Kernel → Outcome
unfolding sys_exit
syscall_invoke f k =
    let n = f.eax in
    let ok = range_ok k.proc.machine in
    if n == 2
    then answer f (current_pid k.proc, k)
    else if n == 1
    then answer_write f (sys_write f.ebx f.ecx f.edx k)
    else if n == 3
    then halted (sys_exit f.ebx k)
    else if n == 5
    then answer_vfs f k (open_u ok f.ebx k.vfs)
    else if n == 6
    then answer_vfs f k (read_u ok f.ebx f.ecx f.edx k.vfs)
    else if n == 7
    then answer_vfs f k (some (0, close_u f.ebx k.vfs))
    else if n == 45
    then answer_brk f k (sys_brk f.ebx k.proc)
    else answer f (minus sys_enosys, k)
