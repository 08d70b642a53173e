-- ===== src/Syscall/Tests.antt =====
-- A program on the small machine that asks for its number, grows its heap and exits.
use verve_os.Base.{false, Bool, ℕ, ◌≡◌, refl, inl, arith, [], ◌∷◌}
use verve_os.Base.Memory.{load8, load32}
use verve_os.Paging.{get_cr3, page_ok, pte_fetch_pd}
use verve_os.Paging.Sample.{small_machine, small-IsSpace}
use verve_os.Syscall.{Frame, Kernel, sys_write}
use verve_os.Syscall.Write.{Writes, sys_write-Writes}
use verve_os.Syscall.Invariant.{IsKernel}
use verve_os.Syscall.Run.{Ends, run, run-Ends}

abbrev sample : Kernel
sample = record {
  proc = record { machine = small_machine; pid = 1; pd_phys = 0x2000; brk = 0x8000_2000 };
  vfs = record { ufd = λ j. record { used = 0; vfidx = 0; pos = 0 }; mem = λ a. 65 };
}

guard_sample : (w : Bool) → page_ok small_machine.pmm.mem 0x2000 w 0 ≡ false
unfolding page_ok pte_fetch_pd load32 load8
guard_sample w = refl

sample-IsKernel : IsKernel sample
unfolding get_cr3
sample-IsKernel = record {
  proc = record {
    proc = record {
      space = small-IsSpace;
      has_directory = omega arith;
      aligned = refl;
      above = omega arith;
      below = omega arith;
    };
    current = refl;
    guarded = guard_sample;
  };
  vfs = λ j used. absurd (used refl);
}

abbrev call : ℕ → ℕ → Frame
call n b = record { eax = n; ebx = b; ecx = 0; edx = 0 }

sys_write-Writes_example : Writes 0x8000_0000 3 sample (sys_write 1 0x8000_0000 3 sample)
sys_write-Writes_example =
    sys_write-Writes 0x8000_0000 3 sample (omega arith) (omega arith) (inl (omega arith))

run-Ends_example :
    Ends
      (call 2 0 ∷ call 1 1 ∷ call 5 0x8000_0000 ∷ call 6 3 ∷ call 45 0x8000_4000 ∷ call 3 0 ∷ [])
      (run
        (call 2 0 ∷ call 1 1 ∷ call 5 0x8000_0000 ∷ call 6 3 ∷ call 45 0x8000_4000 ∷ call 3 0 ∷ [])
        sample)
run-Ends_example =
    run-Ends
      (call 2 0 ∷ call 1 1 ∷ call 5 0x8000_0000 ∷ call 6 3 ∷ call 45 0x8000_4000 ∷ call 3 0 ∷ [])
      sample sample-IsKernel (omega arith)
