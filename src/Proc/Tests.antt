-- ===== src/Proc/Tests.antt =====
-- A process on the small machine asks for three pages of heap.
use verve_os.Base.{refl, arith}
use verve_os.Paging.Sample.{small_machine, small-IsSpace}
use verve_os.Proc.{Proc, sys_brk}
use verve_os.Proc.Call.{IsProc, Answers, sys_brk-Answers}

abbrev sample : Proc
sample = record { machine = small_machine; pid = 1; pd_phys = 0x2000; brk = 0x8000_2000 }

sample-IsProc : IsProc sample
sample-IsProc = record {
  space = small-IsSpace;
  has_directory = omega arith;
  aligned = refl;
  above = omega arith;
  below = omega arith;
}

sys_brk-Answers_example : Answers 0x8000_5000 sample (sys_brk 0x8000_5000 sample)
sys_brk-Answers_example = sys_brk-Answers 0x8000_5000 sample sample-IsProc (omega arith)
