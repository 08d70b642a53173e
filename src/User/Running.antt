-- ===== src/User/Running.antt =====
-- Process 1 in its own address space, as both programs find it.
use verve_os.Base.{
  ℕ, ◌+◌, ◌/◌, ◌^◌, ◌<◌, ◌≡◌, ◌≢◌, sym, ◌∙◌, ap, arith, ◌==◌, if◌then◌else◌, some, List, u32,
}
use verve_os.Base.Memory.{load8}
use verve_os.Pmm.{Pmm, bm_get}
use verve_os.Paging.{Machine, pte_fetch_pd}
use verve_os.Paging.Boot.{Statics}
use verve_os.Proc.{Proc}
use verve_os.User.{User, Exit}
use verve_os.User.Load.{IsEntered}

-- Process 1 with a directory of its own, in which the bytes of the text are as `holds` says; `s` is the machine before.
pub record IsRunning (at : Statics) (ring0_stack : ℕ) (holds : (ℕ → ℕ) → Type 0) (s : Machine)
    (u : User) : Type 0 where
  pub code : ℕ
  pub stack : ℕ
  pub pid : u.proc.pid ≡ 1
  pub brk : u.proc.brk ≡ 0x8000_2000
  pub esp0 : u.esp0 ≡ u32 (ring0_stack + 2048)
  pub cr3 : u.proc.machine.cr3 ≡ u.proc.pd_phys
  pub pd_free : bm_get s.pmm (u.proc.pd_phys / 4096) ≡ 0
  pub code_free : bm_get s.pmm (code / 4096) ≡ 0
  pub stack_free : bm_get s.pmm (stack / 4096) ≡ 0
  pub code_apart : code / 4096 ≢ u.proc.pd_phys / 4096
  pub stack_apart : stack / 4096 ≢ u.proc.pd_phys / 4096
  pub different : code ≢ stack
  pub text : holds (λ i. load8 u.proc.machine.pmm.mem (code + i))
  pub fetch :
      (v : ℕ)
      → v < 2 ^ 32
      → pte_fetch_pd u.proc.machine.pmm.mem u.proc.pd_phys v ≡ (
          if v / 4096 == 0x8_0001
          then some (stack + 7)
          else if v / 4096 == 0x8_0000
          then some (code + 7)
          else pte_fetch_pd s.pmm.mem at.boot_pd v)

abbrev pub process : ℕ → Machine → User → User
process pd s u = record u {
  proc = record { machine = s; pid = 1; pd_phys = pd; brk = 0x8000_2000 };
}

-- The entry of a program from the clone of the kernel's directory on.
module _ (at : Statics) (ring0_stack : ℕ) (holds : (ℕ → ℕ) → Type 0) (u : User) (serial : List ℕ)
    (pd : ℕ) (after : Pmm) (nonzero : pd ≢ 0) (pd_free : bm_get u.proc.machine.pmm (pd / 4096) ≡ 0)
    (fetch : (v : ℕ)
      → v < 2 ^ 32
      → pte_fetch_pd after.mem pd v ≡ pte_fetch_pd u.proc.machine.pmm.mem at.boot_pd v)
    (used : (q : ℕ)
      → bm_get after q ≡ (if pd / 4096 == q then 1 else bm_get u.proc.machine.pmm q)) where
  abbrev pub own : User
  own = process pd (record u.proc.machine { serial = serial; pmm = after }) u

  was_free : (q : ℕ) → bm_get after q ≡ 0 → bm_get u.proc.machine.pmm q ≡ 0
  was_free q e = ground (arith, used q)

  is_apart : (q : ℕ) → bm_get after q ≡ 0 → q ≢ pd / 4096
  is_apart q e same = ground (arith, used q)

  pub entered-IsRunning :
      (r : Exit)
      → (e : IsEntered ring0_stack pd holds own r)
      → IsRunning at ring0_stack holds u.proc.machine e.user
  entered-IsRunning r e =
      let l = e.loaded in
      let here = ap (λ (p : Proc). p.pd_phys) e.proc in
      record {
        code = l.code;
        stack = l.stack;
        pid = ap (λ (p : Proc). p.pid) e.proc;
        brk = ap (λ (p : Proc). p.brk) e.proc;
        esp0 = e.esp0;
        cr3 = l.cr3 ∙ sym here;
        pd_free = rw here pd_free;
        code_free = was_free _ l.code_free;
        stack_free = was_free _ l.stack_free;
        code_apart = rw here (is_apart _ l.code_free);
        stack_apart = rw here (is_apart _ l.stack_free);
        different = l.different;
        text = l.text;
        fetch = λ v hv. rw here (ground (arith, l.fetch v hv, fetch v hv));
      }
