-- ===== src/Syscall/Invariant.antt =====
-- Every system call but exit returns, and keeps the kernel's state well formed.
use verve_os.Base.{
  false, ℕ, ◌%◌, ◌^◌, ◌≤◌, ◌<◌, ◌≡◌, ◌≢◌, refl, ◌∙◌, ap, inl, inr, ◌⊎◌, arith, ltb, ◌==◌, Bool,
  Bool-cases, some, List,
}
use verve_os.Paging.{Machine, get_cr3, page_ok}
use verve_os.Paging.Range.{user_range_ok-returns}
use verve_os.Proc.Break.{Grown}
use verve_os.Vfs.Read.{Gives, some-Gives}
use verve_os.Vfs.Invariant.{IsTable, open_u-IsTable, read_u-IsTable, close_u-IsTable}
use verve_os.Proc.{Proc, sys_brk}
use verve_os.Proc.Call.{IsProc, told, refused, grew, failed, sys_brk-Answers}
use verve_os.Syscall.{
  Frame, Kernel, Outcome, returned, range_ok, sys_write, with_serial, write_loop, syscall_invoke,
}

-- The process runs in its own address space, where page 0 is not the user's.
pub record IsRunning (p : Proc) : Type 0 where
  pub proc : IsProc p
  pub current : get_cr3 p.machine ≡ p.pd_phys
  pub guarded : (w : Bool) → page_ok p.machine.pmm.mem p.pd_phys w 0 ≡ false

pub record IsKernel (k : Kernel) : Type 0 where
  pub proc : IsRunning k.proc
  pub vfs : IsTable k.vfs

-- So each check of a range of user addresses comes back.
range_ok-returns :
    (p : Proc)
    → IsRunning p
    → (va len : ℕ) (w : Bool) → va < 2 ^ 32
    → (b : Bool) × (range_ok p.machine va len w ≡ some b)
range_ok-returns p h va len w small =
    user_range_ok-returns va len w p.machine 0 small refl (omega arith) (rw h.current (h.guarded w))

-- The call came back to the program, with only `eax` changed, and the state is well formed.
pub record Returns (f : Frame) (o : Outcome) : Type 0 where
  pub result : ℕ
  pub after : Kernel
  pub comes : o ≡ returned (record f { eax = result }) after
  pub valid : IsKernel after

Returns-same :
    (f : Frame) (k : Kernel) (n : ℕ) → IsKernel k → Returns f (returned (record f { eax = n }) k)
Returns-same f k n h = record { result = n; after = k; comes = refl; valid = h }

-- Output changes nothing that the invariant reads.
serial-IsKernel : (k : Kernel) (out : List ℕ) → IsKernel k → IsKernel (with_serial k out)
unfolding get_cr3
serial-IsKernel k out h = record {
  proc = record {
    proc = record {
      space = h.proc.proc.space;
      has_directory = h.proc.proc.has_directory;
      aligned = h.proc.proc.aligned;
      above = h.proc.proc.above;
      below = h.proc.proc.below;
    };
    current = h.proc.current;
    guarded = h.proc.guarded;
  };
  vfs = h.vfs;
}

-- A heap that has grown is above page 0.
Grown-IsRunning :
    (p : Proc) (m : Machine) (b to : ℕ)
    → IsRunning p
    → Grown p.pd_phys p.brk to p.machine m
    → b % 4096 ≡ 0
    → 0x8000_2000 ≤ b
    → b < 0x8040_0000
    → IsRunning (record p { machine = m; brk = b })
unfolding get_cr3 page_ok
Grown-IsRunning p m b to h g al lo hi = record {
  proc = record {
    space = g.space;
    has_directory = h.proc.has_directory;
    aligned = al;
    above = lo;
    below = hi;
  };
  current = ap get_cr3 g.same ∙ h.current;
  guarded = λ w.
      let low : (0 < p.brk) ⊎ (to ≤ 0) = inl (omega (arith, h.proc.above)) in
      let same = g.outside 0 (omega arith) low in rw (same, page_ok) (h.guarded w);
}

sys_write-IsKernel :
    (fd buf_va len : ℕ) (k : Kernel)
    → buf_va < 2 ^ 32
    → IsKernel k
    → Gives (λ (r : ℕ × Kernel). IsKernel r.1) (sys_write fd buf_va len k)
unfolding sys_write
sys_write-IsKernel fd buf_va len k small h =
    let (b, e) = range_ok-returns k.proc h.proc buf_va len false small in
    elim (Bool-cases (fd == 1)) [
      | inr other ↦ rw other (some-Gives _ h)
      | inl out ↦ elim (Bool-cases (ltb 512 len)) [
        | inl long ↦ rw (out, long) (some-Gives _ h)
        | inr short ↦ elim (Bool-cases b) [
          | inr fault ↦ rw (out, short, e, sys_write, fault) (some-Gives _ h)
          | inl ok ↦
              rw (out, short, e, sys_write, ok)
                (some-Gives _
                  (serial-IsKernel k (write_loop len buf_va k.vfs.mem k.proc.machine.serial) h))
        ]
      ]
    ]

sys_brk-IsRunning :
    (addr : ℕ) (p : Proc)
    → IsRunning p
    → addr < 2 ^ 32
    → (r : ℕ) × (p' : Proc) × (sys_brk addr p ≡ some (r, p')) × IsRunning p'
sys_brk-IsRunning addr p h small = elim (sys_brk-Answers addr p h.proc small) [
  | told e why ↦ (p.brk, p, e, h)
  | refused e asks why ↦ (_, p, e, h)
  | grew m e b g ↦ (
    addr,
    _,
    e,
    Grown-IsRunning p m addr addr h g b.aligned (omega (arith, h.proc.above, b.above)) b.below,
  )
  | failed stop m e lo hi g short ↦
      (_, _, e, Grown-IsRunning p m p.brk stop h g h.proc.aligned h.proc.above h.proc.below)
]

-- From a well-formed state every call but exit returns, with a well-formed state, and changes no
-- register but `eax`.
pub syscall_invoke-Returns :
    (f : Frame) (k : Kernel)
    → IsKernel k
    → f.eax ≢ 3
    → f.ebx < 2 ^ 32
    → f.ecx < 2 ^ 32
    → Returns f (syscall_invoke f k)
unfolding syscall_invoke
syscall_invoke-Returns f k h stays small small' =
    let ok = range_ok k.proc.machine in
    let comes = range_ok-returns k.proc h.proc in
    let no_exit : (f.eax == 3) ≡ false = ground arith in
    elim (Bool-cases (f.eax == 2)) [
      | inl getpid ↦ rw getpid (Returns-same f k _ h)
      | inr n₂ ↦ elim (Bool-cases (f.eax == 1)) [
        | inl write ↦
            let w = sys_write-IsKernel f.ebx f.ecx f.edx k small' h in
            rw (n₂, write, w.comes) (Returns-same f _ _ w.holds)
        | inr n₁ ↦ elim (Bool-cases (f.eax == 5)) [
          | inl open_file ↦
              let o = open_u-IsTable ok comes f.ebx k.vfs small h.vfs in
              rw (n₂, n₁, no_exit, open_file, o.comes)
                (Returns-same f _ _ (record { proc = h.proc; vfs = o.holds }))
          | inr n₅ ↦ elim (Bool-cases (f.eax == 6)) [
            | inl read ↦
                let r = read_u-IsTable ok comes f.ebx f.ecx f.edx k.vfs small' h.vfs in
                rw (n₂, n₁, no_exit, n₅, read, r.comes)
                  (Returns-same f _ _ (record { proc = h.proc; vfs = r.holds }))
            | inr n₆ ↦ elim (Bool-cases (f.eax == 7)) [
              | inl close ↦
                  rw (n₂, n₁, no_exit, n₅, n₆, close)
                    (Returns-same f _ _
                      (record { proc = h.proc; vfs = close_u-IsTable f.ebx k.vfs h.vfs }))
              | inr n₇ ↦ elim (Bool-cases (f.eax == 45)) [
                | inl brk ↦
                    let (r, p', e, v) = sys_brk-IsRunning f.ebx k.proc h.proc small in
                    rw (n₂, n₁, no_exit, n₅, n₆, n₇, brk, e)
                      (Returns-same f (record k { proc = p' }) r (record { proc = v; vfs = h.vfs }))
                | inr n₄₅ ↦ rw (n₂, n₁, no_exit, n₅, n₆, n₇, n₄₅) (Returns-same f k _ h)
              ]
            ]
          ]
        ]
      ]
    ]
