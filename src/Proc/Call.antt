-- ===== src/Proc/Call.antt =====
-- The whole of `verve_proc_sys_brk`, on every branch.
use verve_os.Base.{
  false, ℕ, ◌-◌, ◌%◌, ◌^◌, ◌≤◌, ◌<◌, ◌≡◌, ◌≢◌, refl, inl, inr, ◌⊎◌, arith, ltb, leb, ◌==◌, ◌||◌,
  Bool-cases, Option, some, bit_and,
}
use verve_os.Base.Int32.{minus}
use verve_os.Base.Bits.{bit_and_page_offset}
use verve_os.Paging.{Machine}
use verve_os.Paging.Space.{IsSpace}
use verve_os.Proc.{Proc, grow, sys_brk, heap_rounds}
use verve_os.Proc.Break.{Grown}
use verve_os.Proc.Loop.{IsShort, finished, stopped, brk_loop-Runs}

-- A process with an address space, and a break in its heap.
pub record IsProc (p : Proc) : Type 0 where
  pub space : IsSpace p.pd_phys p.machine.pmm
  pub has_directory : p.pd_phys ≢ 0
  pub aligned : p.brk % 4096 ≡ 0
  pub above : 0x8000_2000 ≤ p.brk
  pub below : p.brk < 0x8040_0000

-- An address that a break may move to.
pub record IsBreak (p : Proc) (addr : ℕ) : Type 0 where
  pub aligned : addr % 4096 ≡ 0
  pub below : addr < 0x8040_0000
  pub above : p.brk ≤ addr

pub data Answers (addr : ℕ) (p : Proc) (r : Option (ℕ × Proc)) : Type 0 where
  told : r ≡ some (p.brk, p) → (addr ≡ 0) ⊎ (addr ≡ p.brk) → Answers addr p r
  refused : r ≡ some (minus 22, p) → addr ≢ 0 → (IsBreak p addr → ⊥) → Answers addr p r
  grew :
      (m : Machine)
      → r ≡ some (addr, record p { machine = m; brk = addr })
      → IsBreak p addr
      → Grown p.pd_phys p.brk addr p.machine m
      → Answers addr p r
  failed :
      (stop : ℕ) (m : Machine)
      → r ≡ some (minus 12, record p { machine = m })
      → p.brk ≤ stop
      → stop < addr
      → Grown p.pd_phys p.brk stop p.machine m
      → IsShort p.pd_phys stop m
      → Answers addr p r

grow-Answers : (addr : ℕ) (p : Proc) → IsProc p → IsBreak p addr → Answers addr p (grow addr p)
unfolding grow
grow-Answers addr p h b =
    elim (brk_loop-Runs heap_rounds p.pd_phys p.brk addr p.machine h.space h.aligned b.aligned
      b.above (omega (arith, b)) (omega (arith, b, h))) [
        | finished m e g ↦ rw (e, grow) (grew m refl b g)
        | stopped stop m e lo hi hs g short ↦ rw (e, grow) (failed stop m refl lo hi g short)
      ]

-- `verve_proc_sys_brk` returns: the break, for 0 or the break itself; -22 for an address that is
-- not a break above the present one; the new break, when every page up to it is mapped; or -12
-- with the old break, when the pages before some page are mapped, and for that one no frame is free, or
-- only one where it has no table and needs two.
pub sys_brk-Answers :
    (addr : ℕ) (p : Proc) → IsProc p → addr < 2 ^ 32 → Answers addr p (sys_brk addr p)
unfolding sys_brk
sys_brk-Answers addr p h small =
    let dir : (p.pd_phys == 0) ≡ false = ground (arith, h.has_directory) in
    let off : bit_and addr (4096 - 1) ≡ addr % 4096 = bit_and_page_offset addr in
    elim (Bool-cases (addr == 0)) [
      | inl zero ↦ rw (dir, zero) (told refl (inl (ground (arith, zero))))
      | inr asks ↦ elim (Bool-cases (addr % 4096 == 0)) [
        | inr odd ↦
            rw (dir, asks, off, odd)
              (refused refl (ground (arith, asks)) (λ b. absurd (ground (arith, odd, b.aligned))))
        | inl even ↦ elim (Bool-cases (ltb addr 0x8000_2000 || leb 0x8040_0000 addr)) [
          | inl out ↦
              rw (dir, asks, off, even, out)
                (refused refl (ground (arith, asks)) (λ b. absurd (ground (arith, out, b, h))))
          | inr inside ↦ elim (Bool-cases (ltb addr p.brk)) [
            | inl shrinks ↦
                rw (dir, asks, off, even, inside, shrinks)
                  (refused refl (ground (arith, asks)) (λ b. absurd (ground (arith, shrinks, b))))
            | inr above ↦ elim (Bool-cases (addr == p.brk)) [
              | inl same ↦
                  rw (dir, asks, off, even, inside, above, same)
                    (told refl (inr (ground (arith, same))))
              | inr grows ↦
                  rw (dir, asks, off, even, inside, above, grows)
                    (grow-Answers addr p h (record {
                      aligned = ground (arith, even);
                      below = ground (arith, inside);
                      above = ground (arith, above);
                    }))
            ]
          ]
        ]
      ]
    ]
