-- ===== src/Syscall/Write.antt =====
-- `sys_write`: what is printed.
use verve_os.Base.{
  true, false, ℕ, zero, suc, ◌+◌, ◌-◌, ◌*◌, ◌/◌, ◌^◌, ◌≤◌, ◌<◌, ◌≡◌, refl, sym, ◌∙◌, inl, inr, ◌⊎◌,
  arith, ltb, Bool-cases, Option, some, List, [], ◌∷◌, ◌++◌, append_assoc, append-nil, u32,
}
use verve_os.Base.Int32.{minus}
use verve_os.Base.Memory.{Mem, load8}
use verve_os.Mboot2.Queries.{load_bytes}
use verve_os.Serial.{putc}
use verve_os.Paging.{Machine, get_cr3, page_ok}
use verve_os.Paging.Range.{granted, denied, wraps, user_range_ok_lem}
use verve_os.Syscall.{Kernel, write_loop, sys_write, with_serial}

write_loop_lem :
    (n va : ℕ) (m : Mem) (out : List ℕ) → write_loop n va m out ≡ out ++ load_bytes m va n
unfolding write_loop putc load_bytes
write_loop_lem zero va m out = sym (append-nil out)
write_loop_lem (suc n) va m out =
    write_loop_lem n (u32 (va + 1)) m (out ++ load8 m va ∷ [])
    ∙ append_assoc out (load8 m va ∷ []) (load_bytes m (u32 (va + 1)) n)

-- The bytes are readable by the user: all their pages are.
abbrev pub IsReadable : Machine → ℕ → ℕ → Type 0
IsReadable s va len =
    (va + len < 2 ^ 32)
    × ((a : ℕ)
        → va ≤ a
        → a < va + len
        → page_ok s.pmm.mem (get_cr3 s) false (a / 4096 * 4096) ≡ true)

-- What a write to descriptor 1 does.
pub data Writes (buf_va len : ℕ) (k : Kernel) (r : Option (ℕ × Kernel)) : Type 0 where
  written :
      r ≡ some (len, with_serial k (k.proc.machine.serial ++ load_bytes k.vfs.mem buf_va len))
      → len ≤ 512
      → IsReadable k.proc.machine buf_va len
      → Writes buf_va len k r
  too_long : r ≡ some (minus 22, k) → 512 < len → Writes buf_va len k r
  not_readable :
      r ≡ some (minus 14, k)
      → len ≤ 512
      → (IsReadable k.proc.machine buf_va len → ⊥)
      → Writes buf_va len k r

-- For a buffer that does not reach into the last page, `sys_write` on descriptor 1 comes back: it prints
-- exactly the bytes and returns their number, if they are at most 512 and their pages are readable by the
-- user; else it returns the error and prints nothing.
pub sys_write-Writes :
    (buf_va len : ℕ) (k : Kernel)
    → buf_va < 2 ^ 32
    → len < 2 ^ 32
    → (buf_va + len ≤ 2 ^ 32 - 4096) ⊎ (2 ^ 32 ≤ buf_va + len)
    → Writes buf_va len k (sys_write 1 buf_va len k)
unfolding sys_write
sys_write-Writes buf_va len k hb hl room = elim (Bool-cases (ltb 512 len)) [
  | inl long ↦ rw long (too_long refl (ground (arith, long)))
  | inr short ↦ elim (user_range_ok_lem buf_va len false k.proc.machine hb hl room) [
    | granted e fits all ↦
        rw (short, e, sys_write, write_loop_lem len buf_va k.vfs.mem k.proc.machine.serial)
          (written refl (ground (arith, short)) (fits, all))
    | denied a e lo hi bad ↦
        rw (short, e, sys_write)
          (not_readable refl (ground (arith, short))
            (λ h. absurd (ground (arith, h.1 a lo hi, bad))))
    | wraps e past ↦
        rw (short, e, sys_write)
          (not_readable refl (ground (arith, short)) (λ h. absurd (omega (arith, h.0, past))))
  ]
]
