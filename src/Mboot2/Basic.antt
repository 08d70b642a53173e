-- ===== src/Mboot2/Basic.antt =====
-- `mb2_read_basic_meminfo` finds the first tag with the basic memory sizes.
use verve_os.Base.{
  ℕ, zero, suc, ◌+◌, ◌^◌, ◌≤◌, ◌<◌, ◌≡◌, Bool, true, false, some, List, [], ◌∷◌, arith,
}
use verve_os.Base.Bits.{bit_and_seven}
use verve_os.Base.Memory.{Mem}
use verve_os.Mboot2.{scan_tags, scan_info}
use verve_os.Mboot2.Queries.{Meminfo, visit_meminfo, read_basic_meminfo}
use verve_os.Mboot2.Layout.{Tag, mmap, meminfo, other, HoldsTags, HoldsInfo}

-- What the first such tag says; false and zeros if there is none.
abbrev pub first_meminfo : Mem → List Tag → Bool × Meminfo
first_meminfo m [] = (false, record { mem = m; lower_kb = 0; upper_kb = 0 })
first_meminfo m (mmap size entry_size entries ∷ ts) = first_meminfo m ts
first_meminfo m (meminfo lower_kb upper_kb ∷ ts) =
    (true, record { mem = m; lower_kb = lower_kb; upper_kb = upper_kb })
first_meminfo m (other type size ∷ ts) = first_meminfo m ts

module _ (m : Mem) (limit total : ℕ) (small : limit + total < 2 ^ 32) where
  scan_meminfo_lem :
      (fuel p : ℕ) (ts : List Tag)
      → limit < p + fuel
      → limit ≤ p + total
      → HoldsTags m p limit ts
      → scan_tags
          (λ (s : Meminfo). s.mem)
          false
          visit_meminfo
          fuel
          p
          limit
          (record { mem = m; lower_kb = 0; upper_kb = 0 })
        ≡ some (first_meminfo m ts)
  unfolding scan_tags visit_meminfo
  scan_meminfo_lem zero p [] f near h = absurd (omega (arith, h))
  scan_meminfo_lem zero p (t ∷ ts) f near h = absurd (omega (arith, h))
  scan_meminfo_lem (suc fuel) p [] f near h = ground (arith, h, bit_and_seven 8)
  scan_meminfo_lem (suc fuel) p (meminfo lower_kb upper_kb ∷ ts) f near h =
      ground (arith, h, bit_and_seven 16)
  scan_meminfo_lem (suc fuel) p (mmap size entry_size entries ∷ ts) f near h = ground (
    arith,
    h,
    bit_and_seven size,
    scan_meminfo_lem fuel (p + size) ts (omega (arith, h)) (omega arith) h.5,
  )
  scan_meminfo_lem (suc fuel) p (other type size ∷ ts) f near h = ground (
    arith,
    h,
    bit_and_seven size,
    scan_meminfo_lem fuel (p + size) ts (omega (arith, h)) (omega arith) h.5,
  )

-- On a memory that holds an information structure below 4 GiB, `mb2_read_basic_meminfo` returns
-- the sizes of the first tag that has them, and false as none has.
pub read_basic_meminfo_lem :
    (m : Mem) (info total : ℕ) (tags : List Tag)
    → info + total + total < 2 ^ 32
    → HoldsInfo m info total tags
    → read_basic_meminfo m info ≡ some (first_meminfo m tags)
unfolding read_basic_meminfo scan_info
read_basic_meminfo_lem m info total tags small h = ground (
  arith,
  h.0,
  h.1,
  h.2,
  bit_and_seven total,
  scan_meminfo_lem m (info + total) total small (suc total) (info + 8) tags (omega arith)
      (omega arith) h.3,
)
