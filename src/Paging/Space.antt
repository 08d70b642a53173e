-- ===== src/Paging/Space.antt =====
-- An address space: a directory whose tables are frames of their own, in use, and clear of the
-- allocator's bitmap.
use verve_os.Base.{
  ℕ, ◌+◌, ◌*◌, ◌/◌, ◌%◌, ◌≤◌, ◌<◌, ◌≡◌, ◌≢◌, inl, inr, ◌⊎◌, arith, ltb, ◌==◌, Bool-cases,
  if◌then◌else◌, none, some,
}
use verve_os.Base.Bits.{bit_and-one, bit_and_page_mask, bit_and_table_index}
use verve_os.Base.Memory.{Mem, load32-lt}
use verve_os.Pmm.{Pmm, bm_get, byte_address}
use verve_os.Pmm.Bitmap.{IsValid, bm_get-outside, bm_get-digit, byte_address_lem}
use verve_os.Pmm.Alloc.{HighUsed}
use verve_os.Paging.{entry, pte_fetch_pd}
use verve_os.Paging.Tables.{IsFrame, Only}

-- The table that entry `i` of a directory points to.
abbrev pub table_of : Mem → ℕ → ℕ → ℕ
table_of m pd i = entry m pd i / 4096 * 4096

abbrev pub IsPresent : ℕ → Type 0
IsPresent e = e % 2 ≡ 1

-- No entry of the directory points to the frame `u`.
abbrev pub IsApart : ℕ → ℕ → Mem → Type 0
IsApart pd u m = (j : ℕ) → j < 1024 → IsPresent (entry m pd j) → table_of m pd j ≢ u

-- No byte of the bitmap lies in the frame.
abbrev pub IsClear : ℕ → Pmm → Type 0
IsClear t s = (t + 4096 ≤ s.bitmap) ⊎ (s.bitmap + s.bitmap_byte_len ≤ t)

pub record IsTaken (t : ℕ) (s : Pmm) : Type 0 where
  pub frame : IsFrame t
  pub used : bm_get s (t / 4096) ≡ 1
  pub clear : IsClear t s

-- The allocator can be used: its bitmap lies in frames that are in use.
pub record IsSound (s : Pmm) : Type 0 where
  pub valid : IsValid s
  pub high : HighUsed s
  pub free_clear : (q : ℕ) → bm_get s q ≡ 0 → IsClear (q * 4096) s

pub record IsSpace (pd : ℕ) (s : Pmm) : Type 0 where
  pub sound : IsSound s
  pub directory : IsTaken pd s
  pub tables : (i : ℕ) → i < 1024 → IsPresent (entry s.mem pd i) → IsTaken (table_of s.mem pd i) s
  pub below : (i : ℕ) → i < 1024 → IsPresent (entry s.mem pd i) → table_of s.mem pd i ≢ pd
  pub distinct :
      (i j : ℕ)
      → i < 1024
      → j < 1024
      → i ≢ j
      → IsPresent (entry s.mem pd i)
      → IsPresent (entry s.mem pd j)
      → table_of s.mem pd i ≢ table_of s.mem pd j

-- The bitmap does not change with bytes outside it.
pub bm_get-Only :
    (s : Pmm) (t : ℕ) (m' : Mem) (q : ℕ)
    → IsValid s
    → IsClear t s
    → Only t s.mem m'
    → bm_get (record s { mem = m' }) q ≡ bm_get s q
bm_get-Only s t m' q v clear same = elim (Bool-cases (ltb q s.frame_count)) [
  | inl inside ↦
      let at = byte_address_lem q v (ground arith) in
      let byte = same (byte_address s q) (omega (arith, at)) (ground (arith, at, v)) in
      ground (arith, bm_get-digit s q, bm_get-digit (record s { mem = m' }) q, byte)
  | inr past ↦ ground (arith, bm_get-outside s q, bm_get-outside (record s { mem = m' }) q)
]

-- The entry of a page, in quotients and remainders.
pub pte_fetch_pd_lem :
    (m : Mem) (pd virt : ℕ)
    → pte_fetch_pd m pd virt ≡ (
        if entry m pd (virt / 4194304) % 2 == 0
        then none
        else let pte = entry m (table_of m pd (virt / 4194304)) (virt / 4096 % 1024) in
          if pte % 2 == 0 then none else some pte)
unfolding pte_fetch_pd
pte_fetch_pd_lem m pd virt =
    let e = entry m pd (virt / 4194304) in
    let mask = bit_and_page_mask e (load32-lt m (pd + 4 * (virt / 4194304))) in
    rw (
      bit_and-one e,
      mask,
      bit_and_table_index (virt / 4096),
      bit_and-one (entry m (table_of m pd (virt / 4194304)) (virt / 4096 % 1024)),
    )
