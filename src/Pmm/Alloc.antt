-- ===== src/Pmm/Alloc.antt =====
-- `pmm_alloc_frame` and `pmm_free_frame` over the bitmap as a set.
use verve_os.Base.{
  ℕ, zero, suc, ◌+◌, ◌-◌, ◌*◌, ◌/◌, ◌^◌, ◌≤◌, ◌<◌, ◌≡◌, ◌≢◌, inl, inr, ap, Bool-cases, ◌&&◌, not,
  refl, arith, ltb, ◌==◌, if◌then◌else◌,
}
use verve_os.Base.Bits.{bit_and_page_offset}
use verve_os.Pmm.{Pmm, bm_set, bm_get, alloc_from, alloc_frame, free_frame}
use verve_os.Pmm.Bitmap.{
  IsValid, Within, Within-refl, Within-IsValid, bm_get-outside, bm_get-lt, bm_set-Within,
  bm_clear-Within, bm_get-bm_set, bm_get-bm_clear,
}

-- Frames past the 32-bit address space are marked used.
abbrev pub HighUsed : Pmm → Type 0
HighUsed s = (q : ℕ) → 2 ^ 20 ≤ q → bm_get s q ≡ 1

-- `r` is the result of an allocation that looks at the frames from `start` on.
pub data Allocates (s : Pmm) (start : ℕ) (r : ℕ × Pmm) : Type 0 where
  exhausted :
      r ≡ (0, s) → ((q : ℕ) → start ≤ q → q < s.frame_count → bm_get s q ≡ 1) → Allocates s start r
  found :
      (pfn : ℕ)
      → r ≡ (pfn * 4096, bm_set s pfn)
      → start ≤ pfn
      → pfn < s.frame_count
      → pfn < 2 ^ 20
      → bm_get s pfn ≡ 0
      → ((q : ℕ) → start ≤ q → q < pfn → bm_get s q ≡ 1)
      → Allocates s start r

Allocates-later :
    {s : Pmm} {start : ℕ} {r : ℕ × Pmm}
    → bm_get s start ≡ 1
    → Allocates s (start + 1) r
    → Allocates s start r
Allocates-later {s} {start} u (exhausted e all) = exhausted e (λ q h k. ground (arith, all q))
Allocates-later {s} {start} u (found pfn e h k small free before) =
    found pfn e (omega arith) k small free (λ q h' k'. ground (arith, before q))

alloc_from-Allocates :
    (left start : ℕ) (s : Pmm)
    → HighUsed s
    → s.frame_count ≤ start + left
    → Allocates s start (alloc_from left start s)
unfolding alloc_from
alloc_from-Allocates zero start s high e = exhausted refl (λ q h k. absurd (omega arith))
alloc_from-Allocates (suc left) start s high e = elim (Bool-cases (bm_get s start == 0)) [
  | inl free ↦
      let low : start < 2 ^ 20 = ground (arith, high start) in
      let below : start < s.frame_count = ground (arith, bm_get-outside s start) in
      rw free (
        found start (ground arith) (omega arith) below low (ground arith)
          (λ q h k. absurd (omega arith)))
  | inr used ↦ rw used (
      Allocates-later (ground (arith, bm_get-lt s start))
        (alloc_from-Allocates left (start + 1) s high (omega arith)))
]

-- `pmm_alloc_frame` gives the lowest free frame but frame 0, at its address, and marks it used; it
-- returns 0 and changes nothing only if all of them are used.
pub alloc_frame-Allocates : (s : Pmm) → HighUsed s → Allocates s 1 (alloc_frame s)
unfolding alloc_frame
alloc_frame-Allocates s high = alloc_from-Allocates (s.frame_count - 1) 1 s high (omega arith)

-- `pmm_free_frame` on any address: it clears the bit of a frame that starts there, but of frame 0
-- and of none past the end, and changes nothing else.
pub free_frame_lem :
    (phys : ℕ) (s : Pmm) (q : ℕ)
    → IsValid s
    → bm_get (free_frame phys s) q
      ≡ (if phys == q * 4096 && not (q == 0) && ltb q s.frame_count then 0 else bm_get s q)
unfolding free_frame
free_frame_lem phys s q v = ground (
  arith,
  bit_and_page_offset phys,
  bm_get-bm_clear s (phys / 4096) q v,
  bm_get-lt s (phys / 4096),
  bm_get-outside s q,
)

pub free_frame-Within : (phys : ℕ) (s : Pmm) → IsValid s → Within s (free_frame phys s)
unfolding free_frame
free_frame-Within phys s v = ground (arith, Within-refl s, bm_clear-Within s (phys / 4096) v)

-- Freeing the frame that an allocation gave restores every bit of the bitmap.
pub free_frame-alloc_frame :
    (s : Pmm) (q : ℕ)
    → IsValid s
    → HighUsed s
    → (alloc_frame s).0 ≢ 0
    → bm_get (free_frame (alloc_frame s).0 (alloc_frame s).1) q ≡ bm_get s q
free_frame-alloc_frame s q v high given = undo (alloc_frame s) (alloc_frame-Allocates s high) given
  where
    undo : (r : ℕ × Pmm) → Allocates s 1 r → r.0 ≢ 0 → bm_get (free_frame r.0 r.1) q ≡ bm_get s q
    undo r (exhausted e all) h = absurd (h (ap (λ (x : ℕ × Pmm). x.0) e))
    undo r (found pfn e h k small free before) _ = rw e (
        ground (
          arith,
          free_frame_lem (pfn * 4096) (bm_set s pfn) q (Within-IsValid (bm_set-Within s pfn v) v),
          bm_get-bm_set s pfn q v,
          (bm_set-Within s pfn v).frame_count,
        ))
