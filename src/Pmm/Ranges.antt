-- ===== src/Pmm/Ranges.antt =====
-- `frames_mark_used` and `frames_mark_free`: which frames a range of addresses touches.
use verve_os.Base.{
  ℕ, zero, suc, ◌+◌, ◌-◌, ◌*◌, ◌/◌, ◌%◌, ◌^◌, ◌≤◌, ◌<◌, ◌≡◌, inl, inr, Bool-cases, Bool, ◌&&◌,
  arith, ltb, leb, ◌==◌, if◌then◌else◌, u32, u64,
}
use verve_os.Base.Bits.{bit_and_page_mask}
use verve_os.Pmm.{
  Pmm, align_up, align_down, bm_set, bm_clear, bm_get, mark_frames, frames_mark_used,
  frames_mark_free, all_frames, frame_size, free_cb,
}
use verve_os.Pmm.Bitmap.{
  IsValid, Within, Within-refl, Within-trans, Within-IsValid, bm_get-outside, bm_set-Within,
  bm_clear-Within, bm_get-bm_set, bm_get-bm_clear,
}

pub align_down_lem : (x : ℕ) → x < 2 ^ 32 → align_down x frame_size ≡ x / 4096 * 4096
unfolding align_down
align_down_lem x h = bit_and_page_mask x h

pub align_up_lem : (x : ℕ) → x ≤ 2 ^ 32 - 4096 → align_up x frame_size ≡ (x + 4095) / 4096 * 4096
unfolding align_up
align_up_lem x h = ground (arith, bit_and_page_mask (u32 (x + 4096 - 1)))

-- The frame `q` has bytes in `[begin, end)`.
abbrev pub touches : ℕ → ℕ → ℕ → Bool
touches begin end q = ltb (q * 4096) end && ltb begin (q * 4096 + 4096) && ltb begin end

-- One loop for both: `mark` writes the bit `w`.
module _ (mark : Pmm → ℕ → Pmm) (w : ℕ)
    (mark-Within : (s : Pmm) (p : ℕ) → IsValid s → Within s (mark s p))
    (mark_lem : (s : Pmm) (p q : ℕ)
      → IsValid s
      → p < s.frame_count
      → bm_get (mark s p) q ≡ (if p == q then w else bm_get s q)) where
  mark_one-Within :
      (s : Pmm) (p : ℕ)
      → IsValid s
      → Within s (if ltb (p / 4096) s.frame_count then mark s (p / 4096) else s)
  mark_one-Within s p v = elim (Bool-cases (ltb (p / 4096) s.frame_count)) [
    | inl below ↦ rw below (mark-Within s (p / 4096) v)
    | inr past ↦ rw past (Within-refl s)
  ]

  mark_frames-Within : (fuel p e : ℕ) (s : Pmm) → IsValid s → Within s (mark_frames mark fuel p e s)
  unfolding mark_frames
  mark_frames-Within zero p e s v = Within-refl s
  mark_frames-Within (suc fuel) p e s v =
      let first = mark_one-Within s p v in
      let rest = mark_frames-Within fuel (u32 (p + 4096)) e _ (Within-IsValid first v) in
      elim (Bool-cases (ltb p e)) [
        | inl more ↦ rw more (Within-trans first rest)
        | inr done ↦ rw done (Within-refl s)
      ]

  mark_frames_lem :
      (fuel p e : ℕ) (s : Pmm) (q : ℕ)
      → IsValid s
      → p % 4096 ≡ 0
      → e % 4096 ≡ 0
      → e < 2 ^ 32
      → e ≤ p + 4096 * fuel
      → q < s.frame_count
      → bm_get (mark_frames mark fuel p e s) q
        ≡ (if leb p (q * 4096) && ltb (q * 4096) e then w else bm_get s q)
  unfolding mark_frames
  mark_frames_lem zero p e s q v hp he small enough below = ground arith
  mark_frames_lem (suc fuel) p e s q v hp he small enough below =
      let first = mark_one-Within s p v in
      ground (
        arith,
        first.frame_count,
        mark_lem s (p / 4096) q v,
        mark_frames_lem fuel (p + 4096) e
            (if ltb (p / 4096) s.frame_count then mark s (p / 4096) else s) q
            (Within-IsValid first v),
      )

set_in_range :
    (s : Pmm) (p q : ℕ)
    → IsValid s
    → p < s.frame_count
    → bm_get (bm_set s p) q ≡ (if p == q then 1 else bm_get s q)
set_in_range s p q v h = bm_get-bm_set s p q v

clear_in_range :
    (s : Pmm) (p q : ℕ)
    → IsValid s
    → p < s.frame_count
    → bm_get (bm_clear s p) q ≡ (if p == q then 0 else bm_get s q)
clear_in_range s p q v h = ground (arith, bm_get-bm_clear s p q v)

pub frames_mark_used-Within :
    (begin end : ℕ) (s : Pmm) → IsValid s → Within s (frames_mark_used begin end s)
unfolding frames_mark_used
frames_mark_used-Within begin end s v = elim (Bool-cases (leb end begin)) [
  | inl empty ↦ rw empty (Within-refl s)
  | inr inhabited ↦
      rw inhabited (mark_frames-Within bm_set 1 bm_set-Within set_in_range all_frames _ _ s v)
]

pub frames_mark_free-Within :
    (begin end : ℕ) (s : Pmm) → IsValid s → Within s (frames_mark_free begin end s)
unfolding frames_mark_free
frames_mark_free-Within begin end s v = elim (Bool-cases (leb end begin)) [
  | inl empty ↦ rw empty (Within-refl s)
  | inr inhabited ↦
      rw inhabited (mark_frames-Within bm_clear 0 bm_clear-Within clear_in_range all_frames _ _ s v)
]

module _ (begin end : ℕ) (s : Pmm) (q : ℕ) (v : IsValid s) (small : end ≤ 2 ^ 32 - 4096) where
  used_inside :
      q < s.frame_count
      → bm_get (frames_mark_used begin end s) q ≡ (if touches begin end q then 1 else bm_get s q)
  unfolding frames_mark_used
  used_inside below = ground (
    arith,
    align_down_lem begin,
    align_up_lem end small,
    mark_frames_lem bm_set 1 bm_set-Within set_in_range all_frames (begin / 4096 * 4096)
        ((end + 4095) / 4096 * 4096) s q v,
  )

  free_inside :
      q < s.frame_count
      → bm_get (frames_mark_free begin end s) q ≡ (if touches begin end q then 0 else bm_get s q)
  unfolding frames_mark_free
  free_inside below = ground (
    arith,
    align_down_lem begin,
    align_up_lem end small,
    mark_frames_lem bm_clear 0 bm_clear-Within clear_in_range all_frames (begin / 4096 * 4096)
        ((end + 4095) / 4096 * 4096) s q v,
  )

  -- After `frames_mark_used` the frames that the range touches are used, and the others as before.
  pub frames_mark_used_lem :
      bm_get (frames_mark_used begin end s) q ≡ (if touches begin end q then 1 else bm_get s q)
  frames_mark_used_lem = ground (
    arith,
    used_inside,
    bm_get-outside s q,
    bm_get-outside (frames_mark_used begin end s) q,
    (frames_mark_used-Within begin end s v).frame_count,
  )

  -- After `frames_mark_free` the frames below `frame_count` that the range touches are free.
  pub frames_mark_free_lem :
      bm_get (frames_mark_free begin end s) q
      ≡ (if ltb q s.frame_count && touches begin end q then 0 else bm_get s q)
  frames_mark_free_lem = ground (
    arith,
    free_inside,
    bm_get-outside s q,
    bm_get-outside (frames_mark_free begin end s) q,
    (frames_mark_free-Within begin end s v).frame_count,
  )

-- `free_cb` keeps 32 bits of an address: a region above 4 GiB frees the frames of the region that
-- lies 4 GiB lower, whatever is there.
pub free_cb_above :
    (base len : ℕ) (s : Pmm)
    → base + 2 ^ 32 + len < 2 ^ 64
    → free_cb (base + 2 ^ 32) len s ≡ free_cb base len s
unfolding free_cb
free_cb_above base len s h =
    let low : u32 (base + 2 ^ 32) ≡ u32 base = omega arith in
    let high : u32 (u64 (base + 2 ^ 32 + len)) ≡ u32 (u64 (base + len)) = omega arith in
    rw (low, high)
