-- ===== src/Pmm/Init/Fill.antt =====
-- `bm_fill`: with 0xff it marks every frame used.
use verve_os.Base.{ℕ, zero, suc, ◌+◌, ◌/◌, ◌%◌, ◌^◌, ◌≤◌, ◌<◌, ◌≡◌, refl, arith, u8, u32}
use verve_os.Base.Memory.{load8, store8, load8-store8}
use verve_os.Base.Bits.{digit-ones}
use verve_os.Pmm.{Pmm, bm_get, fill_from, bm_fill}
use verve_os.Pmm.Bitmap.{
  IsValid, Within, Within-refl, Within-trans, bm_get-digit, bm_get-outside, byte_address_lem,
}

fill_byte-Within :
    (s : Pmm) (v i : ℕ)
    → s.bitmap + s.bitmap_byte_len ≤ 2 ^ 32
    → i < s.bitmap_byte_len
    → Within s (record s { mem = store8 s.mem (u32 (s.bitmap + i)) v })
fill_byte-Within s v i h k = record {
  bitmap = refl;
  byte_len = refl;
  frame_count = refl;
  outside = λ a small out. ground (arith, load8-store8 s.mem (u32 (s.bitmap + i)) v a);
}

fill_from-Within :
    (left v i : ℕ) (s : Pmm)
    → s.bitmap + s.bitmap_byte_len ≤ 2 ^ 32
    → i + left ≤ s.bitmap_byte_len
    → Within s (fill_from left v i s)
unfolding fill_from
fill_from-Within zero v i s h k = Within-refl s
fill_from-Within (suc left) v i s h k =
    Within-trans (fill_byte-Within s v i h (omega arith))
      (fill_from-Within left v (i + 1) _ h (omega arith))

-- A byte that the rest of the loop does not reach keeps its value.
fill_from-before :
    (left v i : ℕ) (s : Pmm) (j : ℕ)
    → s.bitmap + s.bitmap_byte_len ≤ 2 ^ 32
    → i + left ≤ s.bitmap_byte_len
    → j < i
    → load8 (fill_from left v i s).mem (s.bitmap + j) ≡ load8 s.mem (s.bitmap + j)
unfolding fill_from
fill_from-before zero v i s j h k before = refl
fill_from-before (suc left) v i s j h k before = ground (
  arith,
  load8-store8 s.mem (u32 (s.bitmap + i)) v (s.bitmap + j),
  fill_from-before left v (i + 1) (record s { mem = store8 s.mem (u32 (s.bitmap + i)) v }) j,
)

fill_from_lem :
    (left v i : ℕ) (s : Pmm) (j : ℕ)
    → s.bitmap + s.bitmap_byte_len ≤ 2 ^ 32
    → i + left ≤ s.bitmap_byte_len
    → i ≤ j
    → j < i + left
    → load8 (fill_from left v i s).mem (s.bitmap + j) ≡ u8 v
unfolding fill_from
fill_from_lem zero v i s j h k lo hi = absurd (omega arith)
fill_from_lem (suc left) v i s j h k lo hi =
    let s' : Pmm = record s { mem = store8 s.mem (u32 (s.bitmap + i)) v } in
    ground (
      arith,
      load8-store8 s.mem (u32 (s.bitmap + i)) v (s.bitmap + j),
      fill_from-before left v (i + 1) s' j,
      fill_from_lem left v (i + 1) s' j,
    )

module _ (s : Pmm) (v : IsValid s) where
  pub bm_fill-Within : (w : ℕ) → Within s (bm_fill w s.bitmap_byte_len s)
  unfolding bm_fill
  bm_fill-Within w = fill_from-Within s.bitmap_byte_len w 0 s v.in_memory (omega arith)

  pub bm_get-bm_fill : (q : ℕ) → bm_get (bm_fill 0xff s.bitmap_byte_len s) q ≡ 1
  unfolding bm_fill
  bm_get-bm_fill q =
      let t = fill_from s.bitmap_byte_len 0xff 0 s in
      let w : Within s t = fill_from-Within s.bitmap_byte_len 0xff 0 s v.in_memory (omega arith) in
      ground (
        arith,
        w,
        byte_address_lem {s = s} q v,
        bm_get-digit t q,
        bm_get-outside t q,
        fill_from_lem s.bitmap_byte_len 0xff 0 s (q / 8),
        digit-ones (q % 8),
      )
