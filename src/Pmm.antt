-- ===== src/Pmm.antt =====
-- kernel/pmm.c: the allocator of 4 KiB frames, a bitmap in physical memory with a set bit for
-- each used frame. The static variables are a record beside the memory that `bitmap` points into.
pub mod Bitmap
pub mod Ranges
pub mod Alloc
pub mod Clients
pub mod Init
mod Tests
use verve_os.Base.{
  ℕ, zero, suc, ◌+◌, ◌-◌, ◌/◌, ◌^◌, Bool, true, false, not, Option, none, some, ltb, leb, ◌==◌,
  if◌then◌else◌, u8, u32, u64, ◌<<<◌, ◌>>>◌, not32, bit_and, bit_or,
}
use verve_os.Base.Memory.{Mem, load8, store8, load32}
use verve_os.Mboot2.{for_each_available}

pub record Pmm : Type 0 where
  pub mem : Mem
  pub bitmap : ℕ
  pub bitmap_byte_len : ℕ
  pub frame_count : ℕ

abbrev pub frame_shift : ℕ
frame_shift = 12

abbrev pub frame_size : ℕ
frame_size = 4096

unfoldable pub align_up : ℕ → ℕ → ℕ
align_up x a = bit_and (u32 (x + a - 1)) (not32 (a - 1))

unfoldable pub align_down : ℕ → ℕ → ℕ
align_down x a = bit_and x (not32 (a - 1))

abbrev pub phys_pfn : ℕ → ℕ
phys_pfn p = p >>> frame_shift

-- `&bitmap[pfn >> 3]`
abbrev pub byte_address : Pmm → ℕ → ℕ
byte_address s pfn = u32 (s.bitmap + u32 (pfn >>> 3))

unfoldable pub bm_set : Pmm → ℕ → Pmm
bm_set s pfn = if leb s.frame_count pfn then s else record s {
  mem =
      store8 s.mem (byte_address s pfn)
        (u8 (bit_or (load8 s.mem (byte_address s pfn)) (u8 (1 <<< bit_and pfn 7))));
}

unfoldable pub bm_clear : Pmm → ℕ → Pmm
bm_clear s pfn = if leb s.frame_count pfn then s else record s {
  mem =
      store8 s.mem (byte_address s pfn)
        (u8 (bit_and (load8 s.mem (byte_address s pfn)) (u8 (not32 (1 <<< bit_and pfn 7)))));
}

-- A frame past the end counts as used.
unfoldable pub bm_get : Pmm → ℕ → ℕ
bm_get s pfn =
    if leb s.frame_count pfn
    then 1
    else bit_and (load8 s.mem (byte_address s pfn) >>> bit_and pfn 7) 1

-- The loop of `bm_fill`, with the number of rounds left.
fill_from : ℕ → ℕ → ℕ → Pmm → Pmm
fill_from zero v i s = s
fill_from (suc left) v i s =
    fill_from left v (i + 1) (record s { mem = store8 s.mem (u32 (s.bitmap + i)) v })

unfoldable pub bm_fill : ℕ → ℕ → Pmm → Pmm
unfolding fill_from
bm_fill v n s = fill_from n v 0 s

-- `for (p = b; p < e; p += FRAME_SIZE)` with the test on the frame number that both loops make.
unfoldable pub mark_frames : (Pmm → ℕ → Pmm) → ℕ → ℕ → ℕ → Pmm → Pmm
mark_frames mark zero p e s = s
mark_frames mark (suc fuel) p e s =
    let s' = if ltb (phys_pfn p) s.frame_count then mark s (phys_pfn p) else s in
    let rest = mark_frames mark fuel (u32 (p + frame_size)) e s' in if ltb p e then rest else s

-- A 32-bit address space has 2 ^ 20 frames.
abbrev pub all_frames : ℕ
all_frames = 2 ^ 20

unfoldable pub frames_mark_used : ℕ → ℕ → Pmm → Pmm
frames_mark_used begin end s =
    if leb end begin
    then s
    else mark_frames bm_set all_frames (align_down begin frame_size) (align_up end frame_size) s

unfoldable pub frames_mark_free : ℕ → ℕ → Pmm → Pmm
frames_mark_free begin end s =
    if leb end begin
    then s
    else mark_frames bm_clear all_frames (align_down begin frame_size) (align_up end frame_size) s

-- The context of `max_cb`, with the memory that the walk reads.
pub record MaxCtx : Type 0 where
  pub mem : Mem
  pub max_end : ℕ

unfoldable pub max_cb : ℕ → ℕ → MaxCtx → MaxCtx
max_cb base len m =
    let end = u64 (base + len) in if ltb m.max_end end then record m { max_end = end } else m

unfoldable pub free_cb : ℕ → ℕ → Pmm → Pmm
free_cb base len s = frames_mark_free (u32 base) (u32 (u64 (base + len))) s

unfoldable pub max_pfn : Pmm → ℕ
max_pfn s = if s.frame_count == 0 then 0 else s.frame_count - 1

-- The loop of `pmm_alloc_frame`, with the number of frames left to try.
unfoldable pub alloc_from : ℕ → ℕ → Pmm → ℕ × Pmm
alloc_from zero pfn s = (0, s)
alloc_from (suc left) pfn s =
    let rest = alloc_from left (pfn + 1) s in
    if bm_get s pfn == 0 then (u32 (u32 pfn <<< frame_shift), bm_set s pfn) else rest

-- The address of the frame, or 0 where none is free.
unfoldable pub alloc_frame : Pmm → ℕ × Pmm
alloc_frame s = alloc_from (s.frame_count - 1) 1 s

unfoldable pub free_frame : ℕ → Pmm → Pmm
free_frame phys s =
    let pfn = phys_pfn phys in
    if not (bit_and phys (frame_size - 1) == 0)
    then s
    else if pfn == 0
    then s
    else if leb s.frame_count pfn
    then s
    else if bm_get s pfn == 0
    then s
    else bm_clear s pfn
