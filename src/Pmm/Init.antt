-- ===== src/Pmm/Init.antt =====
-- `pmm_init`. The bounds of the kernel's image come from the linker: they are parameters. The
-- memory map is read again after the bitmap is filled, from the memory as it is then.
pub mod Fill
pub mod Regions
pub mod Correct
use verve_os.Base.{
  ℕ, ◌+◌, ◌-◌, ◌/◌, Bool, true, false, not, ◌||◌, Option, none, some, ◌==◌, if◌then◌else◌, u32, u64,
  ◌>>>◌,
}
use verve_os.Base.Memory.{Mem, load32}
use verve_os.Mboot2.{for_each_available}
use verve_os.Pmm.{
  Pmm, MaxCtx, align_up, bm_set, bm_fill, frames_mark_used, max_cb, free_cb, frame_shift,
  frame_size,
}

-- The static variables when the bitmap is filled.
unfoldable pub sized : ℕ → Mem → ℕ → Pmm
sized image_end m max_end =
    let frames = u64 ((u64 (max_end - 1) >>> frame_shift) + 1) in
    record {
      mem = m;
      bitmap = align_up image_end frame_size;
      bitmap_byte_len = u32 (u64 (frames + 7) / 8);
      frame_count = frames;
    }

module _ (image_begin image_end info mb_info_phys : ℕ) where
  -- What is marked used after the free regions are known.
  unfoldable pub reserve : Pmm → Pmm
  reserve s =
      let s₁ = frames_mark_used image_begin image_end s in
      let s₂ = frames_mark_used mb_info_phys (u32 (mb_info_phys + load32 s₁.mem info)) s₁ in
      let s₃ = frames_mark_used s.bitmap (u32 (s.bitmap + s.bitmap_byte_len)) s₂ in bm_set s₃ 0

  -- The part of `pmm_init` after its second walk.
  finish : Option (Bool × Pmm) → Option (Bool × Pmm)
  finish none = none
  finish (some (done, s)) = if not done then some (false, s) else some (true, reserve s)

  -- `none` means that a walk of the memory map does not end.
  unfoldable pub init : Mem → Option (Bool × Pmm)
  unfolding finish
  init m =
      let unset : Pmm = record { mem = m; bitmap = 0; bitmap_byte_len = 0; frame_count = 0 } in
      elim (for_each_available (λ (c : MaxCtx). c.mem) max_cb info
        (record { mem = m; max_end = 0 })) [
          | none ↦ none
          | some (done, mx) ↦
              let s = sized image_end m mx.max_end in
              let freed =
                for_each_available (λ (t : Pmm). t.mem) free_cb info
                  (bm_fill 0xff s.bitmap_byte_len s) in
              if not done || mx.max_end == 0 then some (false, unset) else finish freed
        ]
