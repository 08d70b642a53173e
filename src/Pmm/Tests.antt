-- ===== src/Pmm/Tests.antt =====
-- The allocator on a machine with 8 MiB of RAM and the kernel at 1 MiB.
use verve_os.Base.{◌+◌, ◌^◌, ◌≡◌, ◌≢◌, ◌==◌, refl, List, [], ◌∷◌, arith, inl, if◌then◌else◌}
use verve_os.Base.Memory.{load8}
use verve_os.Mboot2.Sample.{sample_info, sample_mem, sample_tags, sample-HoldsInfo}
use verve_os.Pmm.{
  Pmm, align_up, bm_get, alloc_from, alloc_frame, free_frame, frames_mark_free, free_cb,
}
use verve_os.Pmm.Bitmap.{IsValid}
use verve_os.Pmm.Ranges.{frames_mark_free_lem, free_cb_above}
use verve_os.Pmm.Alloc.{HighUsed, Allocates, alloc_frame-Allocates, free_frame-alloc_frame}
use verve_os.Pmm.Clients.{Request, take, give, serve_all, IsSound, serve_all-IsSound}
use verve_os.Pmm.Init.{sized}
use verve_os.Pmm.Init.Correct.{Booted, IsBootable, init-Booted}

sample-IsBootable : IsBootable sample_mem 0x10_0000 0x12_0000 sample_info 80 sample_tags
unfolding sized align_up
sample-IsBootable = record {
  holds = sample-HoldsInfo;
  below = omega arith;
  low = omega arith;
  ram = omega arith;
  image = omega arith;
  apart = inl (omega arith);
}

init-Booted_example : Booted sample_mem 0x10_0000 0x12_0000 sample_info 80 sample_tags
init-Booted_example =
    init-Booted sample_mem 0x10_0000 0x12_0000 sample_info 80 sample_tags sample-IsBootable

-- Sixteen frames, the bitmap at address 64; frames 0, 1 and 3 are used.
abbrev small : Pmm
small = record {
  mem = λ a. if a == 64 then 0b1011 else 0;
  bitmap = 64;
  bitmap_byte_len = 2;
  frame_count = 16;
}

small-IsValid : IsValid small
small-IsValid = omega arith

small-HighUsed : HighUsed small
unfolding bm_get
small-HighUsed q h = ground arith

alloc_small : (alloc_frame small).0 ≡ 0x2000
unfolding alloc_frame alloc_from bm_get load8
alloc_small = refl

-- Three bytes free both frames.
frames_mark_free_lem_example : bm_get (frames_mark_free 0x2fff 0x3002 small) 3 ≡ 0
frames_mark_free_lem_example =
    frames_mark_free_lem 0x2fff 0x3002 small 3 small-IsValid (omega arith)

free_cb_above_example : free_cb (0x3000 + 2 ^ 32) 0x1000 small ≡ free_cb 0x3000 0x1000 small
free_cb_above_example = free_cb_above 0x3000 0x1000 small (omega arith)

alloc_frame-Allocates_example : Allocates small 1 (alloc_frame small)
alloc_frame-Allocates_example = alloc_frame-Allocates small small-HighUsed

small_alloc_ne_zero : (alloc_frame small).0 ≢ 0
small_alloc_ne_zero = ground (arith, alloc_small)

free_frame-alloc_frame_example :
    bm_get (free_frame (alloc_frame small).0 (alloc_frame small).1) 2 ≡ bm_get small 2
free_frame-alloc_frame_example =
    free_frame-alloc_frame small 2 small-IsValid small-HighUsed small_alloc_ne_zero

abbrev requests : List Request
requests = take ∷ take ∷ give 0 ∷ take ∷ []

serve_all-IsSound_example : IsSound (serve_all ([], small) requests)
serve_all-IsSound_example =
    serve_all-IsSound ([], small) requests
      (record { valid = small-IsValid; high = small-HighUsed; owned = tt })
