-- ===== src/Pmm/Init/Correct.antt =====
-- `pmm_init` on a memory that holds a memory map: it succeeds, and which frames it leaves free.
use verve_os.Base.{
  ℕ, ◌+◌, ◌-◌, ◌*◌, ◌/◌, ◌^◌, ◌≤◌, ◌<◌, ◌≡◌, ◌⊎◌, ◌∙◌, Bool, true, ◌&&◌, ◌||◌, some, List, [], ◌∷◌,
  refl, arith, ltb, ◌==◌, if◌then◌else◌, ap,
}
use verve_os.Base.Memory.{Mem}
use verve_os.Mboot2.{for_each_available}
use verve_os.Mboot2.Layout.{Tag, HoldsInfo, regions, each_region}
use verve_os.Mboot2.Walk.{for_each_available_lem}
use verve_os.Mboot2.Agree.{HoldsInfo-Agree}
use verve_os.Pmm.{Pmm, MaxCtx, bm_set, bm_get, bm_fill, frames_mark_used, max_cb, free_cb}
use verve_os.Pmm.Bitmap.{
  IsValid, Within, Within-trans, Within-IsValid, bm_get-bm_set, bm_set-Within, bm_get-outside,
}
use verve_os.Pmm.Ranges.{touches, align_up_lem, frames_mark_used-Within, frames_mark_used_lem}
use verve_os.Pmm.Alloc.{HighUsed}
use verve_os.Pmm.Init.{sized, reserve, init}
use verve_os.Pmm.Init.Fill.{bm_fill-Within, bm_get-bm_fill}
use verve_os.Pmm.Init.Regions.{
  IsLow, highest, any_touches, each_region-max_cb, each_region-free_cb, each_region-Within,
  free_cb-Within,
}

-- What the boot loader and the linker provide: the structure lies below the last page, all RAM
-- below 4 GiB, the image in the lower half, and the bitmap that follows it clear of the structure.
pub record IsBootable (m : Mem) (image_begin image_end info total : ℕ) (tags : List Tag)
    : Type 0 where
  pub holds : HoldsInfo m info total tags
  pub below : info + total + total < 2 ^ 32 - 4096
  pub low : IsLow (regions tags)
  pub ram : 0 < highest (regions tags)
  pub image : image_end ≤ 2 ^ 31
  pub apart :
      let s = sized image_end m (highest (regions tags)) in
      (info + total ≤ s.bitmap) ⊎ (s.bitmap + s.bitmap_byte_len ≤ info)

-- The frames that stay used: frame 0, and those with bytes of the image, of the information
-- structure or of the bitmap itself.
abbrev pub reserved : Pmm → ℕ → ℕ → ℕ → ℕ → ℕ → Bool
reserved s image_begin image_end info total q =
    q == 0
    || touches image_begin image_end q
    || touches info (info + total) q
    || touches s.bitmap (s.bitmap + s.bitmap_byte_len) q

-- A successful return of `pmm_init`, with what it leaves.
pub record Booted (m : Mem) (image_begin image_end info total : ℕ) (tags : List Tag) : Type 0 where
  pub state : Pmm
  pub returns : init image_begin image_end info info m ≡ some (true, state)
  pub valid : IsValid state
  pub frames : state.frame_count ≡ (highest (regions tags) - 1) / 4096 + 1
  pub high : HighUsed state
  pub kept : HoldsInfo state.mem info total tags
  pub bits :
      (q : ℕ)
      → q < state.frame_count
      → bm_get state q ≡ (
          if reserved state image_begin image_end info total q
          then 1
          else if any_touches (regions tags) q
          then 0
          else 1)

highest-low : (rs : List (ℕ × ℕ)) → IsLow rs → highest rs ≤ 2 ^ 32 - 4096
highest-low [] low = omega arith
highest-low ((base, len) ∷ rs) low = omega (arith, highest-low rs low.1)

mem-max_cb : (base len : ℕ) (c : MaxCtx) → (max_cb base len c).mem ≡ c.mem
unfolding max_cb
mem-max_cb base len c = ground arith

module _ (m : Mem) (image_begin image_end info total : ℕ) (tags : List Tag)
    (b : IsBootable m image_begin image_end info total tags) where
  abbrev start : Pmm
  start = sized image_end m (highest (regions tags))

  start_lem :
      (start.bitmap ≡ (image_end + 4095) / 4096 * 4096)
      × (start.frame_count ≡ (highest (regions tags) - 1) / 4096 + 1)
      × (start.bitmap_byte_len ≡ (start.frame_count + 7) / 8)
      × (start.frame_count ≤ 2 ^ 20)
  unfolding sized
  start_lem =
      ground (arith, align_up_lem image_end, highest-low (regions tags) b.low, b.image, b.ram)

  start-IsValid : IsValid start
  start-IsValid = omega (arith, start_lem, b.image)

  -- The bitmap's bytes are none of the structure's, which can so be read again.
  still-holds : (t : Pmm) → Within start t → HoldsInfo t.mem info total tags
  unfolding sized
  still-holds t w =
      HoldsInfo-Agree m t.mem info total tags
        (λ a lo hi. w.outside a (omega (arith, b.below)) (ground (arith, b.apart))) b.holds

  abbrev filled : Pmm
  filled = bm_fill 0xff start.bitmap_byte_len start

  abbrev freed : Pmm
  freed = each_region free_cb (regions tags) filled

  freed-Within : Within start freed
  freed-Within =
      let fill = bm_fill-Within start start-IsValid 0xff in
      Within-trans fill
        (each_region-Within (regions tags) filled (Within-IsValid fill start-IsValid))

  first_walk :
      for_each_available (λ (c : MaxCtx). c.mem) max_cb info (record { mem = m; max_end = 0 })
      ≡ some (true, record { mem = m; max_end = highest (regions tags) })
  first_walk =
      for_each_available_lem (λ (c : MaxCtx). c.mem) max_cb (λ c. c.mem ≡ m)
        (λ base len c e. ground (arith, mem-max_cb base len c)) info total tags
        (record { mem = m; max_end = 0 }) (omega (arith, b.below)) refl (λ r e. rw e b.holds)
      ∙ ap (λ (c : MaxCtx). some (true, c))
          (each_region-max_cb (regions tags) _ b.low ∙ ground arith)

  second_walk : for_each_available (λ (t : Pmm). t.mem) free_cb info filled ≡ some (true, freed)
  second_walk =
      for_each_available_lem (λ (t : Pmm). t.mem) free_cb (λ t. Within start t)
        (λ base len t w.
          Within-trans w (free_cb-Within base len t (Within-IsValid w start-IsValid)))
        info total tags filled (omega (arith, b.below)) (bm_fill-Within start start-IsValid 0xff)
        still-holds

  init-ok :
      init image_begin image_end info info m
      ≡ some (true, reserve image_begin image_end info info freed)
  unfolding init
  init-ok = ground (arith, first_walk, second_walk, b.ram)

  -- The ranges that stay used: the image, the structure and the bitmap.
  module _ (s : Pmm) (w : Within start s) where
    abbrev s₁ : Pmm
    s₁ = frames_mark_used image_begin image_end s

    abbrev s₂ : Pmm
    s₂ = frames_mark_used info (info + total) s₁

    abbrev s₃ : Pmm
    s₃ = frames_mark_used start.bitmap (start.bitmap + start.bitmap_byte_len) s₂

    v : IsValid s
    v = Within-IsValid w start-IsValid

    w₁ : Within s s₁
    w₁ = frames_mark_used-Within image_begin image_end s v

    w₂ : Within s s₂
    w₂ = Within-trans w₁ (frames_mark_used-Within info (info + total) s₁ (Within-IsValid w₁ v))

    w₃ : Within s s₃
    w₃ = Within-trans w₂ (frames_mark_used-Within _ _ s₂ (Within-IsValid w₂ v))

    reserve_steps : reserve image_begin image_end info info s ≡ bm_set s₃ 0
    unfolding reserve
    reserve_steps =
        ground (arith, (still-holds s₁ (Within-trans w w₁)).0, w, start_lem, b.below, b.image)

    reserve-Within : Within s (reserve image_begin image_end info info s)
    reserve-Within = rw reserve_steps (Within-trans w₃ (bm_set-Within s₃ 0 (Within-IsValid w₃ v)))

    reserve_lem :
        (q : ℕ)
        → bm_get (reserve image_begin image_end info info s) q ≡ (
            if q == 0
              || touches image_begin image_end q
              || touches info (info + total) q
              || touches start.bitmap (start.bitmap + start.bitmap_byte_len) q
            then 1
            else bm_get s q)
    reserve_lem q = rw reserve_steps (
        ground (
          arith,
          bm_get-bm_set s₃ 0 q (Within-IsValid w₃ v),
          frames_mark_used_lem start.bitmap (start.bitmap + start.bitmap_byte_len) s₂ q
              (Within-IsValid w₂ v) (omega (arith, start_lem, b.image)),
          frames_mark_used_lem info (info + total) s₁ q (Within-IsValid w₁ v)
              (omega (arith, b.below)),
          frames_mark_used_lem image_begin image_end s q v (omega (arith, b.image)),
        ))

  abbrev booted : Pmm
  booted = reserve image_begin image_end info info freed

  booted-Within : Within start booted
  booted-Within = Within-trans freed-Within (reserve-Within freed freed-Within)

  freed_bit :
      (q : ℕ)
      → bm_get freed q ≡ (if ltb q start.frame_count && any_touches (regions tags) q then 0 else 1)
  freed_bit q =
      let fill = bm_fill-Within start start-IsValid 0xff in
      ground (
        arith,
        fill.frame_count,
        each_region-free_cb (regions tags) filled q (Within-IsValid fill start-IsValid) b.low,
        bm_get-bm_fill start start-IsValid q,
      )

  -- Take a memory that holds an information structure whose tags all have a size that is a multiple of
  -- 8, padding included, and whose memory maps have an entry each; it ends low enough for twice its
  -- length to fit below the last page of 4 GiB; RAM lies below that page, the image in the lower half,
  -- and the bitmap clear of the structure. Then `pmm_init` returns true. A frame below the end is free
  -- exactly if an available region has bytes in it and it is neither frame 0 nor has bytes of the image,
  -- of the structure or of the bitmap; `frame_count` ends at the highest region, frames past 4 GiB are
  -- used, the bitmap is valid, and the memory still holds a structure with the same tags.
  pub init-Booted : Booted m image_begin image_end info total tags
  init-Booted = record {
    state = booted;
    returns = init-ok;
    valid = Within-IsValid booted-Within start-IsValid;
    frames = booted-Within.frame_count ∙ start_lem.1;
    high = λ q h. bm_get-outside booted q (omega (arith, booted-Within.frame_count, start_lem));
    kept = still-holds booted booted-Within;
    bits = λ q h. ground (arith, booted-Within, reserve_lem freed freed-Within q, freed_bit q);
  }
