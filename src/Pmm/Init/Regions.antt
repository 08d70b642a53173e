-- ===== src/Pmm/Init/Regions.antt =====
-- The two callbacks of `pmm_init` over all available regions.
use verve_os.Base.{
  ℕ, ◌+◌, ◌-◌, ◌^◌, ◌≤◌, ◌≡◌, Bool, false, ◌&&◌, ◌||◌, List, [], ◌∷◌, arith, ltb, if◌then◌else◌,
  max,
}
use verve_os.Mboot2.Layout.{each_region}
use verve_os.Pmm.{Pmm, MaxCtx, bm_get, max_cb, free_cb}
use verve_os.Pmm.Bitmap.{IsValid, Within, Within-refl, Within-trans, Within-IsValid}
use verve_os.Pmm.Ranges.{touches, frames_mark_free-Within, frames_mark_free_lem}

-- Every region ends below the last page of the 32-bit address space.
abbrev pub IsLow : List (ℕ × ℕ) → Type 0
IsLow [] = Unit {0}
IsLow ((base, len) ∷ rs) = (base + len ≤ 2 ^ 32 - 4096) × IsLow rs

-- The end of the highest region.
abbrev pub highest : List (ℕ × ℕ) → ℕ
highest [] = 0
highest ((base, len) ∷ rs) = max (base + len) (highest rs)

-- Some region has bytes in the frame.
abbrev pub any_touches : List (ℕ × ℕ) → ℕ → Bool
any_touches [] q = false
any_touches ((base, len) ∷ rs) q = touches base (base + len) q || any_touches rs q

pub each_region-max_cb :
    (rs : List (ℕ × ℕ)) (c : MaxCtx)
    → IsLow rs
    → each_region max_cb rs c ≡ record c { max_end = max c.max_end (highest rs) }
unfolding max_cb
each_region-max_cb [] c low = ground arith
each_region-max_cb ((base, len) ∷ rs) c low =
    ground (arith, each_region-max_cb rs (max_cb base len c) low.1)

pub free_cb-Within : (base len : ℕ) (s : Pmm) → IsValid s → Within s (free_cb base len s)
unfolding free_cb
free_cb-Within base len s v = frames_mark_free-Within _ _ s v

pub each_region-Within :
    (rs : List (ℕ × ℕ)) (s : Pmm) → IsValid s → Within s (each_region free_cb rs s)
each_region-Within [] s v = Within-refl s
each_region-Within ((base, len) ∷ rs) s v =
    let first = free_cb-Within base len s v in
    Within-trans first (each_region-Within rs (free_cb base len s) (Within-IsValid first v))

free_cb_lem :
    (base len : ℕ) (s : Pmm) (q : ℕ)
    → IsValid s
    → base + len ≤ 2 ^ 32 - 4096
    → bm_get (free_cb base len s) q
      ≡ (if ltb q s.frame_count && touches base (base + len) q then 0 else bm_get s q)
unfolding free_cb
free_cb_lem base len s q v low = ground (arith, frames_mark_free_lem base (base + len) s q v)

-- A frame that some region touches is free afterwards, and the others are as before.
pub each_region-free_cb :
    (rs : List (ℕ × ℕ)) (s : Pmm) (q : ℕ)
    → IsValid s
    → IsLow rs
    → bm_get (each_region free_cb rs s) q
      ≡ (if ltb q s.frame_count && any_touches rs q then 0 else bm_get s q)
each_region-free_cb [] s q v low = ground arith
each_region-free_cb ((base, len) ∷ rs) s q v low =
    let first = free_cb-Within base len s v in
    ground (
      arith,
      first.frame_count,
      free_cb_lem base len s q v low.0,
      each_region-free_cb rs (free_cb base len s) q (Within-IsValid first v) low.1,
    )
