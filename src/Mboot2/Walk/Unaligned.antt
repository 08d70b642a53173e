-- ===== src/Mboot2/Walk/Unaligned.antt =====
-- `mb2_for_each_available` on a structure with a tag whose size is not a multiple of 8.
use verve_os.Base.{
  ℕ, zero, suc, ◌+◌, ◌%◌, ◌^◌, ◌≤◌, ◌<◌, ◌≡◌, ◌≢◌, true, false, some, List, [], ◌∷◌, arith,
}
use verve_os.Base.Bits.{bit_and_seven}
use verve_os.Base.Memory.{Mem, load32}
use verve_os.Mboot2.{
  avail_walk, scan_tags, scan_info, visit_mmap, walk_mmap_entries, for_each_available,
}
use verve_os.Mboot2.Layout.{Tag, tag_size, HoldsTag, regions, each_region}
use verve_os.Mboot2.Walk.{regions-cons, type-ne-zero, each_region-Inv, visit_mmap_lem}

-- The tags from `p` on, with sizes that are multiples of 8, and behind them one whose size is not.
abbrev pub HoldsUntil : Mem → ℕ → ℕ → List Tag → Type 0
HoldsUntil m p limit [] = (load32 m (p + 4) % 8 ≢ 0) × (p + 8 ≤ limit)
HoldsUntil m p limit (t ∷ ts) =
    HoldsTag m p t
    × (load32 m (p + 4) ≡ tag_size t)
    × (tag_size t % 8 ≡ 0)
    × (8 ≤ tag_size t)
    × (p + tag_size t ≤ limit)
    × HoldsUntil m (p + tag_size t) limit ts

abbrev pub HoldsUnaligned : Mem → ℕ → ℕ → List Tag → Type 0
HoldsUnaligned m info total tags =
    (load32 m info ≡ total)
    × (16 ≤ total)
    × (total % 8 ≡ 0)
    × HoldsUntil m (info + 8) (info + total) tags

module _ {S : Type 0} (memory : S → Mem) (fn : ℕ → ℕ → S → S) (Inv : S → Type 0)
    (keeps : (base len : ℕ) (s : S) → Inv s → Inv (fn base len s)) where
  scan_tags_until :
      (limit total : ℕ)
      → limit + total < 2 ^ 32
      → (fuel p : ℕ) (ts : List Tag) (s : S) → limit < p + fuel
      → limit ≤ p + total
      → Inv s
      → ((r : S) → Inv r → HoldsUntil (memory r) p limit ts)
      → scan_tags memory true (visit_mmap memory (avail_walk memory fn)) fuel p limit s
        ≡ some (false, each_region fn (regions ts) s)
  unfolding scan_tags
  scan_tags_until limit total small zero p [] s f near v holds = absurd (omega (arith, holds s v))
  scan_tags_until limit total small zero p (t ∷ ts) s f near v holds =
      absurd (omega (arith, holds s v))
  scan_tags_until limit total small (suc fuel) p [] s f near v holds =
      ground (arith, holds s v, bit_and_seven (load32 (memory s) (p + 4)))
  scan_tags_until limit total small (suc fuel) p (t ∷ ts) s f near v holds =
      let h = holds s v in
      let after = each_region fn (regions (t ∷ [])) s in
      let rest =
        scan_tags_until limit total small fuel (p + tag_size t) ts after (omega (arith, h))
          (omega arith) (each_region-Inv memory fn Inv keeps (regions (t ∷ [])) s v)
          (λ r w. (holds r w).5) in
      ground (
        arith,
        h,
        type-ne-zero (memory s) p t h.0,
        bit_and_seven (tag_size t),
        visit_mmap_lem memory fn Inv keeps limit total small p t s h.4 (omega (arith, h)) v
            (λ r w. (holds r w).0),
        rest,
        regions-cons fn t ts s,
      )

  -- On a memory that holds tags with sizes that are multiples of 8, and behind them a tag whose size is
  -- not, in a structure low enough for twice its length to fit below 4 GiB, also while the callback writes
  -- elsewhere, `mb2_for_each_available` returns false: it has called the callback on the available regions
  -- of nonzero length of the tags before that one, in order, and on none behind it.
  pub for_each_available_unaligned :
      (info total : ℕ) (tags : List Tag) (s : S)
      → info + total + total < 2 ^ 32
      → Inv s
      → ((r : S) → Inv r → HoldsUnaligned (memory r) info total tags)
      → for_each_available memory fn info s ≡ some (false, each_region fn (regions tags) s)
  unfolding for_each_available walk_mmap_entries scan_info
  for_each_available_unaligned info total tags s small v holds = ground (
    arith,
    (holds s v).0,
    (holds s v).1,
    (holds s v).2,
    bit_and_seven total,
    scan_tags_until (info + total) total small (suc total) (info + 8) tags s (omega arith)
        (omega arith) v (λ r w. (holds r w).3),
  )
