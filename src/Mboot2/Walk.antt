-- ===== src/Mboot2/Walk.antt =====
-- `mb2_for_each_available` on a memory that holds an information structure: it returns true and has
-- called the callback on every available region, in order, also where the callback writes memory.
pub mod Unaligned
use verve_os.Base.{
  ℕ, zero, suc, ◌+◌, ◌*◌, ◌^◌, ◌≤◌, ◌<◌, ◌≡◌, ◌≢◌, refl, true, some, List, [], ◌∷◌, ◌++◌,
  append-nil, arith, length,
}
use verve_os.Base.Bits.{bit_and_seven}
use verve_os.Base.Memory.{Mem, load32}
use verve_os.Mboot2.{
  Entry, go_on, avail_walk, walk_entries, scan_tags, scan_info, visit_mmap, walk_mmap_entries,
  for_each_available,
}
use verve_os.Mboot2.Layout.{
  Tag, mmap, meminfo, other, tag_size, HoldsEntries, HoldsTag, HoldsTags, HoldsInfo, available,
  regions, each_region,
}

each_region-append {ℓ} :
    {S : Type ℓ} (fn : ℕ → ℕ → S → S) (xs ys : List (ℕ × ℕ)) (s : S)
    → each_region fn (xs ++ ys) s ≡ each_region fn ys (each_region fn xs s)
each_region-append fn [] ys s = refl
each_region-append fn ((b, l) ∷ xs) ys s = each_region-append fn xs ys (fn b l s)

regions-cons {ℓ} :
    {S : Type ℓ} (fn : ℕ → ℕ → S → S) (t : Tag) (ts : List Tag) (s : S)
    → each_region fn (regions (t ∷ ts)) s
      ≡ each_region fn (regions ts) (each_region fn (regions (t ∷ [])) s)
regions-cons fn (mmap size entry_size xs) ts s =
    rw append-nil (each_region-append fn (available xs) (regions ts) s)
regions-cons fn (meminfo lower upper) ts s = refl
regions-cons fn (other type size) ts s = refl

type-ne-zero : (m : Mem) (p : ℕ) (t : Tag) → HoldsTag m p t → load32 m p ≢ 0
type-ne-zero m p (mmap size entry_size xs) h = ground arith
type-ne-zero m p (meminfo lower upper) h = ground arith
type-ne-zero m p (other type size) h = ground arith

fewer-than-size : (n k size : ℕ) → 24 ≤ k → 16 + n * k ≤ size → n < suc size
fewer-than-size n k size h fits = grind arith

module _ {S : Type 0} (memory : S → Mem) (fn : ℕ → ℕ → S → S) (Inv : S → Type 0)
    (keeps : (base len : ℕ) (s : S) → Inv s → Inv (fn base len s)) where
  pub each_region-Inv : (rs : List (ℕ × ℕ)) (s : S) → Inv s → Inv (each_region fn rs s)
  each_region-Inv [] s v = v
  each_region-Inv ((b, l) ∷ rs) s v = each_region-Inv rs (fn b l s) (keeps b l s v)

  avail_walk-Inv : (x : Entry) (s : S) → Inv s → Inv (avail_walk memory fn x s).1
  unfolding avail_walk
  avail_walk-Inv x s v = ground (arith, keeps x.base x.length s v)

  walk_entries_lem :
      (fuel e limit entry_size : ℕ) (xs : List Entry) (s : S)
      → length xs < fuel
      → e + length xs * entry_size ≤ limit
      → limit < e + length xs * entry_size + entry_size
      → limit + entry_size < 2 ^ 32
      → Inv s
      → ((t : S) → Inv t → HoldsEntries (memory t) e entry_size xs)
      → walk_entries memory (avail_walk memory fn) fuel e limit entry_size s
        ≡ some (true, each_region fn (available xs) s)
  unfolding walk_entries avail_walk
  walk_entries_lem zero e limit entry_size xs s f lo hi small v holds = absurd (omega arith)
  walk_entries_lem (suc fuel) e limit entry_size [] s f lo hi small v holds = ground arith
  walk_entries_lem (suc fuel) e limit entry_size (x ∷ xs) s f lo hi small v holds = ground (
    arith,
    holds s v,
    walk_entries_lem fuel (e + entry_size) limit entry_size xs (avail_walk memory fn x s).1
        (omega arith) (omega arith) (omega arith) small (avail_walk-Inv x s v)
        (λ t w. (holds t w).1),
  )

  -- `total` bounds the sizes, so that no pointer wraps.
  module _ (limit total : ℕ) (small : limit + total < 2 ^ 32) where
    visit_mmap_lem :
        (p : ℕ) (t : Tag) (s : S)
        → p + tag_size t ≤ limit
        → tag_size t ≤ total
        → Inv s
        → ((r : S) → Inv r → HoldsTag (memory r) p t)
        → visit_mmap memory (avail_walk memory fn) (load32 (memory s) p) p (tag_size t) s
          ≡ some (go_on (each_region fn (regions (t ∷ [])) s))
    unfolding visit_mmap
    visit_mmap_lem p (mmap size entry_size xs) s h k v holds = ground (
      arith,
      holds s v,
      append-nil (available xs),
      walk_entries_lem (suc size) (p + 16) (p + size) entry_size xs s
          (fewer-than-size (length xs) entry_size size (omega (arith, holds s v))
            (omega (arith, holds s v)))
          (omega (arith, holds s v)) (omega (arith, holds s v)) (omega (arith, holds s v)) v
          (λ r w. (holds r w).7),
    )
    visit_mmap_lem p (meminfo lower upper) s h k v holds = ground (arith, holds s v)
    visit_mmap_lem p (other type size) s h k v holds = ground (arith, holds s v)

    scan_tags_lem :
        (fuel p : ℕ) (ts : List Tag) (s : S)
        → limit < p + fuel
        → limit ≤ p + total
        → Inv s
        → ((r : S) → Inv r → HoldsTags (memory r) p limit ts)
        → scan_tags memory true (visit_mmap memory (avail_walk memory fn)) fuel p limit s
          ≡ some (true, each_region fn (regions ts) s)
    unfolding scan_tags
    scan_tags_lem zero p [] s f near v holds = absurd (omega (arith, holds s v))
    scan_tags_lem zero p (t ∷ ts) s f near v holds = absurd (omega (arith, holds s v))
    scan_tags_lem (suc fuel) p [] s f near v holds = ground (arith, holds s v, bit_and_seven 8)
    scan_tags_lem (suc fuel) p (t ∷ ts) s f near v holds =
        let h = holds s v in
        let after = each_region fn (regions (t ∷ [])) s in
        let rest =
          scan_tags_lem fuel (p + tag_size t) ts after (omega (arith, h)) (omega arith)
            (each_region-Inv (regions (t ∷ [])) s v) (λ r w. (holds r w).5) in
        ground (
          arith,
          h,
          type-ne-zero (memory s) p t h.0,
          bit_and_seven (tag_size t),
          visit_mmap_lem p t s h.4 (omega (arith, h)) v (λ r w. (holds r w).0),
          rest,
          regions-cons fn t ts s,
        )

  -- On a memory that holds an information structure whose tags all have a size that is a multiple of 8,
  -- padding included, and whose memory maps have an entry each, low enough for twice its length to fit
  -- below 4 GiB, also while the callback writes elsewhere, `mb2_for_each_available` returns true after it
  -- has called the callback on every available region of nonzero length, in the order of the memory maps.
  pub for_each_available_lem :
      (info total : ℕ) (tags : List Tag) (s : S)
      → info + total + total < 2 ^ 32
      → Inv s
      → ((r : S) → Inv r → HoldsInfo (memory r) info total tags)
      → for_each_available memory fn info s ≡ some (true, each_region fn (regions tags) s)
  unfolding for_each_available walk_mmap_entries scan_info
  for_each_available_lem info total tags s small v holds = ground (
    arith,
    (holds s v).0,
    (holds s v).1,
    (holds s v).2,
    bit_and_seven total,
    scan_tags_lem (info + total) total small (suc total) (info + 8) tags s (omega arith)
        (omega arith) v (λ r w. (holds r w).3),
  )
