-- ===== src/Heap/Blocks.antt =====
-- Blocks of the arena, the list of the free ones in memory, and what a store leaves of them.
use verve_os.Base.{
  ℕ, ◌+◌, ◌%◌, ◌^◌, ◌≤◌, ◌<◌, ◌≡◌, ◌≢◌, ◌&&◌, arith, ltb, leb, if◌then◌else◌, List, [], ◌∷◌,
}
use verve_os.Base.Memory.{Mem, load32, store32}
use verve_os.Base.Words.{load32-store32_if}

-- A block: the address of its header, and its size.
pub record Block : Type 0 where
  pub start : ℕ
  pub total : ℕ

abbrev pub holds_place : Block → ℕ → ℕ
holds_place x c = if leb x.start c && ltb c (x.start + x.total) then 1 else 0

-- How many of the blocks hold the address `c`.
abbrev pub cover : List Block → ℕ → ℕ
cover [] c = 0
cover (x ∷ xs) c = holds_place x c + cover xs c

abbrev pub sum_totals : List Block → ℕ
sum_totals [] = 0
sum_totals (x ∷ xs) = x.total + sum_totals xs

module _ (base : ℕ) where
  -- The memory has the header of the block, which lies in the arena.
  pub record IsBlock (m : Mem) (x : Block) : Type 0 where
    pub header : load32 m x.start ≡ x.total
    pub aligned : x.start % 16 ≡ 0
    pub large : 32 ≤ x.total
    pub above : base ≤ x.start
    pub below : x.start + x.total ≤ base + 0x4_0000

  abbrev pub AreBlocks : Mem → List Block → Type 0
  AreBlocks m [] = Unit {0}
  AreBlocks m (x ∷ xs) = IsBlock m x × AreBlocks m xs

  -- The blocks are those of the list that starts at `b`, in order.
  abbrev pub Linked : Mem → ℕ → List Block → Type 0
  Linked m b [] = b ≡ 0
  Linked m b (x ∷ xs) = (b ≡ x.start) × IsBlock m x × Linked m (load32 m (x.start + 16)) xs

  module _ (m : Mem) (w v : ℕ) (low : base + 0x4_0000 ≤ 2 ^ 32) (aligned : w % 16 ≡ 0)
      (inside : w < 2 ^ 32) (small : v < 2 ^ 32) where
    pub IsBlock-store : (x : Block) → w ≢ x.start → IsBlock m x → IsBlock (store32 m w v) x
    IsBlock-store x apart is = record {
      header =
          let same =
            load32-store32_if m w v x.start (omega arith) (omega (arith, is.aligned)) inside
              (omega (arith, is.below, is.large)) small in
          ground (arith, is.header);
      aligned = is.aligned;
      large = is.large;
      above = is.above;
      below = is.below;
    }

    pub AreBlocks-store :
        (xs : List Block) → cover xs w ≡ 0 → AreBlocks m xs → AreBlocks (store32 m w v) xs
    AreBlocks-store [] free are = tt
    AreBlocks-store (x ∷ xs) free (is, others) =
        (IsBlock-store x (ground (arith, is.large)) is, AreBlocks-store xs (ground arith) others)

    pub link-store :
        (x : Block)
        → w ≢ x.start + 16
        → IsBlock m x
        → load32 (store32 m w v) (x.start + 16) ≡ load32 m (x.start + 16)
    link-store x apart is =
        let same =
          load32-store32_if m w v (x.start + 16) (omega arith) (omega (arith, is.aligned)) inside
            (omega (arith, is.below, is.large)) small in
        ground arith

    pub Linked-store :
        (b : ℕ) (xs : List Block) → cover xs w ≡ 0 → Linked m b xs → Linked (store32 m w v) b xs
    Linked-store b [] free linked = linked
    Linked-store b (x ∷ xs) free (here, is, others) =
        let same = link-store x (ground (arith, is.large)) is in
        (
          here,
          IsBlock-store x (ground (arith, is.large)) is,
          rw (same) (Linked-store (load32 m (x.start + 16)) xs (ground arith) others),
        )
