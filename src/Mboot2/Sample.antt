-- ===== src/Mboot2/Sample.antt =====
-- A small information structure: two regions of RAM in one memory map, and the end tag.
use verve_os.Base.{ℕ, ◌-◌, ◌/◌, ◌%◌, ◌^◌, refl, List, [], ◌∷◌, arith, ltb, if◌then◌else◌, get_or}
use verve_os.Base.Memory.{Mem, load8, load32, load64}
use verve_os.Mboot2.{Entry, entry_at}
use verve_os.Mboot2.Layout.{Tag, mmap, HoldsInfo}

-- A memory that holds the words from `start` on, and zeros elsewhere.
abbrev pub holding : ℕ → List ℕ → Mem
holding start words a =
    if ltb a start then 0 else get_or words ((a - start) / 4) 0 / 256 ^ ((a - start) % 4)

abbrev pub sample_info : ℕ
sample_info = 0x1_0000

abbrev pub sample_mem : Mem
sample_mem = holding sample_info (
    80 ∷ 0 ∷ 6 ∷ 64 ∷ 24 ∷ 0 ∷ 0 ∷ 0 ∷ 0x9_fc00 ∷ 0 ∷ 1 ∷ 0 ∷ 0x10_0000 ∷ 0 ∷ 0x70_0000 ∷ 0 ∷ 1 ∷ 0
    ∷ 0 ∷ 8 ∷ [])

abbrev pub sample_entries : List Entry
sample_entries =
    record { base = 0; length = 0x9_fc00; type = 1 }
    ∷ record { base = 0x10_0000; length = 0x70_0000; type = 1 }
    ∷ []

abbrev pub sample_tags : List Tag
sample_tags = mmap 64 24 sample_entries ∷ []

pub sample-HoldsInfo : HoldsInfo sample_mem sample_info 80 sample_tags
unfolding load32 load8 entry_at load64
sample-HoldsInfo = (
  refl,
  omega arith,
  refl,
  (
    (
      refl,
      refl,
      omega arith,
      omega arith,
      omega arith,
      omega arith,
      omega arith,
      (refl, (refl, tt)),
    ),
    refl,
    refl,
    omega arith,
    omega arith,
    (refl, refl, omega arith),
  ),
)
