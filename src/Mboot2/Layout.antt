-- ===== src/Mboot2/Layout.antt =====
-- The Multiboot2 information structure as a list of tags, and when a memory holds one.
use verve_os.Base.{
  ℕ, ◌+◌, ◌*◌, ◌%◌, ◌≤◌, ◌<◌, ◌≡◌, ◌≢◌, ◌&&◌, not, List, [], ◌∷◌, ◌++◌, ◌==◌, if◌then◌else◌, length,
}
use verve_os.Base.Memory.{Mem, load32}
use verve_os.Mboot2.{Entry, entry_at}

-- A tag that some walk reads inside, or any other with its type and size.
pub data Tag : Type 0 where
  mmap : (size entry_size : ℕ) → List Entry → Tag
  meminfo : (lower_kb upper_kb : ℕ) → Tag
  other : (type size : ℕ) → Tag

abbrev pub tag_size : Tag → ℕ
tag_size (mmap size entry_size entries) = size
tag_size (meminfo lower_kb upper_kb) = 16
tag_size (other type size) = size

abbrev pub HoldsEntries : Mem → ℕ → ℕ → List Entry → Type 0
HoldsEntries m e entry_size [] = Unit {0}
HoldsEntries m e entry_size (x ∷ xs) =
    (entry_at m e ≡ x) × HoldsEntries m (e + entry_size) entry_size xs

-- The entries are those that fit into the tag, at least one.
abbrev pub HoldsTag : Mem → ℕ → Tag → Type 0
HoldsTag m p (mmap size entry_size entries) =
    (load32 m p ≡ 6)
    × (load32 m (p + 8) ≡ entry_size)
    × (24 ≤ entry_size)
    × (40 ≤ size)
    × (entry_size ≤ size)
    × (16 + length entries * entry_size ≤ size)
    × (size < 16 + length entries * entry_size + entry_size)
    × HoldsEntries m (p + 16) entry_size entries
HoldsTag m p (meminfo lower_kb upper_kb) =
    (load32 m p ≡ 4) × (load32 m (p + 8) ≡ lower_kb) × (load32 m (p + 12) ≡ upper_kb)
HoldsTag m p (other type size) = (load32 m p ≡ type) × (type ≢ 0) × (type ≢ 4) × (type ≢ 6)

-- The tags from `p` on, closed by the end tag below `limit`.
abbrev pub HoldsTags : Mem → ℕ → ℕ → List Tag → Type 0
HoldsTags m p limit [] = (load32 m p ≡ 0) × (load32 m (p + 4) ≡ 8) × (p + 8 ≤ limit)
HoldsTags m p limit (t ∷ ts) =
    HoldsTag m p t
    × (load32 m (p + 4) ≡ tag_size t)
    × (tag_size t % 8 ≡ 0)
    × (8 ≤ tag_size t)
    × (p + tag_size t ≤ limit)
    × HoldsTags m (p + tag_size t) limit ts

-- A whole structure, its header included.
abbrev pub HoldsInfo : Mem → ℕ → ℕ → List Tag → Type 0
HoldsInfo m info total tags =
    (load32 m info ≡ total)
    × (16 ≤ total)
    × (total % 8 ≡ 0)
    × HoldsTags m (info + 8) (info + total) tags

-- The available regions of nonzero length, in order.
abbrev pub available : List Entry → List (ℕ × ℕ)
available [] = []
available (x ∷ xs) =
    if x.type == 1 && not (x.length == 0) then (x.base, x.length) ∷ available xs else available xs

abbrev pub regions : List Tag → List (ℕ × ℕ)
regions [] = []
regions (mmap size entry_size entries ∷ ts) = available entries ++ regions ts
regions (meminfo lower_kb upper_kb ∷ ts) = regions ts
regions (other type size ∷ ts) = regions ts

-- A callback run on each region in turn.
abbrev pub each_region {ℓ} : {S : Type ℓ} → (ℕ → ℕ → S → S) → List (ℕ × ℕ) → S → S
each_region fn [] s = s
each_region fn ((base, len) ∷ rs) s = each_region fn rs (fn base len s)
