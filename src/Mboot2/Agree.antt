-- ===== src/Mboot2/Agree.antt =====
-- Whether a memory holds an information structure depends on the bytes of the structure only.
use verve_os.Base.{ℕ, ◌+◌, ◌*◌, ◌≤◌, ◌≡◌, ◌∙◌, List, [], ◌∷◌, arith, length}
use verve_os.Base.Memory.{Mem, Agree, load32-Agree, load64-Agree}
use verve_os.Mboot2.{Entry, entry_at}
use verve_os.Mboot2.Layout.{
  Tag, mmap, meminfo, other, tag_size, HoldsEntries, HoldsTag, HoldsTags, HoldsInfo,
}

module _ (m m' : Mem) (lo hi : ℕ) (same : Agree m m' lo hi) where
  entry_at-Agree : (e : ℕ) → lo ≤ e → e + 20 ≤ hi → entry_at m' e ≡ entry_at m e
  unfolding entry_at
  entry_at-Agree e h k = ground (
    arith,
    load64-Agree m m' lo hi same e,
    load64-Agree m m' lo hi same (e + 8),
    load32-Agree m m' lo hi same (e + 16),
  )

  HoldsEntries-Agree :
      (e entry_size : ℕ) (xs : List Entry)
      → lo ≤ e
      → 24 ≤ entry_size
      → e + length xs * entry_size ≤ hi
      → HoldsEntries m e entry_size xs
      → HoldsEntries m' e entry_size xs
  HoldsEntries-Agree e entry_size [] h big k held = tt
  HoldsEntries-Agree e entry_size (x ∷ xs) h big k held = (
    entry_at-Agree e h (grind arith) ∙ held.0,
    HoldsEntries-Agree (e + entry_size) entry_size xs (omega arith) big (omega arith) held.1,
  )

  HoldsTag-Agree :
      (p : ℕ) (t : Tag)
      → lo ≤ p
      → 8 ≤ tag_size t
      → p + tag_size t ≤ hi
      → HoldsTag m p t
      → HoldsTag m' p t
  HoldsTag-Agree p (mmap size entry_size xs) h k fits held = (
    load32-Agree m m' lo hi same p h (omega arith) ∙ held.0,
    load32-Agree m m' lo hi same (p + 8) (omega arith) (omega arith) ∙ held.1,
    held.2,
    held.3,
    held.4,
    held.5,
    held.6,
    HoldsEntries-Agree (p + 16) entry_size xs (omega arith) held.2 (omega arith) held.7,
  )
  HoldsTag-Agree p (meminfo lower upper) h k fits held = (
    load32-Agree m m' lo hi same p h (omega arith) ∙ held.0,
    load32-Agree m m' lo hi same (p + 8) (omega arith) (omega arith) ∙ held.1,
    load32-Agree m m' lo hi same (p + 12) (omega arith) (omega arith) ∙ held.2,
  )
  HoldsTag-Agree p (other type size) h k fits held =
      (load32-Agree m m' lo hi same p h (omega arith) ∙ held.0, held.1, held.2, held.3)

  HoldsTags-Agree : (p : ℕ) (ts : List Tag) → lo ≤ p → HoldsTags m p hi ts → HoldsTags m' p hi ts
  HoldsTags-Agree p [] h held = (
    load32-Agree m m' lo hi same p h (omega arith) ∙ held.0,
    load32-Agree m m' lo hi same (p + 4) (omega arith) (omega arith) ∙ held.1,
    held.2,
  )
  HoldsTags-Agree p (t ∷ ts) h held = (
    HoldsTag-Agree p t h held.3 held.4 held.0,
    load32-Agree m m' lo hi same (p + 4) (omega arith) (omega arith) ∙ held.1,
    held.2,
    held.3,
    held.4,
    HoldsTags-Agree (p + tag_size t) ts (omega arith) held.5,
  )

pub HoldsInfo-Agree :
    (m m' : Mem) (info total : ℕ) (tags : List Tag)
    → Agree m m' info (info + total)
    → HoldsInfo m info total tags
    → HoldsInfo m' info total tags
HoldsInfo-Agree m m' info total tags same held = (
  load32-Agree m m' info (info + total) same info (omega arith) (omega arith) ∙ held.0,
  held.1,
  held.2,
  HoldsTags-Agree m m' info (info + total) same (info + 8) tags (omega arith) held.3,
)
