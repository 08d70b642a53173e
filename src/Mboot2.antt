-- ===== src/Mboot2.antt =====
-- kernel/mboot2.c: the walks over the Multiboot2 information structure.
-- Pointers are 32-bit addresses, and every sum of a pointer and a size wraps as on i386.
pub mod Queries
pub mod Layout
pub mod Walk
pub mod Basic
pub mod Agree
pub mod Sample
mod Tests
use verve_os.Base.{
  ℕ, zero, suc, ◌+◌, ◌-◌, ◌*◌, ◌^◌, Bool, true, false, not, ◌&&◌, ◌||◌, Option, none, some, ltb,
  leb, ◌==◌, if◌then◌else◌, u32, u64, bit_and,
}
use verve_os.Base.Memory.{Mem, load8, store8, load32, load64}

-- The tag types that the code names.
abbrev tag_end : ℕ
tag_end = 0

abbrev tag_basic_meminfo : ℕ
tag_basic_meminfo = 4

abbrev tag_mmap : ℕ
tag_mmap = 6

abbrev tag_acpi_old : ℕ
tag_acpi_old = 14

abbrev tag_acpi_new : ℕ
tag_acpi_new = 15

abbrev mmap_available : ℕ
mmap_available = 1

-- `struct mb2_mmap_entry`, without its reserved word, which nothing reads.
pub record Entry : Type 0 where
  pub base : ℕ
  pub length : ℕ
  pub type : ℕ

unfoldable pub entry_at : Mem → ℕ → Entry
entry_at m e = record { base = load64 m e; length = load64 m (e + 8); type = load32 m (e + 16) }

-- What a look at one tag leads to: the next tag, or a return of the enclosing function.
pub data Verdict (S : Type 0) : Type 0 where
  go_on : S → Verdict S
  return : Bool → S → Verdict S

-- The state `S` is what callbacks change; `memory` is the memory in it, which they may change too.
module _ {S : Type 0} (memory : S → Mem) where
  -- `while (e + entry_size <= tag_end)`; `none` means that the fuel ran out.
  unfoldable pub walk_entries : (Entry → S → Bool × S) → ℕ → ℕ → ℕ → ℕ → S → Option (Bool × S)
  walk_entries on_entry zero e limit entry_size s = none
  walk_entries on_entry (suc fuel) e limit entry_size s =
      let (more, s') = on_entry (entry_at (memory s) e) s in
      let rest = walk_entries on_entry fuel (u32 (e + entry_size)) limit entry_size s' in
      if leb (u32 (e + entry_size)) limit
      then (if more then rest else some (false, s'))
      else some (true, s)

  -- The loop over tags that the walks share. `at_end` is what each returns after the last tag.
  unfoldable pub scan_tags :
      Bool → (ℕ → ℕ → ℕ → S → Option (Verdict S)) → ℕ → ℕ → ℕ → S → Option (Bool × S)
  scan_tags at_end visit zero p limit s = none
  scan_tags at_end visit (suc fuel) p limit s =
      let type = load32 (memory s) p in
      let size = load32 (memory s) (u32 (p + 4)) in
      let next = λ (s' : S). scan_tags at_end visit fuel (u32 (p + size)) limit s' in
      let look : Option (Bool × S) = elim (visit type p size s) [
        | none ↦ none
        | some v ↦ elim v [ go_on s' ↦ next s' | return b s' ↦ some (b, s') ]
      ] in
      if leb (u32 (p + 8)) limit
      then (if ltb size 8 || not (bit_and size 7 == 0)
          then some (false, s)
          else if ltb limit (u32 (p + size))
          then some (false, s)
          else if type == tag_end
          then some (at_end, s)
          else look)
      else some (at_end, s)

  -- The test of `total_size` and the start of the walk.
  unfoldable pub scan_info : Bool → (ℕ → ℕ → ℕ → S → Option (Verdict S)) → ℕ → S → Option (Bool × S)
  scan_info at_end visit info s =
      let total = load32 (memory s) info in
      if ltb total 16 || not (bit_and total 7 == 0)
      then some (false, s)
      else scan_tags at_end visit (suc total) (u32 (info + 8)) (u32 (info + total)) s

  visit_mmap : (Entry → S → Bool × S) → ℕ → ℕ → ℕ → S → Option (Verdict S)
  visit_mmap on_entry type p size s =
      let entry_size = load32 (memory s) (u32 (p + 8)) in
      let entries : Option (Verdict S) =
        elim (walk_entries on_entry (suc size) (u32 (p + 16)) (u32 (p + size)) entry_size s) [
          | none ↦ none
          | some r ↦ if r.0 then some (go_on r.1) else some (return false r.1)
        ] in
      if type == tag_mmap
      then (if ltb size 40
          then some (return false s)
          else if ltb entry_size 24
          then some (return false s)
          else entries)
      else some (go_on s)

  unfoldable pub walk_mmap_entries : (Entry → S → Bool × S) → ℕ → S → Option (Bool × S)
  unfolding visit_mmap
  walk_mmap_entries on_entry info s = scan_info true (visit_mmap on_entry) info s

  -- `avail_walk_cb`
  avail_walk : (ℕ → ℕ → S → S) → Entry → S → Bool × S
  avail_walk fn e s =
      if e.type == mmap_available && not (e.length == 0)
      then (true, fn e.base e.length s)
      else (true, s)

  unfoldable pub for_each_available : (ℕ → ℕ → S → S) → ℕ → S → Option (Bool × S)
  unfolding walk_mmap_entries avail_walk
  for_each_available fn info s = walk_mmap_entries (avail_walk fn) info s
