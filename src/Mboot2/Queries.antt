-- ===== src/Mboot2/Queries.antt =====
-- kernel/mboot2.c: the four functions that clients call, beside `mb2_for_each_available`.
use verve_os.Base.{
  ℕ, zero, suc, ◌+◌, ◌-◌, Bool, true, false, Option, none, some, List, [], ◌∷◌, ltb, leb, ◌==◌,
  if◌then◌else◌, u32, u64,
}
use verve_os.Base.Memory.{Mem, load8, load32}
use verve_os.Mboot2.{
  Entry, Verdict, go_on, return, scan_info, walk_mmap_entries, tag_basic_meminfo, tag_acpi_old,
  tag_acpi_new, mmap_available,
}

-- `sum_cb` and its context.
pub record Sum : Type 0 where
  pub mem : Mem
  pub sum : ℕ

unfoldable pub sum_cb : Entry → Sum → Bool × Sum
sum_cb e s =
    if e.type == mmap_available
    then (true, record s { sum = u64 (s.sum + e.length) })
    else (true, s)

-- `*usable_out` is written only where the first part is true.
unfoldable pub sum_usable_ram : Mem → ℕ → Option (Bool × Sum)
unfolding sum_cb
sum_usable_ram m info =
    walk_mmap_entries (λ (s : Sum). s.mem) sum_cb info (record { mem = m; sum = 0 })

pub record Meminfo : Type 0 where
  pub mem : Mem
  pub lower_kb : ℕ
  pub upper_kb : ℕ

unfoldable pub visit_meminfo : ℕ → ℕ → ℕ → Meminfo → Option (Verdict Meminfo)
visit_meminfo type p size s =
    let found : Meminfo = record s {
      lower_kb = load32 s.mem (u32 (p + 8));
      upper_kb = load32 s.mem (u32 (p + 12));
    } in
    if type == tag_basic_meminfo
    then (if ltb size 16 then some (return false s) else some (return true found))
    else some (go_on s)

unfoldable pub read_basic_meminfo : Mem → ℕ → Option (Bool × Meminfo)
unfolding visit_meminfo
read_basic_meminfo m info =
    scan_info (λ (s : Meminfo). s.mem) false visit_meminfo info
      (record { mem = m; lower_kb = 0; upper_kb = 0 })

pub record Payload : Type 0 where
  pub mem : Mem
  pub start : ℕ
  pub size : ℕ

visit_acpi : ℕ → ℕ → ℕ → ℕ → Payload → Option (Verdict Payload)
visit_acpi want type p size s =
    if type == want
    then (if leb size 8
        then some (return false s)
        else some (return true (record s { start = u32 (p + 8); size = size - 8 })))
    else some (go_on s)

unfoldable pub find_acpi_tag : Mem → ℕ → ℕ → Option (Bool × Payload)
unfolding visit_acpi
find_acpi_tag m info want =
    scan_info (λ (s : Payload). s.mem) false (visit_acpi want) info
      (record { mem = m; start = 0; size = 0 })

-- The bytes that the copy loop moves to `out_buf`.
unfoldable pub load_bytes : Mem → ℕ → ℕ → List ℕ
load_bytes m a zero = []
load_bytes m a (suc n) = load8 m a ∷ load_bytes m (u32 (a + 1)) n

usable : Bool × Payload → Bool
usable (found, r) =
    if found then (if r.start == 0 then false else if r.size == 0 then false else true) else false

copy_payload : ℕ → Bool × Payload → Bool × List ℕ × ℕ
unfolding usable
copy_payload out_cap r =
    if usable r
    then (if ltb out_cap r.1.size
        then (false, [], 0)
        else (true, load_bytes r.1.mem r.1.start r.1.size, r.1.size))
    else (false, [], 0)

-- The parts of the result: the return value, what `out_buf` receives, and `*out_len`.
unfoldable pub find_rsdp_payload : Mem → ℕ → ℕ → Option (Bool × List ℕ × ℕ)
unfolding copy_payload
find_rsdp_payload m info out_cap = elim (find_acpi_tag m info tag_acpi_new) [
  | none ↦ none
  | some r ↦
      if usable r then some (copy_payload out_cap r) else elim (find_acpi_tag m info tag_acpi_old) [
        | none ↦ none
        | some r' ↦ some (copy_payload out_cap r')
      ]
]
