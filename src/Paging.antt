-- ===== src/Paging.antt =====
-- arch/i386/paging.c: page directories and tables as words of physical memory, which the kernel
-- maps identically. The addresses that the linker gives `boot_pd`, `boot_pt` and `g_mmio_pts` are
-- parameters. `cr3` and the paging bit of `cr0` are fields; `invlpg` has no effect here, since the
-- tables are read anew at each access.
pub mod Boot
pub mod Tables
pub mod Space
pub mod Link
pub mod Fresh
pub mod Map
pub mod Range
pub mod Rights
pub mod Clone
pub mod Sample
mod Tests
use verve_os.Base.{
  ℕ, zero, suc, ◌+◌, ◌-◌, ◌*◌, ◌/◌, ◌^◌, Bool, true, false, not, ◌&&◌, ◌||◌, Option, none, some,
  List, ltb, leb, ◌==◌, if◌then◌else◌, u32, ◌>>>◌, ◌<<<◌, not32, bit_and, bit_or,
}
use verve_os.Base.Array.{codes}
use verve_os.Base.Memory.{Mem, load32, store32}
use verve_os.Pmm.{Pmm, alloc_frame}
use verve_os.Serial.{puts, put_u64_hex}

pub record Machine : Type 0 where
  pub pmm : Pmm
  pub cr3 : ℕ
  pub paging_on : Bool
  pub serial : List ℕ

abbrev pub pte_present : ℕ
pte_present = 1

abbrev pub pte_rw : ℕ
pte_rw = 2

abbrev pub pte_us : ℕ
pte_us = 4

abbrev pub pt_entries : ℕ
pt_entries = 1024

abbrev pub max_id_pt : ℕ
max_id_pt = 128

abbrev pub mmio_pt_slots : ℕ
mmio_pt_slots = 16

abbrev pub frame_mask : ℕ
frame_mask = 0xffff_f000

-- `virt >> 22` and `(virt >> 12) & 0x3FF`
abbrev pub pd_index : ℕ → ℕ
pd_index virt = virt >>> 22

abbrev pub pt_index : ℕ → ℕ
pt_index virt = bit_and (virt >>> 12) 0x3ff

-- `t[i]` and `t[i] = v` for a table of words.
abbrev pub entry : Mem → ℕ → ℕ → ℕ
entry m t i = load32 m (t + 4 * i)

abbrev pub set_entry : ℕ → ℕ → ℕ → Mem → Mem
set_entry t i v m = store32 m (t + 4 * i) v

abbrev pub with_mem : Machine → Mem → Machine
with_mem s m = record s { pmm = record s.pmm { mem = m } }

-- `t[i] = 0` for `left` entries from `i` on.
unfoldable pub zero_entries : ℕ → ℕ → ℕ → Mem → Mem
zero_entries zero i t m = m
zero_entries (suc left) i t m = zero_entries left (i + 1) t (set_entry t i 0 m)

-- `dst[i] = src[i]` for `left` entries from `i` on.
unfoldable pub copy_entries : ℕ → ℕ → ℕ → ℕ → Mem → Mem
copy_entries zero i dst src m = m
copy_entries (suc left) i dst src m =
    copy_entries left (i + 1) dst src (set_entry dst i (entry m src i) m)

cr3_load : ℕ → Machine → Machine
cr3_load pd_phys s = record s { cr3 = u32 pd_phys }

enable_if_needed : Machine → Machine
enable_if_needed s = record s { paging_on = true }

unfoldable pub get_cr3 : Machine → ℕ
get_cr3 s = bit_and s.cr3 frame_mask

unfoldable pub switch_cr3 : ℕ → Machine → Machine
unfolding cr3_load
switch_cr3 pd_phys s = cr3_load (bit_and pd_phys frame_mask) s

-- The entry of a page, where it is present.
unfoldable pub pte_fetch_pd : Mem → ℕ → ℕ → Option ℕ
pte_fetch_pd m pd_phys virt =
    let pd_e = entry m pd_phys (pd_index virt) in
    let pte = entry m (bit_and pd_e frame_mask) (pt_index virt) in
    if bit_and pd_e pte_present == 0
    then none
    else if bit_and pte pte_present == 0
    then none
    else some pte

-- The tests that `paging_user_range_ok` makes on one page.
unfoldable pub page_ok : Mem → ℕ → Bool → ℕ → Bool
page_ok m pd for_write pg = elim (pte_fetch_pd m pd pg) [
  | none ↦ false
  | some pte ↦
      if bit_and pte pte_us == 0
      then false
      else if for_write && bit_and pte pte_rw == 0
      then false
      else true
]

-- `for (pg = va & ~0xFFF; pg <= (end & ~0xFFF); pg += 4096)`; `none` means that the fuel ran out.
unfoldable pub range_loop : ℕ → (ℕ → Bool) → ℕ → ℕ → Option Bool
range_loop zero ok pg last = none
range_loop (suc fuel) ok pg last =
    let rest = range_loop fuel ok (u32 (pg + 4096)) last in
    if leb pg last then (if ok pg then rest else some false) else some true

-- A round for each page of the address space, and one more.
abbrev pub page_rounds : ℕ
page_rounds = 2 ^ 20 + 1

unfoldable pub user_range_ok : ℕ → ℕ → Bool → Machine → Option Bool
user_range_ok va len for_write s =
    let end = u32 (va + len) in
    if len == 0
    then some true
    else if ltb end va || end == 0
    then some false
    else range_loop page_rounds (page_ok s.pmm.mem (get_cr3 s) for_write) (bit_and va (not32 0xfff))
        (bit_and (end - 1) (not32 0xfff))

unfoldable pub map_page : ℕ → ℕ → ℕ → ℕ → Machine → Bool × Machine
map_page pd_phys virt phys pte_flags s =
    let pd = bit_and pd_phys frame_mask in
    let pde = entry s.pmm.mem pd (pd_index virt) in
    let pte = bit_or (bit_and phys frame_mask) (bit_and pte_flags 0xfff) in
    let given = alloc_frame s.pmm in
    let pt = given.0 in
    let cleared = zero_entries pt_entries 0 pt given.1.mem in
    let linked =
      set_entry pd (pd_index virt) (bit_or (bit_or (bit_and pt frame_mask) pte_present) pte_rw)
        cleared in
    if bit_and pde pte_present == 0
    then (if pt == 0 then (false, record s { pmm = given.1 }) else (
      true,
      with_mem (record s { pmm = given.1 }) (set_entry pt (pt_index virt) pte linked),
    ))
    else (true, with_mem s (set_entry (bit_and pde frame_mask) (pt_index virt) pte s.pmm.mem))
