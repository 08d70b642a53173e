-- ===== src/Paging/Boot.antt =====
-- The static tables of arch/i386/paging.c: the identity map and the tables for MMIO pages.
use verve_os.Base.{
  ℕ, zero, suc, ◌+◌, ◌-◌, ◌*◌, ◌/◌, Bool, true, false, not, ◌&&◌, Option, none, some, List, ltb,
  leb, ◌==◌, if◌then◌else◌, u32, ◌<<<◌, not32, bit_and, bit_or,
}
use verve_os.Base.Array.{codes}
use verve_os.Base.Memory.{Mem, load32, store32}
use verve_os.Pmm.{alloc_frame}
use verve_os.Serial.{puts, put_u64_hex}
use verve_os.Paging.{
  Machine, pte_present, pte_rw, pte_us, pt_entries, max_id_pt, mmio_pt_slots, frame_mask, pd_index,
  pt_index, entry, set_entry, with_mem, zero_entries, copy_entries, cr3_load, enable_if_needed,
}

-- The addresses of `boot_pd`, `boot_pt` and `g_mmio_pts`.
pub record Statics : Type 0 where
  pub boot_pd : ℕ
  pub boot_pt : ℕ
  pub mmio_pts : ℕ

module _ (at : Statics) where
  -- `g_mmio_pts[i]`: the words `used` and `pd_idx`, and then the table.
  abbrev pub slot_used : ℕ → ℕ
  slot_used i = at.mmio_pts + 4104 * i

  abbrev pub slot_pd_idx : ℕ → ℕ
  slot_pd_idx i = at.mmio_pts + 4104 * i + 4

  abbrev pub slot_tbl : ℕ → ℕ
  slot_tbl i = at.mmio_pts + 4104 * i + 8

  -- The table of the slot that has this index already.
  unfoldable pub find_slot : ℕ → ℕ → ℕ → Mem → Option ℕ
  find_slot zero i pd_idx m = none
  find_slot (suc left) i pd_idx m =
      let rest = find_slot left (i + 1) pd_idx m in
      if not (load32 m (slot_used i) == 0) && load32 m (slot_pd_idx i) == pd_idx
      then some (slot_tbl i)
      else rest

  unfoldable pub take_slot : ℕ → ℕ → Mem → Mem
  take_slot i pd_idx m =
      let cleared = zero_entries pt_entries 0 (slot_tbl i) m in
      let taken = store32 (store32 cleared (slot_pd_idx i) pd_idx) (slot_used i) 1 in
      set_entry at.boot_pd pd_idx
        (bit_or (bit_or (bit_and (u32 (slot_tbl i)) frame_mask) pte_present) pte_rw) taken

  -- A free slot is cleared and linked. The result is the table, 0 for `NULL`.
  unfoldable pub new_slot : ℕ → ℕ → ℕ → Mem → ℕ × Mem
  new_slot zero i pd_idx m = (0, m)
  new_slot (suc left) i pd_idx m =
      let rest = new_slot left (i + 1) pd_idx m in
      if not (load32 m (slot_used i) == 0) then rest else (slot_tbl i, take_slot i pd_idx m)

  unfoldable pub mmio_pt_for_pd : ℕ → Mem → ℕ × Mem
  mmio_pt_for_pd pd_idx m =
      let e = entry m at.boot_pd pd_idx in
      if not (e == 0)
      then (bit_and e frame_mask, m)
      else elim (find_slot mmio_pt_slots 0 pd_idx m) [
        | some tbl ↦ (tbl, m)
        | none ↦ new_slot mmio_pt_slots 0 pd_idx m
      ]

  unfoldable pub map_identity_page : ℕ → Machine → Bool × Machine
  map_identity_page phys s =
      let pte = bit_or (bit_or (bit_and phys frame_mask) pte_present) pte_rw in
      let found = mmio_pt_for_pd (pd_index phys) s.pmm.mem in
      if found.0 == 0
      then (false, with_mem s found.1)
      else (true, with_mem s (set_entry found.0 (pt_index phys) pte found.1))

  -- One entry of the identity tables.
  identity_entry : ℕ → ℕ → ℕ
  identity_entry pfns pfn =
      if leb pfns pfn
      then 0
      else bit_or (bit_or (bit_and (u32 (pfn <<< 12)) frame_mask) pte_present) pte_rw

  -- The loop over the entries of table `ti`, and the loop over tables.
  unfoldable pub fill_table : ℕ → ℕ → ℕ → ℕ → Mem → Mem
  unfolding identity_entry
  fill_table zero pi ti pfns m = m
  fill_table (suc left) pi ti pfns m =
      fill_table left (pi + 1) ti pfns
        (set_entry (at.boot_pt + 4096 * ti) pi (identity_entry pfns (ti * pt_entries + pi)) m)

  unfoldable pub fill_tables : ℕ → ℕ → ℕ → Mem → Mem
  fill_tables zero ti pfns m = m
  fill_tables (suc left) ti pfns m =
      let linked =
        set_entry at.boot_pd ti (bit_or (bit_or (at.boot_pt + 4096 * ti) pte_present) pte_rw) m in
      fill_tables left (ti + 1) pfns (fill_table pt_entries 0 ti pfns linked)

  -- What `paging_identity_init` prints.
  identity_report : ℕ → List ℕ → List ℕ
  identity_report pfns out = puts (codes "\r\n") (
      put_u64_hex pfns (
        puts (codes " PTEs=")
          (put_u64_hex at.boot_pd (puts (codes "[VerveOS] paging: identity map CR3=0x") out))))

  unfoldable pub identity_init : ℕ → Machine → Bool × Machine
  unfolding identity_report cr3_load enable_if_needed
  identity_init max_pfn s =
      let pfns = u32 (max_pfn + 1) in
      let n_pt = u32 (pfns + pt_entries - 1) / pt_entries in
      let cleared = zero_entries 1024 0 at.boot_pd s.pmm.mem in
      let mapped = with_mem s (fill_tables n_pt 0 pfns cleared) in
      let on = enable_if_needed (cr3_load at.boot_pd mapped) in
      if ltb max_id_pt n_pt
      then (
        false,
        record s {
          serial =
              puts
                (codes
                  "[VerveOS] paging: RAM span exceeds static identity tables; raise MAX_ID_PT in arch/i386/paging.c\r\n")
                s.serial;
        },
      )
      else (true, record on { serial = identity_report pfns on.serial })

  -- The frame of the copy, or 0.
  unfoldable pub clone_kernel_pd : Machine → ℕ × Machine
  clone_kernel_pd s =
      let given = alloc_frame s.pmm in
      let s' = record s { pmm = given.1 } in
      if given.0 == 0
      then (0, s')
      else (given.0, with_mem s' (copy_entries 1024 0 given.0 at.boot_pd given.1.mem))

  unfoldable pub pte_set_user : ℕ → Bool → Machine → Bool × Machine
  pte_set_user virt user s =
      let pd_e = entry s.pmm.mem at.boot_pd (pd_index virt) in
      let pt = bit_and pd_e frame_mask in
      let pte = entry s.pmm.mem pt (pt_index virt) in
      if bit_and pd_e pte_present == 0
      then (false, s)
      else if bit_and pte pte_present == 0
      then (false, s)
      else (
        true,
        with_mem s (
            set_entry pt (pt_index virt)
              (if user then bit_or pte pte_us else bit_and pte (not32 pte_us)) s.pmm.mem),
      )
