-- ===== src/Acpi.antt =====
-- kernel/acpi_hw.c: the CPUs and the I/O APIC that the firmware's tables name. Tables are read from
-- physical memory, which is mapped identically; the copy of the RSDP is a memory of its own, at 0.
pub mod Sums
pub mod Madt
pub mod Collect
pub mod Fields
pub mod Parse
pub mod Start
pub mod Smp
mod Tests
use verve_os.Base.{
  ℕ, zero, suc, ◌+◌, ◌-◌, ◌*◌, ◌/◌, ◌^◌, Bool, true, false, not, ◌&&◌, ◌||◌, Option, none, some,
  List, ltb, leb, ◌==◌, if◌then◌else◌, get_or, u8, u32, bit_and,
}
use verve_os.Base.Array.{Array, update, codes}
use verve_os.Base.Memory.{Mem, load8, load32, load64}
use verve_os.Mboot2.Queries.{find_rsdp_payload}
use verve_os.Serial.{puts, put_u64_hex}

pub record Acpi : Type 0 where
  pub cpu_apic_ids : Array ℕ
  pub cpu_count : ℕ
  pub ioapic_phys : ℕ
  pub ioapic_gsi_base : ℕ
  pub irq0_gsi : ℕ
  pub ioapic_id : ℕ
  pub has_ioapic : Bool
  pub hw_inited : Bool

abbrev pub max_cpus_hw : ℕ
max_cpus_hw = 32

-- `sizeof(acpi_hdr_t)`
abbrev pub hdr_size : ℕ
hdr_size = 36

abbrev pub rsdp_sig : List ℕ
rsdp_sig = codes "RSD PTR "

-- `sum += p[i]` for `left` bytes.
unfoldable pub sum_from : ℕ → Mem → ℕ → ℕ → ℕ
sum_from zero m p s = s
sum_from (suc left) m p s = sum_from left m (p + 1) (u32 (s + load8 m p))

unfoldable pub acpi_sum : Mem → ℕ → ℕ → ℕ
acpi_sum m p len = u8 (bit_and (sum_from len m p 0) 0xff)

unfoldable pub acpi_ok : Mem → ℕ → ℕ → Bool
acpi_ok m p len = acpi_sum m p len == 0

-- The loop over the eight characters, with the rounds left.
unfoldable pub signature_ok : ℕ → ℕ → Mem → ℕ → Bool
signature_ok zero i m rsdp = true
signature_ok (suc left) i m rsdp =
    let rest = signature_ok left (i + 1) m rsdp in
    if load8 m (rsdp + i) == get_or rsdp_sig i 0 then rest else false

-- What `rsdp_parse` writes where it returns true.
pub record Roots : Type 0 where
  pub rsdt : ℕ
  pub xsdt : ℕ
  pub uses_xsdt : Bool

unfoldable pub rsdp_parse : Mem → ℕ → ℕ → Option Roots
rsdp_parse m rsdp len =
    let rsdt = load32 m (rsdp + 16) in
    let xl = load64 m (rsdp + 24) in
    let old : Roots = record { rsdt = rsdt; xsdt = 0; uses_xsdt = false } in
    if ltb len 20
    then none
    else if not (signature_ok 8 0 m rsdp)
    then none
    else if not (acpi_ok m rsdp 20)
    then none
    else if leb 36 len && leb 2 (load8 m (rsdp + 15)) && not (xl == 0)
    then some (record { rsdt = rsdt; xsdt = xl; uses_xsdt = true })
    else some old

-- `h->length`
abbrev pub table_length : Mem → ℕ → ℕ
table_length m t = load32 m (t + 4)

unfoldable pub tbl_ok : Mem → ℕ → ℕ → Bool
tbl_ok m t scan_len =
    if ltb scan_len hdr_size
    then false
    else if ltb (table_length m t) hdr_size || ltb scan_len (table_length m t)
    then false
    else acpi_ok m t (table_length m t)

-- One entry of the MADT, at `q`; `ncpu` is the count so far.
unfoldable pub madt_entry : Mem → ℕ → ℕ × Acpi → ℕ × Acpi
madt_entry m q (ncpu, s) =
    let typ = load8 m q in
    let elen = load8 m (q + 1) in
    if typ == 0 && leb 8 elen
    then (if not (bit_and (load32 m (q + 4)) 1 == 0) && ltb ncpu max_cpus_hw
        then (ncpu + 1, record s { cpu_apic_ids = update s.cpu_apic_ids ncpu (load8 m (q + 3)) })
        else (ncpu, s))
    else if typ == 1 && leb 12 elen && not s.has_ioapic
    then (
      ncpu,
      record s {
        ioapic_id = load8 m (q + 2);
        ioapic_phys = load32 m (q + 4);
        ioapic_gsi_base = load32 m (q + 8);
        has_ioapic = true;
      },
    )
    else if typ == 2 && leb 16 elen
    then (if load8 m (q + 8) == 0
        then (ncpu, record s { irq0_gsi = load32 m (q + 12) })
        else (ncpu, s))
    else (ncpu, s)

-- The loop over the entries from offset `off` on. `none` means that the fuel ran out.
unfoldable pub madt_loop : ℕ → Mem → ℕ → ℕ → ℕ → ℕ × Acpi → Option (Bool × Acpi)
madt_loop zero m p mlen off r = none
madt_loop (suc fuel) m p mlen off r =
    let elen = load8 m (p + off + 1) in
    let rest = madt_loop fuel m p mlen (u32 (off + elen)) (madt_entry m (p + off) r) in
    if leb (u32 (off + 2)) mlen
    then (if ltb elen 2 || ltb mlen (u32 (off + elen)) then some (false, r.1) else rest)
    else some (true, record r.1 { cpu_count = r.0 })

-- An entry has two bytes at least.
unfoldable pub madt_collect : Mem → ℕ → ℕ → Acpi → Option (Bool × Acpi)
madt_collect m p mlen s =
    if ltb mlen 44
    then some (false, s)
    else madt_loop (suc mlen) m p mlen 44 (0, record s { irq0_gsi = 0; has_ioapic = false })

-- `sh->signature` is "APIC".
unfoldable pub is_madt : Mem → ℕ → Bool
is_madt m t =
    load8 m t == b'A'
    && load8 m (t + 1) == b'P'
    && load8 m (t + 2) == b'I'
    && load8 m (t + 3) == b'C'

-- The loop over the pointers of a root table, of eight bytes in an XSDT and of four in an RSDT.
unfoldable pub root_loop : ℕ → ℕ → Bool → Mem → ℕ → Acpi → Option (Bool × Acpi)
root_loop zero i xsdt m tbl s = some (false, s)
root_loop (suc left) i xsdt m tbl s =
    let tp =
      if xsdt then load64 m (tbl + hdr_size + i * 8) else load32 m (tbl + hdr_size + i * 4) in
    let rest = root_loop left (i + 1) xsdt m tbl s in
    if tp == 0
    then rest
    else if xsdt && ltb 0xffff_ffff tp
    then rest
    else if not (tbl_ok m tp (table_length m tp))
    then rest
    else if is_madt m tp
    then madt_collect m tp (table_length m tp) s
    else rest

unfoldable pub scan_root : Bool → ℕ → Mem → Acpi → Option (Bool × Acpi)
scan_root xsdt root_phys m s =
    let body = table_length m root_phys - hdr_size in
    if not (tbl_ok m root_phys (table_length m root_phys))
    then some (false, s)
    else root_loop (if xsdt then body / 8 else body / 4) 0 xsdt m root_phys s
