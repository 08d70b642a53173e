-- ===== src/Acpi/Start.antt =====
-- The end of kernel/acpi_hw.c: `acpi_hw_init` and the queries.
use verve_os.Base.{
  ℕ, zero, suc, ◌+◌, Bool, true, false, not, ◌&&◌, Option, none, some, List, ltb, leb, ◌==◌,
  if◌then◌else◌, get_or,
}
use verve_os.Base.Array.{Array, update, codes}
use verve_os.Base.Memory.{Mem}
use verve_os.Mboot2.Queries.{find_rsdp_payload}
use verve_os.Serial.{puts, put_u64_hex}
use verve_os.Acpi.{Acpi, Roots, rsdp_parse, scan_root}

-- What `acpi_hw_init` prints where it has found a MADT.
found_report : Acpi → List ℕ → List ℕ
found_report s out = puts (codes "\r\n") (
    put_u64_hex s.irq0_gsi (
      puts (codes " irq0_gsi=") (
        put_u64_hex (if s.has_ioapic then 1 else 0) (
          puts (codes " ioapic=")
            (put_u64_hex s.cpu_count (puts (codes "[VerveOS] acpi_hw: MADT cpus=") out))))))

-- The end of `acpi_hw_init`: the result, the tables and the output.
unfoldable pub conclude : Bool × Acpi → List ℕ → Bool × Acpi × List ℕ
unfolding found_report
conclude (ok, s) out =
    if ok
    then (true, record s { hw_inited = true }, found_report s out)
    else (false, s, puts (codes "[VerveOS] acpi_hw: no valid MADT found\r\n") out)

unfoldable pub scan_rsdt : Roots → Mem → Acpi → Option (Bool × Acpi)
scan_rsdt r m s = if not (r.rsdt == 0) then scan_root false r.rsdt m s else some (false, s)

-- The RSDT is read where the XSDT has no valid MADT.
unfoldable pub after_xsdt : Roots → Mem → Option (Bool × Acpi) → Option (Bool × Acpi)
after_xsdt r m none = none
after_xsdt r m (some (true, s)) = some (true, s)
after_xsdt r m (some (false, s)) = scan_rsdt r m s

unfoldable pub scan_roots : Roots → Mem → Acpi → Option (Bool × Acpi)
scan_roots r m s =
    if r.uses_xsdt && not (r.xsdt == 0) && leb r.xsdt 0xffff_ffff
    then after_xsdt r m (scan_root true r.xsdt m s)
    else scan_rsdt r m s

-- What is concluded from a scan that has ended.
unfoldable pub conclude_scan : List ℕ → Option (Bool × Acpi) → Option (Bool × Acpi × List ℕ)
conclude_scan out none = none
conclude_scan out (some r) = some (conclude r out)

unfoldable pub init_from : List ℕ → ℕ → Mem → Acpi → List ℕ → Option (Bool × Acpi × List ℕ)
init_from payload len m s out = elim (rsdp_parse (λ i. get_or payload i 0) 0 len) [
  | none ↦ some (false, s, out)
  | some roots ↦ conclude_scan out (scan_roots roots m s)
]

unfoldable pub acpi_hw_init : Mem → ℕ → Acpi → List ℕ → Option (Bool × Acpi × List ℕ)
acpi_hw_init m info s out =
    let first : Option (Bool × Acpi × List ℕ) = elim (find_rsdp_payload m info 128) [
      | none ↦ none
      | some (found, payload, len) ↦
          if found then init_from payload len m s out else some (false, s, out)
    ] in
    if s.hw_inited then some (true, s, out) else first

unfoldable pub acpi_hw_cpu_count : Acpi → ℕ
acpi_hw_cpu_count s = s.cpu_count

unfoldable pub copy_ids : ℕ → ℕ → Array ℕ → Array ℕ → Array ℕ
copy_ids zero i ids out = out
copy_ids (suc left) i ids out = copy_ids left (i + 1) ids (update out i (ids i))

-- `out` is not `NULL`.
unfoldable pub acpi_hw_copy_apic_ids : Array ℕ → ℕ → Acpi → Array ℕ
acpi_hw_copy_apic_ids out max s =
    if max == 0
    then out
    else copy_ids (if ltb max s.cpu_count then max else s.cpu_count) 0 s.cpu_apic_ids out

unfoldable pub acpi_hw_has_ioapic : Acpi → Bool
acpi_hw_has_ioapic s = s.has_ioapic

unfoldable pub acpi_hw_ioapic_phys : Acpi → ℕ
acpi_hw_ioapic_phys s = s.ioapic_phys

unfoldable pub acpi_hw_ioapic_gsi_base : Acpi → ℕ
acpi_hw_ioapic_gsi_base s = s.ioapic_gsi_base

unfoldable pub acpi_hw_irq0_gsi : Acpi → ℕ
acpi_hw_irq0_gsi s = s.irq0_gsi
