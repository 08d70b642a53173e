-- ===== src/Devices/Ioapic.antt =====
-- arch/i386/ioapic.c: the interrupt controller that passes interrupts of devices to CPUs.
pub mod Registers
use verve_os.Base.{
  ℕ, ◌+◌, ◌-◌, ◌*◌, Bool, true, false, not, ◌∷◌, ltb, ◌==◌, if◌then◌else◌, u32, ◌<<<◌, bit_or,
  bit_and,
}
use verve_os.Base.Array.{codes}
use verve_os.Acpi.{Acpi}
use verve_os.Acpi.Start.{
  acpi_hw_has_ioapic, acpi_hw_ioapic_phys, acpi_hw_ioapic_gsi_base, acpi_hw_irq0_gsi,
}
use verve_os.Paging.{Machine, frame_mask}
use verve_os.Paging.Boot.{Statics, map_identity_page}
use verve_os.Serial.{puts, put_u64_hex}
use verve_os.Devices.{Log, read_word, write32}

abbrev pub ioregsel : ℕ
ioregsel = 0

abbrev pub ioregwin : ℕ
ioregwin = 0x10

-- `g_ioapic_base`, the machine and the accesses.
pub record Ioapic : Type 0 where
  pub base : ℕ
  pub machine : Machine
  pub log : Log

unfoldable pub ioapic_mmio_write : ℕ → ℕ → ℕ → Log → Log
ioapic_mmio_write base reg val log =
    write32 (u32 (base + ioregwin)) val (write32 (u32 (base + ioregsel)) reg log)

-- The callers drop the value.
unfoldable pub ioapic_mmio_read : ℕ → ℕ → Log → Log
ioapic_mmio_read base reg log =
    read_word (u32 (base + ioregwin)) ∷ write32 (u32 (base + ioregsel)) reg log

unfoldable pub ioapic_set_rte : (base gsi_ix low high : ℕ) → Log → Log
ioapic_set_rte base gsi_ix low high log =
    let ix = u32 (0x10 + gsi_ix * 2) in
    ioapic_mmio_read base ix
      (ioapic_mmio_write base ix low (ioapic_mmio_write base (u32 (ix + 1)) high log))

unfoldable pub ioapic_init_from_acpi : Statics → Acpi → Ioapic → Bool × Ioapic
ioapic_init_from_acpi at acpi s =
    let phys = acpi_hw_ioapic_phys acpi in
    let mapped = (map_identity_page at (bit_and phys frame_mask) s.machine).1 in
    let out =
      puts (codes "\r\n")
        (put_u64_hex phys (puts (codes "[VerveOS] ioapic: MMIO @phys 0x") mapped.serial)) in
    if not (acpi_hw_has_ioapic acpi)
    then (false, s)
    else if phys == 0
    then (false, s)
    else (true, record s { base = phys; machine = record mapped { serial = out } })

unfoldable pub ioapic_route_irq0_timer : Acpi → ℕ → Ioapic → Ioapic
ioapic_route_irq0_timer acpi bsp_apic_id s =
    let gsi_base = acpi_hw_ioapic_gsi_base acpi in
    let gsi = if ltb (acpi_hw_irq0_gsi acpi) gsi_base then gsi_base else acpi_hw_irq0_gsi acpi in
    let idx = gsi - gsi_base in
    let low = bit_or (bit_or (bit_or (bit_or 32 (0 <<< 8)) (0 <<< 11)) (0 <<< 13)) (0 <<< 15) in
    let high = u32 (bsp_apic_id <<< 24) in
    let out = puts (codes "\r\n") (
      put_u64_hex bsp_apic_id (
        puts (codes " BSP_apic=") (
          put_u64_hex idx
            (puts (codes "[VerveOS] ioapic: IRQ0/timer -> vec32 gsi_idx=") s.machine.serial)))) in
    if s.base == 0 then s else record s {
      log = ioapic_set_rte s.base idx low high s.log;
      machine = record s.machine { serial = out };
    }
