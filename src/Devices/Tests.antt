-- ===== src/Devices/Tests.antt =====
-- The drivers on devices that answer as their data sheets say.
use verve_os.Base.{true, ℕ, ◌+◌, ◌-◌, ◌≡◌, refl, arith, [], ◌∷◌}
use verve_os.Devices.{Answers}
use verve_os.Devices.Pic.{pic_init}
use verve_os.Devices.Pic.Chip.{chip_at, masked, ReadsMask, unmask_all, pic_init-unmask_all}
use verve_os.Devices.Pit.{SetsRate, pit_set_frequency_hz, pit_set_frequency_hz-SetsRate}
use verve_os.Acpi.{Acpi}
use verve_os.Paging.Sample.{small_machine}
use verve_os.Devices.Ioapic.{Ioapic, ioapic_route_irq0_timer}
use verve_os.Devices.Ioapic.Registers.{registers, ioapic_route_irq0_timer_lem}
use verve_os.Devices.Idt.{Gate, idt_init}
use verve_os.Devices.Idt.Gates.{decode, interrupt_gate, idt_init_lem}
use verve_os.Devices.Gdt.{Gdt, GdtEntry, gdt_init}
use verve_os.Devices.Gdt.Segments.{IsFlat, gdt_init-IsFlat}

-- The data ports answer with the masks.
abbrev chips : Answers
chips = record {
  port = λ log p. (chip_at (p - 1) log).mask;
  word = λ log a. 0;
  msr = λ log r. (0, 0);
}

chips-ReadsMask : ReadsMask chips
chips-ReadsMask log cmd ready = let command : cmd + 1 - 1 ≡ cmd = omega arith in rw command refl

pic_init-unmask_all_example :
    masked (unmask_all chips chips-ReadsMask (0 ∷ 9 ∷ []) (pic_init 32 40 [])) 9 ≡ 0
pic_init-unmask_all_example =
    pic_init-unmask_all chips chips-ReadsMask 32 40 (0 ∷ 9 ∷ []) 9 [] (omega arith) (omega arith)

pit_set_frequency_hz-SetsRate_example : SetsRate 100 [] (pit_set_frequency_hz 100 [])
pit_set_frequency_hz-SetsRate_example = pit_set_frequency_hz-SetsRate 100 [] (omega arith)

abbrev stub : ℕ → ℕ
stub v = 0x10_0000 + v

abbrev full_gate : Gate
full_gate = record { off_lo = 1; sel = 1; ist_zero = 1; flags = 255; off_hi = 1 }

idt_init_lem_example :
    (decode ((idt_init stub (λ v. full_gate)).0 128) ≡ interrupt_gate 3 0x10_0080)
    × ((idt_init stub (λ v. full_gate)).1 ≡ 2047)
idt_init_lem_example = idt_init_lem stub (λ v. full_gate) 128 (omega arith)

abbrev full_entry : GdtEntry
full_entry = record { limit_lo = 1; base_lo = 1; base_mid = 1; access = 1; gran = 1; base_hi = 1 }

abbrev full_gdt : Gdt
full_gdt = record { desc = λ i. full_entry; tss = λ a. 7; limit = 0 }

gdt_init-IsFlat_example : IsFlat 0x10_2000 0x10_3000 (gdt_init 0x10_2000 0x10_3000 full_gdt)
gdt_init-IsFlat_example = gdt_init-IsFlat 0x10_2000 0x10_3000 full_gdt

abbrev found : Acpi
found = record {
  cpu_apic_ids = λ i. i;
  cpu_count = 1;
  ioapic_phys = 0xfec0_0000;
  ioapic_gsi_base = 0;
  irq0_gsi = 2;
  ioapic_id = 0;
  has_ioapic = true;
  hw_inited = true;
}

abbrev ioapic : Ioapic
ioapic = record { base = 0xfec0_0000; machine = small_machine; log = [] }

ioapic_route_irq0_timer_lem_example :
    (registers 0xfec0_0000 (λ i. 7) (ioapic_route_irq0_timer found 4 ioapic).log).value 20 ≡ 32
ioapic_route_irq0_timer_lem_example =
    ioapic_route_irq0_timer_lem found 4 ioapic (λ i. 7) 20 (λ e. absurd (omega (arith, e)))
      (omega arith) (omega arith) (omega arith)
