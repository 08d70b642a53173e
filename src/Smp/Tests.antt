-- ===== src/Smp/Tests.antt =====
-- Three CPUs, of which the one with identifier 0 is the first.
use verve_os.Base.{true, ◌*◌, ◌^◌, ◌≡◌, refl, arith, inr, [], ◌∷◌, ◌==◌, if◌then◌else◌}
use verve_os.Acpi.{Acpi}
use verve_os.Devices.{Answers}
use verve_os.Devices.Lapic.{lapic_id}
use verve_os.Devices.Lapic.Send.{Delivers}
use verve_os.Paging.Sample.{small_machine, small-IsSpace}
use verve_os.Smp.{Smp, start_all}
use verve_os.Smp.Index.{index_now, smp_cpu_index-smp_bootstrap_apic_map}
use verve_os.Smp.Mail.{IsMailed}
use verve_os.Smp.Start.{Boots, start_all-Boots}

-- The controller of the CPU with identifier 4, which delivers at once.
abbrev own : Answers
own = record {
  port = λ log p. 0;
  word = λ log a. if a == 0xfee0_0020 then 4 * 2 ^ 24 else 0;
  msr = λ log r. (0, 0);
}

own-Delivers : Delivers own 1
own-Delivers log = (0, omega arith, refl)

abbrev found : Acpi
found = record {
  cpu_apic_ids = λ i. i * 2;
  cpu_count = 3;
  ioapic_phys = 0;
  ioapic_gsi_base = 0;
  irq0_gsi = 0;
  ioapic_id = 0;
  has_ioapic = true;
  hw_inited = true;
}

abbrev before : Smp
before = record { machine = small_machine; log = []; cpus_online = 1; apic_to_logical = λ i. 0 }

before-IsMailed : IsMailed before.machine.pmm
before-IsMailed = record {
  valid = small-IsSpace.sound.valid;
  high = small-IsSpace.sound.high;
  clear = inr (omega arith);
}

start_all-Boots_example :
    Boots 0x10_4000 0 (0 ∷ 2 ∷ 4 ∷ []) before (start_all own 1 0x10_4000 0 (0 ∷ 2 ∷ 4 ∷ []) before)
start_all-Boots_example =
    start_all-Boots own 1 0x10_4000 0 (0 ∷ 2 ∷ 4 ∷ []) before own-Delivers before-IsMailed
      (omega arith)

own_id : found.cpu_apic_ids 2 ≡ (lapic_id own []).0
unfolding lapic_id
own_id = refl

smp_cpu_index-smp_bootstrap_apic_map_example : index_now own found (λ i. 9) before [] ≡ 2
smp_cpu_index-smp_bootstrap_apic_map_example =
    smp_cpu_index-smp_bootstrap_apic_map own found (λ i. 9) before [] (omega arith)
      (λ j k h h' e. omega (arith, e)) 2 (omega arith) own_id
