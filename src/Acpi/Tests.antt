-- ===== src/Acpi/Tests.antt =====
-- The tables at concrete memories.
use verve_os.Base.{false, ℕ, ◌-◌, refl, arith, ltb, if◌then◌else◌, List, [], ◌∷◌, ◌++◌, get_or}
use verve_os.Base.Memory.{Mem, load8, load32}
use verve_os.Acpi.{Acpi, madt_collect}
use verve_os.Acpi.Madt.{MadtEntry, HoldsFrom}
use verve_os.Acpi.Parse.{Collects, madt_collect-Collects}

-- The structure of the boot loader, with one tag that holds an RSDP.
abbrev info_bytes : List ℕ
info_bytes =
    48 ∷ 0 ∷ 0 ∷ 0 ∷ 0 ∷ 0 ∷ 0 ∷ 0 ∷ 14 ∷ 0 ∷ 0 ∷ 0 ∷ 32 ∷ 0 ∷ 0 ∷ 0 ∷ 82 ∷ 83 ∷ 68 ∷ 32 ∷ 80 ∷ 84
    ∷ 82 ∷ 32 ∷ 172 ∷ 86 ∷ 86 ∷ 86 ∷ 86 ∷ 86 ∷ 86 ∷ 0 ∷ 48 ∷ 0 ∷ 1 ∷ 0 ∷ 0 ∷ 0 ∷ 0 ∷ 0 ∷ 0 ∷ 0 ∷ 0
    ∷ 0 ∷ 8 ∷ 0 ∷ 0 ∷ 0 ∷ []

abbrev rsdt_bytes : List ℕ
rsdt_bytes =
    82 ∷ 83 ∷ 68 ∷ 84 ∷ 40 ∷ 0 ∷ 0 ∷ 0 ∷ 1 ∷ 65 ∷ 0 ∷ 0 ∷ 0 ∷ 0 ∷ 0 ∷ 0 ∷ 0 ∷ 0 ∷ 0 ∷ 0 ∷ 0 ∷ 0 ∷ 0
    ∷ 0 ∷ 0 ∷ 0 ∷ 0 ∷ 0 ∷ 0 ∷ 0 ∷ 0 ∷ 0 ∷ 0 ∷ 0 ∷ 0 ∷ 0 ∷ 88 ∷ 0 ∷ 1 ∷ 0 ∷ []

abbrev madt_bytes : List ℕ
madt_bytes =
    65 ∷ 80 ∷ 73 ∷ 67 ∷ 88 ∷ 0 ∷ 0 ∷ 0 ∷ 1 ∷ 178 ∷ 0 ∷ 0 ∷ 0 ∷ 0 ∷ 0 ∷ 0 ∷ 0 ∷ 0 ∷ 0 ∷ 0 ∷ 0 ∷ 0 ∷ 0
    ∷ 0 ∷ 0 ∷ 0 ∷ 0 ∷ 0 ∷ 0 ∷ 0 ∷ 0 ∷ 0 ∷ 0 ∷ 0 ∷ 0 ∷ 0 ∷ 0 ∷ 0 ∷ 224 ∷ 254 ∷ 0 ∷ 0 ∷ 0 ∷ 0 ∷ 0 ∷ 8
    ∷ 0 ∷ 3 ∷ 1 ∷ 0 ∷ 0 ∷ 0 ∷ 0 ∷ 8 ∷ 1 ∷ 4 ∷ 0 ∷ 0 ∷ 0 ∷ 0 ∷ 1 ∷ 12 ∷ 2 ∷ 0 ∷ 0 ∷ 0 ∷ 192 ∷ 254 ∷ 0
    ∷ 0 ∷ 0 ∷ 0 ∷ 2 ∷ 16 ∷ 0 ∷ 0 ∷ 0 ∷ 0 ∷ 0 ∷ 0 ∷ 0 ∷ 0 ∷ 0 ∷ 0 ∷ 2 ∷ 0 ∷ 0 ∷ 0 ∷ []

abbrev all_bytes : List ℕ
all_bytes = info_bytes ++ (rsdt_bytes ++ madt_bytes)

abbrev sample : Mem
sample a = if ltb a 0x1_0000 then 0 else get_or all_bytes (a - 0x1_0000) 0

abbrev cold : Acpi
cold = record {
  cpu_apic_ids = λ i. 0;
  cpu_count = 0;
  ioapic_phys = 0;
  ioapic_gsi_base = 0;
  irq0_gsi = 0;
  ioapic_id = 0;
  has_ioapic = false;
  hw_inited = false;
}

abbrev entries : List MadtEntry
entries =
    record {
      type = 0;
      size = 8;
      io_id = 0;
      apic_id = 3;
      source = 0;
      word4 = 1;
      word8 = 0x0401_0800;
      word12 = 0;
    }
    ∷ record {
      type = 0;
      size = 8;
      io_id = 1;
      apic_id = 4;
      source = 1;
      word4 = 0;
      word8 = 0x0002_0c01;
      word12 = 0xfec0_0000;
    }
    ∷ record {
      type = 1;
      size = 12;
      io_id = 2;
      apic_id = 0;
      source = 0;
      word4 = 0xfec0_0000;
      word8 = 0;
      word12 = 0x1002;
    }
    ∷ record {
      type = 2;
      size = 16;
      io_id = 0;
      apic_id = 0;
      source = 0;
      word4 = 0;
      word8 = 0;
      word12 = 2;
    }
    ∷ []

sample-HoldsFrom : HoldsFrom sample 0x1_0058 88 44 entries
unfolding load32 load8
sample-HoldsFrom = (
  refl,
  omega arith,
  omega arith,
  omega arith,
  (
    refl,
    omega arith,
    omega arith,
    omega arith,
    (
      refl,
      omega arith,
      omega arith,
      omega arith,
      (refl, omega arith, omega arith, omega arith, omega arith),
    ),
  ),
)

madt_collect-Collects_example : Collects entries cold (madt_collect sample 0x1_0058 88 cold)
madt_collect-Collects_example =
    madt_collect-Collects sample 0x1_0058 88 entries cold (omega arith) (omega arith)
      sample-HoldsFrom
