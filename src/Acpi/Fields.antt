-- ===== src/Acpi/Fields.antt =====
-- What the entries of a MADT leave in the fields of the state.
use verve_os.Base.{
  true, false, ℕ, ◌+◌, ◌-◌, ◌%◌, ◌≤◌, ◌<◌, ◌≡◌, Bool, ◌&&◌, ◌||◌, refl, arith, ltb, leb, ◌==◌,
  if◌then◌else◌, List, [], ◌∷◌, length, get_or, Option, none, some,
}
use verve_os.Acpi.{Acpi}
use verve_os.Acpi.Madt.{MadtEntry, cpus, first_ioapic, acpi_overrides, long_override_gsi}
use verve_os.Acpi.Collect.{apply_entry, apply_all}

abbrev pub at_most_32 : ℕ → ℕ
at_most_32 n = if ltb n 32 then n else 32

-- The entry is an enabled local APIC.
abbrev is_cpu : MadtEntry → Bool
is_cpu e = e.type == 0 && leb 8 e.size && e.word4 % 2 == 1

entry_count :
    (e : MadtEntry) (n : ℕ) (s : Acpi)
    → (apply_entry e (n, s)).0 ≡ (if is_cpu e && ltb n 32 then n + 1 else n)
entry_count e n s = ground arith

entry_ids :
    (e : MadtEntry) (n : ℕ) (s : Acpi) (i : ℕ)
    → (apply_entry e (n, s)).1.cpu_apic_ids i
      ≡ (if is_cpu e && ltb n 32 && i == n then e.apic_id else s.cpu_apic_ids i)
entry_ids e n s i = ground arith

entry_timer :
    (e : MadtEntry) (n : ℕ) (s : Acpi)
    → (apply_entry e (n, s)).1.irq0_gsi
      ≡ (if e.type == 2 && leb 16 e.size && e.source == 0 then e.word12 else s.irq0_gsi)
entry_timer e n s = ground arith

pub count_lem :
    (es : List MadtEntry) (r : ℕ × Acpi)
    → r.0 ≤ 32
    → (apply_all es r).0 ≡ at_most_32 (r.0 + length (cpus es))
count_lem [] r few = ground arith
count_lem (e ∷ es) (n, s) few =
    let step = entry_count e n s in
    let rest = count_lem es (apply_entry e (n, s)) (ground arith) in ground arith

pub ids_lem :
    (es : List MadtEntry) (r : ℕ × Acpi) (i : ℕ)
    → r.0 ≤ 32
    → i < (apply_all es r).0
    → (apply_all es r).1.cpu_apic_ids i
      ≡ (if ltb i r.0 then r.1.cpu_apic_ids i else get_or (cpus es) (i - r.0) 0)
ids_lem [] r i few below = ground arith
ids_lem (e ∷ es) (n, s) i few below =
    let count = entry_count e n s in
    let step = entry_ids e n s i in
    let bound = count_lem (e ∷ es) (n, s) few in
    let rest = ids_lem es (apply_entry e (n, s)) i (ground arith) below in ground arith

pub timer_lem :
    (es : List MadtEntry) (r : ℕ × Acpi)
    → (apply_all es r).1.irq0_gsi ≡ long_override_gsi r.1.irq0_gsi es
timer_lem [] r = refl
timer_lem (e ∷ es) (n, s) = rw (timer_lem es (apply_entry e (n, s)), entry_timer e n s)

-- The address and the first interrupt of the I/O APIC that the state has.
abbrev pub found_ioapic : Acpi → Option (ℕ × ℕ)
found_ioapic s = if s.has_ioapic then some (s.ioapic_phys, s.ioapic_gsi_base) else none

entry_has :
    (e : MadtEntry) (n : ℕ) (s : Acpi)
    → (apply_entry e (n, s)).1.has_ioapic ≡ s.has_ioapic || e.type == 1 && leb 12 e.size
entry_has e n s = ground arith

entry_ioapic :
    (e : MadtEntry) (n : ℕ) (s : Acpi)
    → found_ioapic (apply_entry e (n, s)).1 ≡ (
        if s.has_ioapic
        then found_ioapic s
        else if e.type == 1 && leb 12 e.size
        then some (e.word4, e.word8)
        else none)
entry_ioapic e n s = ground arith

pub ioapic_lem :
    (es : List MadtEntry) (r : ℕ × Acpi)
    → found_ioapic (apply_all es r).1
      ≡ (if r.1.has_ioapic then found_ioapic r.1 else first_ioapic es)
ioapic_lem [] r = ground arith
ioapic_lem (e ∷ es) (n, s) =
    let has = entry_has e n s in
    let found = entry_ioapic e n s in rw (ioapic_lem es (apply_entry e (n, s))) (ground arith)

pub ids_above :
    (es : List MadtEntry) (r : ℕ × Acpi) (i : ℕ)
    → r.0 ≤ 32
    → (apply_all es r).0 ≤ i
    → (apply_all es r).1.cpu_apic_ids i ≡ r.1.cpu_apic_ids i
ids_above [] r i few above = refl
ids_above (e ∷ es) (n, s) i few above =
    let count = entry_count e n s in
    let step = entry_ids e n s i in
    let bound = count_lem es (apply_entry e (n, s)) (ground arith) in
    let rest = ids_above es (apply_entry e (n, s)) i (ground arith) above in ground arith

-- Overrides of 10 bytes are passed over.
pub long_override_gsi-acpi :
    (gsi : ℕ) (es : List MadtEntry) → acpi_overrides es ≡ true → long_override_gsi gsi es ≡ gsi
long_override_gsi-acpi gsi [] h = refl
long_override_gsi-acpi gsi (e ∷ es) h =
    let rest : acpi_overrides es ≡ true = ground arith in
    let passed : (e.type == 2 && leb 16 e.size && e.source == 0) ≡ false = ground (arith, h) in
    rw passed (long_override_gsi-acpi gsi es rest)
