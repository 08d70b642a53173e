-- ===== src/Acpi/Madt.antt =====
-- The MADT as a list of entries, and when a memory holds one.
use verve_os.Base.{
  ℕ, ◌+◌, ◌%◌, ◌≤◌, ◌<◌, ◌≡◌, Bool, true, not, ◌&&◌, ◌||◌, leb, ◌==◌, if◌then◌else◌, List, [], ◌∷◌,
  Option, none, some,
}
use verve_os.Base.Memory.{Mem, load8, load32}

-- An entry, with the fields that any of its types has.
pub record MadtEntry : Type 0 where
  pub type : ℕ
  pub size : ℕ
  pub io_id : ℕ
  pub apic_id : ℕ
  pub source : ℕ
  pub word4 : ℕ
  pub word8 : ℕ
  pub word12 : ℕ

abbrev pub entry_of : Mem → ℕ → MadtEntry
entry_of m q = record {
  type = load8 m q;
  size = load8 m (q + 1);
  io_id = load8 m (q + 2);
  apic_id = load8 m (q + 3);
  source = load8 m (q + 8);
  word4 = load32 m (q + 4);
  word8 = load32 m (q + 8);
  word12 = load32 m (q + 12);
}

-- The entries lie from offset `off` on, and end where no other one fits before `mlen`.
abbrev pub HoldsFrom : Mem → ℕ → ℕ → ℕ → List MadtEntry → Type 0
HoldsFrom m p mlen off [] = mlen < off + 2
HoldsFrom m p mlen off (e ∷ es) =
    (entry_of m (p + off) ≡ e)
    × (2 ≤ e.size)
    × (e.size < 256)
    × (off + e.size ≤ mlen)
    × HoldsFrom m p mlen (off + e.size) es

-- The identifiers of the enabled local APICs, in order.
abbrev pub cpus : List MadtEntry → List ℕ
cpus [] = []
cpus (e ∷ es) =
    if e.type == 0 && leb 8 e.size && e.word4 % 2 == 1 then e.apic_id ∷ cpus es else cpus es

-- Every override has 10 bytes, as those of ACPI have.
abbrev pub acpi_overrides : List MadtEntry → Bool
acpi_overrides [] = true
acpi_overrides (e ∷ es) = (not (e.type == 2) || (e.size == 10)) && acpi_overrides es

-- The address and the first interrupt of the first I/O APIC.
abbrev pub first_ioapic : List MadtEntry → Option (ℕ × ℕ)
first_ioapic [] = none
first_ioapic (e ∷ es) =
    if e.type == 1 && leb 12 e.size then some (e.word4, e.word8) else first_ioapic es

-- The word at byte 12 of the last entry of type 2 with 16 bytes at least and 0 at byte 8, which is the
-- layout that the code expects and not that of ACPI; `gsi` if there is none.
abbrev pub long_override_gsi : ℕ → List MadtEntry → ℕ
long_override_gsi gsi [] = gsi
long_override_gsi gsi (e ∷ es) =
    long_override_gsi (if e.type == 2 && leb 16 e.size && e.source == 0 then e.word12 else gsi) es
