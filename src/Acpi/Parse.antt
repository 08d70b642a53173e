-- ===== src/Acpi/Parse.antt =====
-- The RSDP and the MADT, as the code reads them and as the tables say.
use verve_os.Base.{
  Bool-cases, inl, inr, true, false, not, ℕ, suc, ◌+◌, ◌%◌, ◌^◌, ◌≤◌, ◌<◌, ◌≡◌, Bool, ◌&&◌, arith,
  ltb, leb, ◌==◌, if◌then◌else◌, List, length, get_or, Option, none, some,
}
use verve_os.Base.Memory.{Mem, load8, load32, load64}
use verve_os.Acpi.{Acpi, madt_collect, rsdp_parse, signature_ok}
use verve_os.Acpi.Sums.{total, acpi_ok_lem}
use verve_os.Acpi.Madt.{MadtEntry, HoldsFrom, cpus, first_ioapic, acpi_overrides, long_override_gsi}
use verve_os.Acpi.Collect.{apply_all, madt_loop_lem}
use verve_os.Acpi.Fields.{
  at_most_32, count_lem, ids_lem, ids_above, timer_lem, long_override_gsi-acpi, ioapic_lem,
  found_ioapic,
}

-- What `madt_collect` returns on the entries `es`.
pub record Collects (es : List MadtEntry) (s : Acpi) (result : Option (Bool × Acpi)) : Type 0 where
  pub after : Acpi
  pub returns : result ≡ some (true, after)
  pub count : after.cpu_count ≡ at_most_32 (length (cpus es))
  pub ids :
      (i : ℕ)
      → after.cpu_apic_ids i
        ≡ (if ltb i after.cpu_count then get_or (cpus es) i 0 else s.cpu_apic_ids i)
  pub io : found_ioapic after ≡ first_ioapic es
  pub timer : after.irq0_gsi ≡ long_override_gsi 0 es
  pub acpi_skipped : (if acpi_overrides es then after.irq0_gsi else 0) ≡ 0

-- On a memory that holds a MADT of `mlen` bytes at `p`, `madt_collect` succeeds: the CPUs are those
-- of the enabled local APICs, in order and 32 at most, the places behind them keep what they held,
-- the I/O APIC is the first one. The interrupt of the timer is the word at byte 12 of the last entry of
-- type 2 that has 16 bytes at least and 0 at byte 8, the layout that the code expects, or 0 if there is
-- none; so it is 0 where the overrides have the 10 bytes of ACPI, whatever they say.
pub madt_collect-Collects :
    (m : Mem) (p mlen : ℕ) (es : List MadtEntry) (s : Acpi)
    → mlen + 255 < 2 ^ 32
    → 44 ≤ mlen
    → HoldsFrom m p mlen 44 es
    → Collects es s (madt_collect m p mlen s)
unfolding madt_collect
madt_collect-Collects m p mlen es s small head holds =
    let r0 : ℕ × Acpi = (0, record s { irq0_gsi = 0; has_ioapic = false }) in
    let r = apply_all es r0 in
    let long : ltb mlen 44 ≡ false = ground arith in
    let loop = madt_loop_lem m p mlen small (suc mlen) 44 es r0 holds head (omega arith) in
    record {
      after = record r.1 { cpu_count = r.0 };
      returns = rw long loop;
      count = let n = count_lem es r0 (omega arith) in ground arith;
      ids = λ i. elim (Bool-cases (ltb i r.0)) [
        | inl below ↦ let id = ids_lem es r0 i (omega arith) (ground arith) in ground arith
        | inr above ↦ let id = ids_above es r0 i (omega arith) (ground arith) in ground arith
      ];
      io = ioapic_lem es r0;
      timer = timer_lem es r0;
      acpi_skipped = ground (arith, timer_lem es r0, long_override_gsi-acpi 0 es);
    }

-- The eight bytes at `p` are the signature.
abbrev pub is_signed : Mem → ℕ → Bool
is_signed m p =
    load8 m p == b'R'
    && load8 m (p + 1) == b'S'
    && load8 m (p + 2) == b'D'
    && load8 m (p + 3) == b' '
    && load8 m (p + 4) == b'P'
    && load8 m (p + 5) == b'T'
    && load8 m (p + 6) == b'R'
    && load8 m (p + 7) == b' '

signature_ok_lem : (m : Mem) (p : ℕ) → signature_ok 8 0 m p ≡ is_signed m p
unfolding signature_ok
signature_ok_lem m p = ground arith

-- `rsdp_parse` accepts a copy exactly when it has 20 bytes at least, begins with the signature, and
-- its first 20 bytes sum to 0 modulo 256. It uses the XSDT exactly when the copy has 36 bytes at
-- least, the revision is 2 or more, and the address of the XSDT is not 0.
pub rsdp_parse_lem :
    (m : Mem) (p len : ℕ)
    → rsdp_parse m p len ≡ (
        if leb 20 len && is_signed m p && total 20 m p % 256 == 0
        then some (record {
          rsdt = load32 m (p + 16);
          xsdt = if leb 36 len && leb 2 (load8 m (p + 15)) then load64 m (p + 24) else 0;
          uses_xsdt = leb 36 len && leb 2 (load8 m (p + 15)) && not (load64 m (p + 24) == 0);
        })
        else none)
unfolding rsdp_parse
rsdp_parse_lem m p len =
    let sum = acpi_ok_lem m p 20 in let signed = signature_ok_lem m p in ground arith
