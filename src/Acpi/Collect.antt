-- ===== src/Acpi/Collect.antt =====
-- `madt_collect` on a memory that holds a MADT, and its termination on any memory.
use verve_os.Base.{
  true, false, not, ℕ, zero, suc, ◌+◌, ◌%◌, ◌^◌, ◌≤◌, ◌<◌, ◌≡◌, ◌≢◌, ap, inl, inr, ◌∙◌, Bool-cases,
  ◌&&◌, ◌||◌, arith, ltb, leb, ◌==◌, if◌then◌else◌, List, [], ◌∷◌, none, some, u32, bit_and,
}
use verve_os.Base.Bits.{bit_and_ones}
use verve_os.Base.Array.{update}
use verve_os.Base.Memory.{Mem, load8, load8-lt, load32}
use verve_os.Acpi.{Acpi, max_cpus_hw, madt_entry, madt_loop}
use verve_os.Acpi.Madt.{MadtEntry, entry_of, HoldsFrom}

-- `madt_entry` on an entry that has been read.
abbrev pub apply_entry : MadtEntry → ℕ × Acpi → ℕ × Acpi
apply_entry e (ncpu, s) =
    if e.type == 0 && leb 8 e.size
    then (if e.word4 % 2 == 1 && ltb ncpu max_cpus_hw
        then (ncpu + 1, record s { cpu_apic_ids = update s.cpu_apic_ids ncpu e.apic_id })
        else (ncpu, s))
    else if e.type == 1 && leb 12 e.size && not s.has_ioapic
    then (
      ncpu,
      record s {
        ioapic_id = e.io_id;
        ioapic_phys = e.word4;
        ioapic_gsi_base = e.word8;
        has_ioapic = true;
      },
    )
    else if e.type == 2 && leb 16 e.size
    then (if e.source == 0 then (ncpu, record s { irq0_gsi = e.word12 }) else (ncpu, s))
    else (ncpu, s)

abbrev pub apply_all : List MadtEntry → ℕ × Acpi → ℕ × Acpi
apply_all [] r = r
apply_all (e ∷ es) r = apply_all es (apply_entry e r)

enabled_lem : (w : ℕ) → not (bit_and w 1 == 0) ≡ (w % 2 == 1)
enabled_lem w = let masked = bit_and_ones 1 w in ground (arith, masked)

madt_entry_lem : (m : Mem) (q : ℕ) (r : ℕ × Acpi) → madt_entry m q r ≡ apply_entry (entry_of m q) r
unfolding madt_entry
madt_entry_lem m q (ncpu, s) = rw (enabled_lem (load32 m (q + 4)))

module _ (m : Mem) (p mlen : ℕ) (small : mlen + 255 < 2 ^ 32) where
  pub madt_loop_lem :
      (fuel off : ℕ) (es : List MadtEntry) (r : ℕ × Acpi)
      → HoldsFrom m p mlen off es
      → off ≤ mlen
      → mlen < fuel + off
      → madt_loop fuel m p mlen off r
        ≡ some (true, record (apply_all es r).1 { cpu_count = (apply_all es r).0 })
  unfolding madt_loop
  madt_loop_lem zero off es r holds inside enough = ground arith
  madt_loop_lem (suc fuel) off [] r holds inside enough =
      let last : leb (u32 (off + 2)) mlen ≡ false = ground arith in rw (last)
  madt_loop_lem (suc fuel) off (e ∷ es) r (reads, two, byte, fits, others) inside enough =
      let size_of : load8 m (p + off + 1) ≡ e.size = ap (λ x. x.size) reads in
      let next : u32 (off + e.size) ≡ off + e.size = ground arith in
      let more : leb (u32 (off + 2)) mlen ≡ true = ground arith in
      let fine : (ltb e.size 2 || ltb mlen (off + e.size)) ≡ false = ground arith in
      let rest =
        madt_loop_lem fuel (off + e.size) es (apply_entry e r) others fits (ground arith) in
      let same : madt_entry m (p + off) r ≡ apply_entry e r =
        madt_entry_lem m (p + off) r ∙ ap (λ read. apply_entry read r) reads in
      rw (more, size_of, next, fine, same, rest)

  -- The loop ends on any memory.
  pub madt_loop-ends :
      (fuel off : ℕ) (r : ℕ × Acpi)
      → off ≤ mlen
      → mlen < fuel + off
      → madt_loop fuel m p mlen off r ≢ none
  unfolding madt_loop
  madt_loop-ends zero off r inside enough = ground arith
  madt_loop-ends (suc fuel) off r inside enough =
      let size = load8 m (p + off + 1) in
      let byte = load8-lt m (p + off + 1) in
      elim (Bool-cases (leb (u32 (off + 2)) mlen)) [
        | inr done ↦ rw (done) (ground arith)
        | inl more ↦ elim (Bool-cases (ltb size 2 || ltb mlen (u32 (off + size)))) [
          | inl bad ↦ rw (more, bad) (ground arith)
          | inr fine ↦
              let rest =
                madt_loop-ends fuel (u32 (off + size)) (madt_entry m (p + off) r) (ground arith)
                  (ground arith) in
              rw (more, fine) rest
        ]
      ]
