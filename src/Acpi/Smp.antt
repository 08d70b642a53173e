-- ===== src/Acpi/Smp.antt =====
-- kernel/acpi_smp.c: the identifiers of the CPUs, for the start of the other processors.
use verve_os.Base.{
  true, not, ℕ, zero, suc, ◌+◌, ◌≡◌, Bool, ◌&&◌, arith, ltb, leb, ◌==◌, if◌then◌else◌, List, Option,
  none, some,
}
use verve_os.Base.Array.{Array, update}
use verve_os.Base.Memory.{Mem}
use verve_os.Acpi.{Acpi}
use verve_os.Acpi.Start.{copy_ids, acpi_hw_init, acpi_hw_cpu_count, acpi_hw_copy_apic_ids}

-- The end of `acpi_collect_cpu_apic_ids`: the count, what `apic_ids_out` holds, and the state.
unfoldable pub hand_out : ℕ → Array ℕ → Bool × Acpi × List ℕ → ℕ × Array ℕ × Acpi × List ℕ
hand_out max ids (ok, s, out) =
    let n = acpi_hw_cpu_count s in
    let c = if ltb max n then max else n in
    if not ok
    then (0, ids, s, out)
    else if n == 0
    then (0, ids, s, out)
    else (c, acpi_hw_copy_apic_ids ids c s, s, out)

-- `apic_ids_out` is not `NULL`.
unfoldable pub acpi_collect_cpu_apic_ids :
    Mem → ℕ → Array ℕ → ℕ → Acpi → List ℕ → Option (ℕ × Array ℕ × Acpi × List ℕ)
acpi_collect_cpu_apic_ids m info ids max s out =
    if max == 0
    then some (0, ids, s, out)
    else elim (acpi_hw_init m info s out) [ none ↦ none | some r ↦ some (hand_out max ids r) ]

pub copy_ids_lem :
    (left i : ℕ) (ids out : Array ℕ) (j : ℕ)
    → copy_ids left i ids out j ≡ (if leb i j && ltb j (i + left) then ids j else out j)
unfolding copy_ids
copy_ids_lem zero i ids out j = ground arith
copy_ids_lem (suc left) i ids out j =
    ground (arith, copy_ids_lem left (i + 1) ids (update out i (ids i)) j)

-- After a success of `acpi_hw_init`, the first places of the array get the identifiers, as many as
-- there are CPUs and `max` at most; the others keep what they held.
hand_out_lem :
    (max : ℕ) (ids : Array ℕ) (s : Acpi) (out : List ℕ) (j : ℕ)
    → let r = hand_out max ids (true, s, out) in
      (r.0 ≡ (if ltb max s.cpu_count then max else s.cpu_count))
      × (r.1 j ≡ (if ltb j r.0 then s.cpu_apic_ids j else ids j))
unfolding hand_out acpi_hw_copy_apic_ids acpi_hw_cpu_count
hand_out_lem max ids s out j =
    let c = if ltb max s.cpu_count then max else s.cpu_count in
    let copied =
      copy_ids_lem (if ltb c s.cpu_count then c else s.cpu_count) 0 s.cpu_apic_ids ids j in
    ground arith
