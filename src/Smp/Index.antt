-- ===== src/Smp/Index.antt =====
-- The index of a CPU by its identifier.
use verve_os.Base.{
  false, ℕ, zero, suc, ◌+◌, ◌≤◌, ◌<◌, ◌≡◌, ◌≢◌, refl, sym, ◌∙◌, ap, arith, Bool-cases, inl, inr,
  leb, ltb, ◌&&◌, ◌==◌, if◌then◌else◌, u8,
}
use verve_os.Base.Array.{Array, update}
use verve_os.Acpi.{Acpi}
use verve_os.Acpi.Start.{acpi_hw_cpu_count, acpi_hw_copy_apic_ids}
use verve_os.Acpi.Smp.{copy_ids_lem}
use verve_os.Devices.{Log, Answers}
use verve_os.Devices.Lapic.{lapic_id}
use verve_os.Smp.{Smp, clear_map, fill_map, smp_bootstrap_apic_map, smp_cpu_index}

clear_map_lem :
    (left i : ℕ) (map : Array ℕ) (id : ℕ)
    → clear_map left i map id ≡ (if leb i id && ltb id (i + left) then 0xff else map id)
unfolding clear_map
clear_map_lem zero i map id = ground arith
clear_map_lem (suc left) i map id =
    ground (arith, clear_map_lem left (i + 1) (update map i 0xff) id)

fill_map_other :
    (left i : ℕ) (ids map : Array ℕ) (id : ℕ)
    → ((j : ℕ) → i ≤ j → j < i + left → ids j ≢ id)
    → fill_map left i ids map id ≡ map id
unfolding fill_map
fill_map_other zero i ids map id none_has = refl
fill_map_other (suc left) i ids map id none_has =
    fill_map_other left (i + 1) ids _ id (λ j h k. none_has j (omega arith) (omega arith))
    ∙ ground (arith, none_has i (omega arith) (omega arith))

abbrev AreDistinct : ℕ → ℕ → Array ℕ → Type 0
AreDistinct left i ids =
    (j k : ℕ) → i ≤ j → j < i + left → i ≤ k → k < i + left → ids j ≡ ids k → j ≡ k

fill_map_own :
    (left i : ℕ) (ids map : Array ℕ) (j : ℕ)
    → i ≤ j
    → j < i + left
    → i + left ≤ 32
    → AreDistinct left i ids
    → fill_map left i ids map (ids j) ≡ j
unfolding fill_map
fill_map_own zero i ids map j h k few distinct = absurd (omega arith)
fill_map_own (suc left) i ids map j h k few distinct = elim (Bool-cases (i == j)) [
  | inl same ↦
      let at : i ≡ j = ground (arith, same) in
      let value : update map (ids i) (u8 i) (ids j) ≡ j = ground (arith, ap ids at) in
      fill_map_other left (i + 1) ids _ (ids j) (λ k' h' b e.
        absurd
          (omega (arith, distinct k' j (omega arith) (omega arith) (omega arith) (omega arith) e)))
      ∙ value
  | inr later ↦
      fill_map_own left (i + 1) ids _ j (ground (arith, later)) (omega arith) (omega arith)
        (λ a b ha ka hb kb e.
          distinct a b (omega arith) (omega arith) (omega arith) (omega arith) e)
]

-- As many CPUs as the arrays have place for.
abbrev pub counted : Acpi → ℕ
counted acpi = if ltb 32 acpi.cpu_count then 32 else acpi.cpu_count

copied :
    (acpi : Acpi) (ids : Array ℕ) (j : ℕ)
    → j < counted acpi
    → acpi_hw_copy_apic_ids ids (counted acpi) acpi j ≡ acpi.cpu_apic_ids j
unfolding acpi_hw_copy_apic_ids
copied acpi ids j h =
    let few = counted acpi in
    ground (
      arith,
      copy_ids_lem (if ltb few acpi.cpu_count then few else acpi.cpu_count) 0 acpi.cpu_apic_ids ids
          j,
    )

-- The index that this CPU finds in the map that `smp_bootstrap_apic_map` made.
abbrev pub index_now : Answers → Acpi → Array ℕ → Smp → Log → ℕ
index_now dev acpi ids s log =
    (smp_cpu_index dev (record (smp_bootstrap_apic_map dev acpi ids s) { log = log })).0

module _ (dev : Answers) (acpi : Acpi) (ids : Array ℕ) (s : Smp) (log : Log)
    (some_cpu : 1 ≤ acpi.cpu_count) where
  abbrev own_ids : Array ℕ
  own_ids = acpi_hw_copy_apic_ids ids (counted acpi) acpi

  abbrev own_map : Array ℕ
  own_map = fill_map (counted acpi) 0 own_ids (clear_map 256 0 s.apic_to_logical)

  index_lem :
      (id : ℕ)
      → (lapic_id dev log).0 ≡ id
      → index_now dev acpi ids s log ≡ (if own_map id == 0xff then 0 else own_map id)
  unfolding smp_cpu_index smp_bootstrap_apic_map acpi_hw_cpu_count
  index_lem id e = let there : (acpi.cpu_count == 0) ≡ false = ground arith in rw (e, there) refl

  module _
      (distinct : (j k : ℕ)
        → j < counted acpi
        → k < counted acpi
        → acpi.cpu_apic_ids j ≡ acpi.cpu_apic_ids k
        → j ≡ k) where
    few : counted acpi ≤ 32
    few = ground arith

    own-AreDistinct : AreDistinct (counted acpi) 0 own_ids
    own-AreDistinct a b ha ka hb kb e =
        distinct a b (omega arith) (omega arith)
          (sym (copied acpi ids a (omega arith)) ∙ e ∙ copied acpi ids b (omega arith))

    -- Where the firmware lists CPUs with distinct identifiers, the CPU with the identifier of place `j`,
    -- among the first 32, finds the index `j`.
    pub smp_cpu_index-smp_bootstrap_apic_map :
        (j : ℕ)
        → j < counted acpi
        → acpi.cpu_apic_ids j ≡ (lapic_id dev log).0
        → index_now dev acpi ids s log ≡ j
    smp_cpu_index-smp_bootstrap_apic_map j h e =
        let same : own_ids j ≡ (lapic_id dev log).0 = copied acpi ids j h ∙ e in
        let found : own_map (lapic_id dev log).0 ≡ j = rw same at (
          fill_map_own (counted acpi) 0 own_ids (clear_map 256 0 s.apic_to_logical) j (omega arith)
            (omega arith) (omega (arith, few)) own-AreDistinct) in
        index_lem (lapic_id dev log).0 refl ∙ ground (arith, found, few)

  -- A CPU whose identifier is not among the first 32 finds the index 0.
  smp_cpu_index_unknown :
      ((j : ℕ) → j < counted acpi → acpi.cpu_apic_ids j ≢ (lapic_id dev log).0)
      → index_now dev acpi ids s log ≡ 0
  unfolding lapic_id
  smp_cpu_index_unknown none_has =
      let id = (lapic_id dev log).0 in
      let cleared = clear_map 256 0 s.apic_to_logical in
      let kept =
        fill_map_other (counted acpi) 0 own_ids cleared id
          (λ j h k e. none_has j (omega arith) (sym (copied acpi ids j (omega arith)) ∙ e)) in
      let empty : own_map id ≡ 0xff =
        kept ∙ ground (arith, clear_map_lem 256 0 s.apic_to_logical id) in
      index_lem id refl ∙ rw empty refl
