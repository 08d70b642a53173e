-- ===== src/Smp.antt =====
-- kernel/smp.c: the indices of the CPUs, and the start of the others by the first.
pub mod Index
pub mod Mail
pub mod Round
pub mod Start
mod Tests
use verve_os.Base.{
  ℕ, zero, suc, ◌+◌, ◌*◌, Bool, true, false, Option, none, some, List, [], ◌∷◌, ltb, ◌==◌,
  if◌then◌else◌, u8, u32, ◌>>>◌,
}
use verve_os.Base.Array.{Array, update, codes}
use verve_os.Base.Memory.{Mem, store8, store32}
use verve_os.Pmm.{alloc_frame}
use verve_os.Paging.{Machine, with_mem}
use verve_os.Paging.Boot.{Statics, map_identity_page}
use verve_os.Serial.{puts, put_u64_hex}
use verve_os.Acpi.{Acpi}
use verve_os.Acpi.Start.{acpi_hw_cpu_count, acpi_hw_copy_apic_ids}
use verve_os.Devices.{Log, Answers, write32}
use verve_os.Devices.Lapic.{
  lapic_id, lapic_mmio_map, lapic_msr_enable, lapic_software_enable, lapic_send_init,
  lapic_send_sipi, lapic_timer_periodic,
}

abbrev pub max_apic : ℕ
max_apic = 32

abbrev pub smp_tramp_phys : ℕ
smp_tramp_phys = 0x8000

abbrev pub smp_mail_phys : ℕ
smp_mail_phys = 0x9000

-- The machine, the accesses to devices and to the mailbox, `g_cpus_online` and `g_apic_to_logical`.
pub record Smp : Type 0 where
  pub machine : Machine
  pub log : Log
  pub cpus_online : ℕ
  pub apic_to_logical : Array ℕ

abbrev pub with_output : List ℕ → Smp → Smp
with_output out s = record s { machine = record s.machine { serial = out } }

abbrev pub print_number : List ℕ → ℕ → Smp → Smp
print_number text n s =
    with_output (puts (codes "\r\n") (put_u64_hex n (puts text s.machine.serial))) s

unfoldable pub clear_map : ℕ → ℕ → Array ℕ → Array ℕ
clear_map zero i map = map
clear_map (suc left) i map = clear_map left (i + 1) (update map i 0xff)

unfoldable pub fill_map : ℕ → ℕ → Array ℕ → Array ℕ → Array ℕ
fill_map zero i ids map = map
fill_map (suc left) i ids map = fill_map left (i + 1) ids (update map (ids i) (u8 i))

-- `ids` is the array on the stack, which is not initialised.
unfoldable pub smp_bootstrap_apic_map : Answers → Acpi → Array ℕ → Smp → Smp
smp_bootstrap_apic_map dev acpi ids s =
    let cleared = clear_map 256 0 s.apic_to_logical in
    let n = acpi_hw_cpu_count acpi in
    let own = lapic_id dev s.log in
    let few = if ltb max_apic n then max_apic else n in
    if n == 0
    then record s { log = own.1; apic_to_logical = fill_map 1 0 (update ids 0 own.0) cleared }
    else record s { apic_to_logical = fill_map few 0 (acpi_hw_copy_apic_ids ids few acpi) cleared }

unfoldable pub smp_cpu_index : Answers → Smp → ℕ × Smp
smp_cpu_index dev s =
    let (id, log) = lapic_id dev s.log in
    let ix = s.apic_to_logical id in (if ix == 0xff then 0 else ix, record s { log = log })

-- The bytes of the trampoline go to `p`.
unfoldable pub copy_trampoline : List ℕ → ℕ → Mem → Mem
copy_trampoline [] p m = m
copy_trampoline (b ∷ bs) p m = copy_trampoline bs (p + 1) (store8 m p b)

unfoldable pub smp_install_trampoline : List ℕ → Smp → Smp
smp_install_trampoline tramp s = record s {
  machine = with_mem s.machine (copy_trampoline tramp smp_tramp_phys s.machine.pmm.mem);
}

-- Word `i` of the mailbox. The store is also in the log, for the order with the accesses to devices.
unfoldable pub mail_store : ℕ → ℕ → Smp → Smp
mail_store i v s = record s {
  machine = with_mem s.machine (store32 s.machine.pmm.mem (smp_mail_phys + 4 * i) v);
  log = write32 (smp_mail_phys + 4 * i) v s.log;
}

-- `INIT`, and two times `SIPI`. The waits between them have no effect. `polls` is the fuel of each wait.
unfoldable pub wake : Answers → ℕ → ℕ → Log → Option Log
wake dev polls id log = elim (lapic_send_init dev polls id log) [
  | none ↦ none
  | some log ↦ elim (lapic_send_sipi dev polls id (u8 (smp_tramp_phys >>> 12)) log) [
    | none ↦ none
    | some log ↦ lapic_send_sipi dev polls id (u8 (smp_tramp_phys >>> 12)) log
  ]
]

-- The count and the message, after the CPU was woken.
abbrev pub count_online : ℕ → Smp → Option Log → Option Smp
count_online id s none = none
count_online id s (some log) = some (
    print_number (codes "[VerveOS] SMP: SIPI sent to APIC id=") id
      (record s { log = log; cpus_online = u32 (s.cpus_online + 1) }))

-- One round of the loop over CPUs. `entry` is the address of `verve_ap_entry`.
unfoldable pub start_one : Answers → ℕ → ℕ → ℕ → ℕ → Smp → Option Smp
start_one dev polls entry bsp_id id s =
    let given = alloc_frame s.machine.pmm in
    let taken : Smp = record s { machine = record s.machine { pmm = given.1 } } in
    let lacking =
      with_output
        (puts (codes "[VerveOS] SMP: pmm_alloc_frame(AP stack) failed\r\n") s.machine.serial)
        taken in
    let mailed =
      mail_store 2 entry (mail_store 1 (u32 (given.0 + 4096)) (mail_store 0 s.machine.cr3 taken)) in
    if id == bsp_id
    then some s
    else if given.0 == 0
    then some lacking
    else count_online id mailed (wake dev polls id mailed.log)

unfoldable pub start_all : Answers → ℕ → ℕ → ℕ → List ℕ → Smp → Option Smp
start_all dev polls entry bsp_id [] s = some s
start_all dev polls entry bsp_id (id ∷ ids) s = elim (start_one dev polls entry bsp_id id s) [
  | none ↦ none
  | some s' ↦ start_all dev polls entry bsp_id ids s'
]

-- The first `left` identifiers from `i` on.
abbrev pub listed : ℕ → ℕ → Array ℕ → List ℕ
listed zero i ids = []
listed (suc left) i ids = ids i ∷ listed left (i + 1) ids

abbrev report_online : Option Smp → Option Smp
report_online none = none
report_online (some s) = some (
    with_output
      (puts (codes ")\r\n") (
        put_u64_hex s.cpus_online
          (puts (codes "[VerveOS] SMP: bringing APs online done (cpus_online=") s.machine.serial)))
      s)

-- `tramp` are the bytes of the trampoline, which the build makes.
unfoldable pub smp_init : Answers → ℕ → Statics → List ℕ → ℕ → Acpi → Array ℕ → Smp → Option Smp
smp_init dev polls at tramp entry acpi ids s =
    let n = acpi_hw_cpu_count acpi in
    let few = if ltb max_apic n then max_apic else n in
    let begun =
      with_output (puts (codes "[VerveOS] SMP: using ACPI hw CPU list\r\n") s.machine.serial)
        (record s { cpus_online = 1 }) in
    let alone =
      with_output
        (puts (codes "[VerveOS] SMP: acpi reports 0 cpus; BSP-only\r\n") begun.machine.serial)
        begun in
    let pages =
      (map_identity_page at smp_mail_phys
        (map_identity_page at smp_tramp_phys begun.machine).1).1 in
    let installed = smp_install_trampoline tramp (record begun { machine = pages }) in
    let own = lapic_id dev installed.log in
    let ready =
      print_number (codes "[VerveOS] SMP: BSP Local APIC id=") own.0
        (record installed { log = own.1 }) in
    let started =
      start_all dev polls entry own.0 (listed few 0 (acpi_hw_copy_apic_ids ids few acpi)) ready in
    if n == 0 then some alone else report_online started

unfoldable pub smp_cpu_count : Smp → ℕ
smp_cpu_count s = s.cpus_online

-- `irq_timer_set_lapic_eoi(1)` sets the mode of the interrupts, which is the first result.
unfoldable pub smp_start_lapic_timer : Smp → ℕ × Smp
smp_start_lapic_timer s = (1, record s { log = lapic_timer_periodic 64 125000 3 s.log })

unfoldable pub smp_bsp_timer_start : Smp → ℕ × Smp
smp_bsp_timer_start s = smp_start_lapic_timer s

-- `verve_ap_entry` up to the call of `thread_ap_online`.
unfoldable pub ap_entry : Answers → Statics → Smp → ℕ × Smp
ap_entry dev at s =
    let mapped = lapic_mmio_map at s.machine in
    let enabled = lapic_software_enable dev (lapic_msr_enable dev s.log) in
    let (id, log) = lapic_id dev enabled in
    smp_start_lapic_timer (
      print_number (codes "[VerveOS] SMP: AP entered, lapic id=") id
        (record s { machine = mapped; log = log }))
