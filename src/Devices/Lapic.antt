-- ===== src/Devices/Lapic.antt =====
-- arch/i386/lapic.c: the interrupt controller of each CPU.
pub mod Send
use verve_os.Base.{
  ℕ, zero, suc, ◌+◌, ◌*◌, Option, none, some, ◌∷◌, ◌==◌, if◌then◌else◌, u8, u32, ◌<<<◌, ◌>>>◌,
  bit_and, bit_or,
}
use verve_os.Paging.{Machine}
use verve_os.Paging.Boot.{Statics, map_identity_page}
use verve_os.Devices.{Log, Answers, read_word, read_msr, write_msr, write32}

abbrev pub lapic_default_base : ℕ
lapic_default_base = 0xfee0_0000

abbrev pub ia32_apic_base : ℕ
ia32_apic_base = 0x1b

abbrev pub mmio_w32 : ℕ → ℕ → Log → Log
mmio_w32 off v log = write32 (lapic_default_base + off) v log

abbrev pub mmio_r32 : Answers → ℕ → Log → ℕ × Log
mmio_r32 dev off log =
    (dev.word log (lapic_default_base + off), read_word (lapic_default_base + off) ∷ log)

unfoldable pub lapic_msr_enable : Answers → Log → Log
lapic_msr_enable dev log =
    let (lo, hi) = dev.msr log ia32_apic_base in
    write_msr ia32_apic_base (bit_or lo (1 <<< 11)) hi ∷ read_msr ia32_apic_base ∷ log

unfoldable pub lapic_mmio_map : Statics → Machine → Machine
lapic_mmio_map at s = (map_identity_page at lapic_default_base s).1

unfoldable pub lapic_software_enable : Answers → Log → Log
lapic_software_enable dev log =
    let (s, read) = mmio_r32 dev 0x0f0 log in
    mmio_w32 0x0f0 (bit_or (bit_or (bit_and s 0xffff_fe00) 0x1ff) 0x100) read

unfoldable pub lapic_eoi : Log → Log
lapic_eoi log = mmio_w32 0x0b0 0 log

unfoldable pub lapic_id : Answers → Log → ℕ × Log
lapic_id dev log = let (v, read) = mmio_r32 dev 0x020 log in (u8 (v >>> 24), read)

-- The fuel is the number of reads. `none` means that it ran out.
unfoldable pub lapic_icr_wait : Answers → ℕ → Log → Option Log
lapic_icr_wait dev zero log = none
lapic_icr_wait dev (suc fuel) log =
    let (v, read) = mmio_r32 dev 0x300 log in
    let rest = lapic_icr_wait dev fuel read in if bit_and v (1 <<< 12) == 0 then some read else rest

unfoldable pub lapic_send_init : Answers → ℕ → ℕ → Log → Option Log
lapic_send_init dev fuel apic_id log =
    lapic_icr_wait dev fuel (mmio_w32 0x300 0x4500 (mmio_w32 0x310 (apic_id <<< 24) log))

unfoldable pub lapic_send_sipi : Answers → ℕ → ℕ → ℕ → Log → Option Log
lapic_send_sipi dev fuel apic_id vector log =
    lapic_icr_wait dev fuel
      (mmio_w32 0x300 (bit_or 0x600 vector) (mmio_w32 0x310 (apic_id <<< 24) log))

unfoldable pub lapic_bsp_early_init : Answers → Statics → Machine × Log → Machine × Log
lapic_bsp_early_init dev at (s, log) =
    (lapic_mmio_map at s, lapic_software_enable dev (lapic_msr_enable dev log))

unfoldable pub lapic_timer_periodic : ℕ → ℕ → ℕ → Log → Log
lapic_timer_periodic vector initial_count divide_reg log =
    let log = mmio_w32 0x320 (bit_or 0x1_0000 vector) log in
    let log = mmio_w32 0x3e0 divide_reg log in
    let log = mmio_w32 0x380 initial_count log in mmio_w32 0x320 (bit_or 0x2_0000 vector) log
