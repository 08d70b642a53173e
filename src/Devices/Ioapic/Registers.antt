-- ===== src/Devices/Ioapic/Registers.antt =====
-- The registers of the controller, which are written through a window.
use verve_os.Base.{
  true, false, ℕ, ◌+◌, ◌-◌, ◌*◌, ◌^◌, ◌<◌, ◌≡◌, ◌≢◌, refl, ◌∙◌, ap, arith, ltb, ◌==◌, if◌then◌else◌,
  [], ◌∷◌, u32,
}
use verve_os.Base.Array.{Array, update}
use verve_os.Acpi.{Acpi}
use verve_os.Acpi.Start.{acpi_hw_ioapic_gsi_base, acpi_hw_irq0_gsi}
use verve_os.Devices.{Access, out_byte, in_byte, write_word, read_word, write_msr, read_msr, Log}
use verve_os.Devices.Ioapic.{
  Ioapic, ioapic_mmio_write, ioapic_mmio_read, ioapic_set_rte, ioapic_route_irq0_timer,
}

pub record Registers : Type 0 where
  pub selected : ℕ
  pub value : Array ℕ

-- A word at the base selects a register, and a word at the window is written to it.
abbrev access : ℕ → Access → Registers → Registers
access base (write_word a v) r =
    if a == base
    then record r { selected = v }
    else if a == base + 16
    then record r { value = update r.value r.selected v }
    else r
access base (out_byte port v) r = r
access base (in_byte port) r = r
access base (read_word a) r = r
access base (write_msr m lo hi) r = r
access base (read_msr m) r = r

-- From the values `start` on.
unfoldable pub registers : ℕ → Array ℕ → Log → Registers
registers base start [] = record { selected = 0; value = start }
registers base start (a ∷ log) = access base a (registers base start log)

-- The pin of the timer: that of IRQ 0, or the first where the firmware gives a smaller number.
abbrev pub pin : Acpi → ℕ
pin acpi =
    if ltb acpi.irq0_gsi acpi.ioapic_gsi_base then 0 else acpi.irq0_gsi - acpi.ioapic_gsi_base

module _ (base : ℕ) (values : Array ℕ) (log : Log) (fits : base + 16 < 2 ^ 32) where
  write_lem :
      (reg val j : ℕ)
      → reg < 2 ^ 32
      → val < 2 ^ 32
      → (registers base values (ioapic_mmio_write base reg val log)).value j
        ≡ (if reg == j then val else (registers base values log).value j)
  unfolding registers ioapic_mmio_write
  write_lem reg val j hr hv =
      let low : u32 (base + 0) ≡ base = omega arith in
      let high : u32 (base + 16) ≡ base + 16 = omega arith in
      let self : (base == base) ≡ true = ground arith in
      let window : (base + 16 == base) ≡ false = ground arith in
      let window' : (base + 16 == base + 16) ≡ true = ground arith in
      let reg' : u32 reg ≡ reg = omega arith in
      let val' : u32 val ≡ val = omega arith in
      rw (low, high, self, window, window', reg', val') refl

  read_lem :
      (reg : ℕ)
      → (registers base values (ioapic_mmio_read base reg log)).value
        ≡ (registers base values log).value
  unfolding registers ioapic_mmio_read
  read_lem reg =
      let low : u32 (base + 0) ≡ base = omega arith in
      let self : (base == base) ≡ true = ground arith in rw (low, self) refl

-- Where the controller is at `base` and the pin is one of its first 240: after
-- `ioapic_route_irq0_timer` the entry of the pin sends vector 32, on its edge and not masked, to the
-- CPU of the identifier, and every other register holds what it held.
pub ioapic_route_irq0_timer_lem :
    (acpi : Acpi) (bsp : ℕ) (s : Ioapic) (values : Array ℕ) (j : ℕ)
    → s.base ≢ 0
    → s.base + 16 < 2 ^ 32
    → pin acpi < 240
    → bsp < 256
    → (registers s.base values (ioapic_route_irq0_timer acpi bsp s).log).value j ≡ (
        if 16 + pin acpi * 2 == j
        then 32
        else if 17 + pin acpi * 2 == j
        then bsp * 2 ^ 24
        else (registers s.base values s.log).value j)
unfolding ioapic_route_irq0_timer ioapic_set_rte acpi_hw_ioapic_gsi_base acpi_hw_irq0_gsi
ioapic_route_irq0_timer_lem acpi bsp s values j there fits few small =
    let there' : (s.base == 0) ≡ false = ground arith in
    let p = pin acpi in
    let high = u32 (bsp * 2 ^ 24) in
    let log₁ = ioapic_mmio_write s.base (17 + p * 2) high s.log in
    let log₂ = ioapic_mmio_write s.base (16 + p * 2) 32 log₁ in
    let same_pin : (if ltb acpi.irq0_gsi acpi.ioapic_gsi_base
            then acpi.ioapic_gsi_base
            else acpi.irq0_gsi)
          - acpi.ioapic_gsi_base
        ≡ p =
      ground arith in
    let first : u32 (16 + p * 2) ≡ 16 + p * 2 = omega (arith, few) in
    let second : u32 (16 + p * 2 + 1) ≡ 17 + p * 2 = omega (arith, few) in
    rw (there', same_pin, first, second)
      (ap (λ (f : Array ℕ). f j) (read_lem s.base values log₂ fits (16 + p * 2))
        ∙ ground (
          arith,
          write_lem s.base values log₁ fits (16 + p * 2) 32 j,
          write_lem s.base values s.log fits (17 + p * 2) high j,
          few,
        ))
