-- ===== src/Devices/Pic/Chip.antt =====
-- The 8259 as its data sheet has it, and what the driver makes of the two that are there.
use verve_os.Base.{
  false, ℕ, ◌+◌, ◌-◌, ◌/◌, ◌%◌, ◌<◌, ◌≡◌, refl, ◌∙◌, arith, ltb, ◌==◌, ◌||◌, Bool, Bool-cases, inl,
  inr, if◌then◌else◌, List, [], ◌∷◌, u8,
}
use verve_os.Base.Bits.{digit, digit-clear_bit, digit-ones}
use verve_os.Devices.{
  Access, out_byte, in_byte, write_word, read_word, write_msr, read_msr, Log, Answers,
}
use verve_os.Devices.Pic.{pic_wait, pic_init, pic_irq_unmask}

-- `expects` is the number of initialisation words that are still to come.
pub record Chip : Type 0 where
  pub expects : ℕ
  pub base : ℕ
  pub cascade : ℕ
  pub mask : ℕ

-- A command with bit 4 set starts the initialisation, in which three words follow at the data port;
-- else a byte there is the mask.
abbrev command : ℕ → Chip → Chip
command v c = if v / 16 % 2 == 1 then record c { expects = 3; mask = 0 } else c

abbrev data_byte : ℕ → Chip → Chip
data_byte v c =
    if c.expects == 0
    then record c { mask = v }
    else if c.expects == 3
    then record c { expects = 2; base = v }
    else if c.expects == 2
    then record c { expects = 1; cascade = v }
    else record c { expects = 0 }

abbrev access : ℕ → Access → Chip → Chip
access cmd (out_byte port v) c =
    if port == cmd then command v c else if port == cmd + 1 then data_byte v c else c
access cmd (in_byte port) c = c
access cmd (write_word a v) c = c
access cmd (read_word a) c = c
access cmd (write_msr r lo hi) c = c
access cmd (read_msr r) c = c

-- The chip at the ports `cmd` and `cmd + 1`.
unfoldable pub chip_at : ℕ → Log → Chip
chip_at cmd [] = record { expects = 0; base = 0; cascade = 0; mask = 0 }
chip_at cmd (a ∷ log) = access cmd a (chip_at cmd log)

-- The bit of the line in the mask of its chip.
unfoldable pub masked : Log → ℕ → ℕ
masked log line =
    if ltb line 8
    then digit (chip_at 0x20 log).mask line
    else digit (chip_at 0xa0 log).mask (line - 8)

-- Both chips take bytes at the data port as masks.
pub record IsReady (log : Log) : Type 0 where
  pub first : (chip_at 0x20 log).expects ≡ 0
  pub second : (chip_at 0xa0 log).expects ≡ 0

-- A read of the data port gives the mask.
abbrev pub ReadsMask : Answers → Type 0
ReadsMask dev =
    (log : Log) (cmd : ℕ)
    → (chip_at cmd log).expects ≡ 0
    → dev.port log (cmd + 1) ≡ (chip_at cmd log).mask

pub record IsStarted (master slave : ℕ) (log : Log) : Type 0 where
  pub ready : IsReady log
  pub master_base : (chip_at 0x20 log).base ≡ u8 master
  pub slave_base : (chip_at 0xa0 log).base ≡ u8 slave
  pub master_cascade : (chip_at 0x20 log).cascade ≡ 4
  pub slave_cascade : (chip_at 0xa0 log).cascade ≡ 2
  pub master_mask : (chip_at 0x20 log).mask ≡ 255
  pub slave_mask : (chip_at 0xa0 log).mask ≡ 255

pub pic_init-IsStarted :
    (master slave : ℕ) (log : Log) → IsStarted master slave (pic_init master slave log)
unfolding pic_init pic_wait chip_at
pic_init-IsStarted master slave log = record {
  ready = record { first = refl; second = refl };
  master_base = refl;
  slave_base = refl;
  master_cascade = refl;
  slave_cascade = refl;
  master_mask = refl;
  slave_mask = refl;
}

module _ (dev : Answers) (reads : ReadsMask dev) where
  pic_irq_unmask-IsReady :
      (line : ℕ) (log : Log) → line < 16 → IsReady log → IsReady (pic_irq_unmask dev line log)
  unfolding pic_irq_unmask chip_at
  pic_irq_unmask-IsReady line log h ready = elim (Bool-cases (ltb line 8)) [
    | inl low ↦ rw low (record { first = ground (arith, ready.first); second = ready.second })
    | inr high ↦ rw high (record { first = ready.first; second = ground (arith, ready.second) })
  ]

  pic_irq_unmask_lem :
      (line other : ℕ) (log : Log)
      → line < 16
      → other < 16
      → IsReady log
      → masked (pic_irq_unmask dev line log) other ≡ (if line == other then 0 else masked log other)
  unfolding pic_irq_unmask chip_at masked
  pic_irq_unmask_lem line other log h ho ready = elim (Bool-cases (ltb line 8)) [
    | inl low ↦
        let small : u8 line ≡ line = ground (arith, low) in
        rw (low, small)
          (ground (
            arith,
            low,
            reads log 0x20 ready.first,
            ready.first,
            digit-clear_bit (chip_at 0x20 log).mask line other,
          ))
    | inr high ↦
        let small : u8 (line - 8) ≡ line - 8 = omega arith in
        rw (high, small)
          (ground (
            arith,
            high,
            reads log 0xa0 ready.second,
            ready.second,
            digit-clear_bit (chip_at 0xa0 log).mask (line - 8) (other - 8),
          ))
  ]

  -- The lines are unmasked one after the other.
  abbrev pub unmask_all : List ℕ → Log → Log
  unmask_all [] log = log
  unmask_all (line ∷ lines) log = unmask_all lines (pic_irq_unmask dev line log)

  abbrev pub AreLines : List ℕ → Type 0
  AreLines [] = Unit {0}
  AreLines (line ∷ lines) = (line < 16) × AreLines lines

  abbrev pub is_in : ℕ → List ℕ → Bool
  is_in other [] = false
  is_in other (line ∷ lines) = (line == other) || is_in other lines

  masked-unmask_all :
      (lines : List ℕ) (other : ℕ) (log : Log)
      → AreLines lines
      → other < 16
      → IsReady log
      → masked (unmask_all lines log) other ≡ (if is_in other lines then 0 else masked log other)
  masked-unmask_all [] other log h ho ready = refl
  masked-unmask_all (line ∷ lines) other log (h, hs) ho ready =
      masked-unmask_all lines other (pic_irq_unmask dev line log) hs ho
        (pic_irq_unmask-IsReady line log h ready)
      ∙ ground (arith, pic_irq_unmask_lem line other log h ho ready)

  all_masked :
      (master slave other : ℕ) (log : Log)
      → other < 16
      → masked (pic_init master slave log) other ≡ 1
  unfolding masked
  all_masked master slave other log ho =
      let start = pic_init-IsStarted master slave log in
      rw (start.master_mask, start.slave_mask)
        (ground (arith, digit-ones other, digit-ones (other - 8)))

  -- Where the data ports answer with the masks: after `pic_init` and the unmasking of some of the
  -- sixteen lines, in any order, exactly these lines are unmasked.
  pub pic_init-unmask_all :
      (master slave : ℕ) (lines : List ℕ) (other : ℕ) (log : Log)
      → AreLines lines
      → other < 16
      → masked (unmask_all lines (pic_init master slave log)) other
        ≡ (if is_in other lines then 0 else 1)
  pic_init-unmask_all master slave lines other log h ho =
      masked-unmask_all lines other (pic_init master slave log) h ho
        (pic_init-IsStarted master slave log).ready
      ∙ ground (arith, all_masked master slave other log ho)
