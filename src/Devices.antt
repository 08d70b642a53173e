-- ===== src/Devices.antt =====
-- The devices of the i386 machine (arch/i386/pic.c, pit.c, lapic.c, ioapic.c) and the tables of the
-- processor (gdt.c, idt.c). A driver's work is the list of its accesses, the newest first; what a
-- device answers to a read is a parameter, by the accesses before it.
pub mod Pic
pub mod Pit
pub mod Lapic
pub mod Ioapic
pub mod Idt
pub mod Gdt
mod Tests
use verve_os.Base.{ℕ, ◌+◌, ◌*◌, List, [], ◌∷◌, u8, u32}

-- Bytes to and from ports, words to and from registers in memory, and the registers of a CPU model.
pub data Access : Type 0 where
  out_byte : (port value : ℕ) → Access
  in_byte : (port : ℕ) → Access
  write_word : (address value : ℕ) → Access
  read_word : (address : ℕ) → Access
  write_msr : (register lo hi : ℕ) → Access
  read_msr : (register : ℕ) → Access

abbrev pub Log : Type 0
Log = List Access

-- What is read at a port, at a register in memory, and in a register of the CPU model (two words).
pub record Answers : Type 0 where
  pub port : Log → ℕ → ℕ
  pub word : Log → ℕ → ℕ
  pub msr : Log → ℕ → ℕ × ℕ

abbrev pub outb : ℕ → ℕ → Log → Log
outb port value log = out_byte port (u8 value) ∷ log

abbrev pub write32 : ℕ → ℕ → Log → Log
write32 address value log = write_word address (u32 value) ∷ log

-- The words that were written, the newest first.
unfoldable pub words_written : Log → List (ℕ × ℕ)
words_written [] = []
words_written (write_word a v ∷ log) = (a, v) ∷ words_written log
words_written (out_byte p v ∷ log) = words_written log
words_written (in_byte p ∷ log) = words_written log
words_written (read_word a ∷ log) = words_written log
words_written (write_msr r lo hi ∷ log) = words_written log
words_written (read_msr r ∷ log) = words_written log
