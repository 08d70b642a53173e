-- ===== src/Devices/Idt.antt =====
-- arch/i386/idt.c: the gates of the 256 interrupt vectors.
pub mod Gates
use verve_os.Base.{
  ℕ, zero, suc, ◌+◌, ◌-◌, ◌*◌, ◌/◌, ◌%◌, ◌^◌, ◌<◌, ◌≡◌, refl, arith, Bool, ◌||◌, ltb, leb, ◌==◌,
  if◌then◌else◌, u8, u32, ◌>>>◌, bit_and,
}
use verve_os.Base.Array.{Array, update}
use verve_os.Base.Bits.{bit_and_ones}

pub record Gate : Type 0 where
  pub off_lo : ℕ
  pub sel : ℕ
  pub ist_zero : ℕ
  pub flags : ℕ
  pub off_hi : ℕ

-- The fields for a handler, with the flags.
abbrev gate : ℕ → ℕ → Gate
gate flags handler = record {
  off_lo = bit_and (u32 handler) 0xffff;
  sel = 8;
  ist_zero = 0;
  flags = flags;
  off_hi = bit_and (u32 handler >>> 16) 0xffff;
}

unfoldable pub idt_set : ℕ → ℕ → Array Gate → Array Gate
idt_set vec handler idt = update idt vec (gate 0x8e handler)

unfoldable pub idt_set_user_gate : ℕ → ℕ → Array Gate → Array Gate
idt_set_user_gate vec handler idt = update idt vec (gate 0xee handler)

abbrev pub no_gate : Gate
no_gate = record { off_lo = 0; sel = 0; ist_zero = 0; flags = 0; off_hi = 0 }

-- The loops, with the rounds left. `stub v` is the address of `isr_v` or `irq_v`.
unfoldable pub clear_gates : ℕ → ℕ → Array Gate → Array Gate
clear_gates zero i idt = idt
clear_gates (suc left) i idt = clear_gates left (i + 1) (update idt i no_gate)

unfoldable pub set_gates : ℕ → ℕ → (ℕ → ℕ) → Array Gate → Array Gate
set_gates zero vec stub idt = idt
set_gates (suc left) vec stub idt = set_gates left (vec + 1) stub (idt_set (u8 vec) (stub vec) idt)

-- The table, and the limit that `lidt` gets.
unfoldable pub idt_init : (ℕ → ℕ) → Array Gate → Array Gate × ℕ
idt_init stub idt =
    let faults = set_gates 32 0 stub (clear_gates 256 0 idt) in
    let irqs = set_gates 16 32 stub faults in
    (idt_set_user_gate 128 (stub 128) (idt_set 64 (stub 64) irqs), 256 * 8 - 1)
