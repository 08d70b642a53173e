-- ===== src/Devices/Idt/Gates.antt =====
-- The gates as the processor reads them.
use verve_os.Base.{
  true, false, ℕ, zero, suc, ◌+◌, ◌*◌, ◌/◌, ◌%◌, ◌^◌, ◌≤◌, ◌<◌, ◌≡◌, refl, ◌∙◌, ap, arith, Bool,
  Bool-cases, inl, inr, ◌||◌, ◌&&◌, ltb, leb, ◌==◌, if◌then◌else◌, u8, u32, ◌>>>◌, bit_and,
}
use verve_os.Base.Array.{Array, update}
use verve_os.Base.Bits.{bit_and_ones}
use verve_os.Devices.Idt.{
  Gate, no_gate, idt_set, idt_set_user_gate, clear_gates, set_gates, idt_init,
}

-- `kind` 14 is an interrupt gate of 32 bits, which enters with interrupts off.
pub record Decoded : Type 0 where
  pub present : ℕ
  pub dpl : ℕ
  pub kind : ℕ
  pub selector : ℕ
  pub offset : ℕ

abbrev pub decode : Gate → Decoded
decode g = record {
  present = g.flags / 128;
  dpl = g.flags / 32 % 4;
  kind = g.flags % 32;
  selector = g.sel;
  offset = g.off_lo + g.off_hi * 2 ^ 16;
}

abbrev pub interrupt_gate : ℕ → ℕ → Decoded
interrupt_gate dpl handler = record {
  present = 1;
  dpl = dpl;
  kind = 14;
  selector = 8;
  offset = u32 handler;
}

abbrev pub not_present : Decoded
not_present = record { present = 0; dpl = 0; kind = 0; selector = 0; offset = 0 }

-- The vectors with a handler: the exceptions, the sixteen lines, the timer of the CPU and system calls.
abbrev pub has_handler : ℕ → Bool
has_handler v = ltb v 48 || v == 64 || v == 128

offset_lem : (h : ℕ) → bit_and (u32 h) 0xffff + bit_and (u32 h >>> 16) 0xffff * 2 ^ 16 ≡ u32 h
offset_lem h = omega (arith, bit_and_ones 16 (u32 h), bit_and_ones 16 (u32 h >>> 16))

decode-update :
    (idt : Array Gate) (i : ℕ) (g : Gate) (v : ℕ)
    → decode (update idt i g v) ≡ (if i == v then decode g else decode (idt v))
decode-update idt i g v = elim (Bool-cases (i == v)) [
  | inl same ↦ rw same refl
  | inr other ↦ rw other refl
]

range_step {ℓ} :
    {A : Type ℓ} (f : ℕ → A) (i left v : ℕ) (d : A)
    → (if leb (i + 1) v && ltb v (i + 1 + left) then f v else if i == v then f i else d)
      ≡ (if leb i v && ltb v (i + suc left) then f v else d)
range_step f i left v d = elim (Bool-cases (i == v)) [
  | inl same ↦
      let at : i ≡ v = ground (arith, same) in
      let above : leb (i + 1) v ≡ false = ground (arith, same) in
      let low : leb i v ≡ true = ground (arith, same) in
      let high : ltb v (i + suc left) ≡ true = ground (arith, same) in
      rw (above, same, low, high) (ap f at)
  | inr other ↦
      let edge : leb (i + 1) v ≡ leb i v = ground (arith, other) in
      let sum : i + 1 + left ≡ i + suc left = omega arith in rw (other, edge, sum) refl
]

decode-clear_gates :
    (left i : ℕ) (idt : Array Gate) (v : ℕ)
    → decode (clear_gates left i idt v)
      ≡ (if leb i v && ltb v (i + left) then not_present else decode (idt v))
unfolding clear_gates
decode-clear_gates zero i idt v = ground arith
decode-clear_gates (suc left) i idt v =
    decode-clear_gates left (i + 1) _ v
    ∙ rw (decode-update idt i no_gate v) (range_step (λ k. not_present) i left v (decode (idt v)))

decode-idt_set :
    (vec h : ℕ) (idt : Array Gate) (v : ℕ)
    → decode (idt_set vec h idt v) ≡ (if vec == v then interrupt_gate 0 h else decode (idt v))
unfolding idt_set
decode-idt_set vec h idt v = elim (Bool-cases (vec == v)) [
  | inl same ↦ rw (same, offset_lem h) refl
  | inr other ↦ rw other refl
]

decode-idt_set_user_gate :
    (vec h : ℕ) (idt : Array Gate) (v : ℕ)
    → decode (idt_set_user_gate vec h idt v)
      ≡ (if vec == v then interrupt_gate 3 h else decode (idt v))
unfolding idt_set_user_gate
decode-idt_set_user_gate vec h idt v = elim (Bool-cases (vec == v)) [
  | inl same ↦ rw (same, offset_lem h) refl
  | inr other ↦ rw other refl
]

decode-set_gates :
    (left i : ℕ) (stub : ℕ → ℕ) (idt : Array Gate) (v : ℕ)
    → i + left ≤ 256
    → decode (set_gates left i stub idt v)
      ≡ (if leb i v && ltb v (i + left) then interrupt_gate 0 (stub v) else decode (idt v))
unfolding set_gates
decode-set_gates zero i stub idt v h = ground arith
decode-set_gates (suc left) i stub idt v h =
    let small : u8 i ≡ i = omega arith in
    decode-set_gates left (i + 1) stub _ v (omega arith)
    ∙ rw (decode-idt_set (u8 i) (stub i) idt v, small)
        (range_step (λ k. interrupt_gate 0 (stub k)) i left v (decode (idt v)))

-- Whatever the table held, after `idt_init` the exceptions, the sixteen lines and the timer of the CPU
-- have interrupt gates of ring 0 to their stubs, vector 128 has one that ring 3 may use, no other
-- vector is present, and the limit is that of 256 gates.
pub idt_init_lem :
    (stub : ℕ → ℕ) (idt : Array Gate) (v : ℕ)
    → v < 256
    → (decode ((idt_init stub idt).0 v) ≡ (
        if has_handler v then interrupt_gate (if v == 128 then 3 else 0) (stub v) else not_present))
      × ((idt_init stub idt).1 ≡ 2047)
unfolding idt_init
idt_init_lem stub idt v hv =
    let cleared = clear_gates 256 0 idt in
    let faults = set_gates 32 0 stub cleared in
    let irqs = set_gates 16 32 stub faults in
    (
      decode-idt_set_user_gate 128 (stub 128) (idt_set 64 (stub 64) irqs) v
          ∙ rw
              (
                decode-idt_set 64 (stub 64) irqs v,
                decode-set_gates 16 32 stub faults v (omega arith),
                decode-set_gates 32 0 stub cleared v (omega arith),
                decode-clear_gates 256 0 idt v,
              )
              (ground arith),
      refl,
    )

pub present-has_handler :
    (stub : ℕ → ℕ) (idt : Array Gate) (v : ℕ)
    → v < 256
    → (decode ((idt_init stub idt).0 v)).present ≡ 1
    → has_handler v ≡ true
present-has_handler stub idt v hv present = elim (Bool-cases (has_handler v)) [
  | inl there ↦ there
  | inr missing ↦
      let absent : (decode ((idt_init stub idt).0 v)).present ≡ 0 =
        ap (λ (d : Decoded). d.present) ((idt_init_lem stub idt v hv).0) ∙ rw missing refl in
      absurd (omega (arith, absent, present))
]

pub has_handler-present :
    (stub : ℕ → ℕ) (idt : Array Gate) (v : ℕ)
    → v < 256
    → has_handler v ≡ true
    → (decode ((idt_init stub idt).0 v)).present ≡ 1
has_handler-present stub idt v hv there =
    ap (λ (d : Decoded). d.present) ((idt_init_lem stub idt v hv).0) ∙ rw there refl
