-- ===== src/Base/Bits/Pages.antt =====
-- Addresses of pages with flags in their low twelve bits.
use Prim.Native.Nat.{ℕ, ◌+◌, ◌*◌, ◌%◌, ◌<◌, bit_and, bit_or, bit_or-bitwise}
use mathlib.Core.Path.{◌≡◌, refl, sym, ◌∙◌, ap, ap₂}
use native.Mathlib.Omega.{arith}
use verve_os.Base.Bits.Masks.{
  bit_or_blocks, bit_or-zero, bit_and_ones, bit_and_blocks, bit_and-zero,
}

zero-bit_or : (f : ℕ) → bit_or 0 f ≡ f
zero-bit_or f = simp bit_or-bitwise refl

pub bit_or_page : (q f : ℕ) → f < 4096 → bit_or (q * 4096) f ≡ q * 4096 + f
bit_or_page q f h =
    let whole : q * 4096 + 0 ≡ q * 4096 = omega arith in
    let none_above : 0 * 4096 + f ≡ f = omega arith in
    ap₂ bit_or (sym whole) (sym none_above)
    ∙ bit_or_blocks 12 q 0 0 f (omega arith) h
    ∙ ap₂ (λ (x y : ℕ). x * 4096 + y) (bit_or-zero q) (zero-bit_or f)

pub bit_and_table_index : (a : ℕ) → bit_and a 0x3ff ≡ a % 1024
bit_and_table_index a = bit_and_ones 10 a

-- The bits present and writable.
pub present_rw : (q : ℕ) → bit_or (bit_or (q * 4096) 1) 2 ≡ q * 4096 + 3
present_rw q =
    ap (λ (x : ℕ). bit_or x 2) (bit_or_page q 1 (omega arith))
    ∙ bit_or_blocks 12 q 1 0 2 (omega arith) (omega arith)
    ∙ ap (λ (x : ℕ). x * 4096 + 3) (bit_or-zero q)

-- Flags below the twelfth bit are those of the low part.
pub bit_and_flags : (q f g : ℕ) → f < 4096 → g < 4096 → bit_and (q * 4096 + f) g ≡ bit_and f g
bit_and_flags q f g h k =
    let none_above : 0 * 4096 + g ≡ g = omega arith in
    ap (bit_and (q * 4096 + f)) (sym none_above)
    ∙ bit_and_blocks 12 q f 0 g h k
    ∙ ap (λ (x : ℕ). x * 4096 + bit_and f g) (bit_and-zero q)
    ∙ omega arith
