-- ===== src/Base/Bits/Bytes.antt =====
-- Setting and clearing one bit of a byte.
use Prim.Native.Nat.{ℕ, zero, suc, ◌<◌, bit_and, bit_or}
use mathlib.Core.Path.{◌≡◌, refl}
use mathlib.Core.Bool.{Bool, true, ◌&&◌}
use native.Mathlib.Omega.{arith}
use verve_os.Base.Tests.{◌==◌, if◌then◌else◌}
use verve_os.Base.Word.{u8, ◌<<<◌, not32}
use verve_os.Base.Bits.Digits.{digit, digit-lt, digit-bit_or, digit-bit_and}

-- A small range is checked by evaluation.
unfoldable pub all_below : ℕ → (ℕ → Bool) → Bool
all_below zero p = true
all_below (suc n) p = p n && all_below n p

pub all_below_at : (n : ℕ) (p : ℕ → Bool) (i : ℕ) → all_below n p ≡ true → i < n → p i ≡ true
unfolding all_below
all_below_at zero p i h lt = absurd (omega arith)
all_below_at (suc n) p i h lt = ground (arith, all_below_at n p i)

one_bit_table :
    all_below 8 (λ b. all_below 8 (λ c. digit (u8 (1 <<< b)) c == (if b == c then 1 else 0))) ≡ true
unfolding all_below
one_bit_table = refl

other_bits_table :
    all_below 8
      (λ b. all_below 8 (λ c. digit (u8 (not32 (1 <<< b))) c == (if b == c then 0 else 1)))
    ≡ true
unfolding all_below
other_bits_table = refl

eq_of_test : (a b : ℕ) → (a == b) ≡ true → a ≡ b
eq_of_test a b h = ground arith

digit-u8 : (x c : ℕ) → c < 8 → digit (u8 x) c ≡ digit x c
digit-u8 x zero h = omega arith
digit-u8 x (suc zero) h = omega arith
digit-u8 x (suc (suc zero)) h = omega arith
digit-u8 x (suc (suc (suc zero))) h = omega arith
digit-u8 x (suc (suc (suc (suc zero)))) h = omega arith
digit-u8 x (suc (suc (suc (suc (suc zero))))) h = omega arith
digit-u8 x (suc (suc (suc (suc (suc (suc zero)))))) h = omega arith
digit-u8 x (suc (suc (suc (suc (suc (suc (suc zero))))))) h = omega arith
digit-u8 x (suc (suc (suc (suc (suc (suc (suc (suc c)))))))) h = absurd (omega arith)

module _ (x b c : ℕ) (hb : b < 8) (hc : c < 8) where
  one_bit : digit (u8 (1 <<< b)) c ≡ (if b == c then 1 else 0)
  one_bit = eq_of_test _ _ (all_below_at 8 _ c (all_below_at 8 _ b one_bit_table hb) hc)

  other_bits : digit (u8 (not32 (1 <<< b))) c ≡ (if b == c then 0 else 1)
  other_bits = eq_of_test _ _ (all_below_at 8 _ c (all_below_at 8 _ b other_bits_table hb) hc)

  pub digit-set_bit : digit (u8 (bit_or x (u8 (1 <<< b)))) c ≡ (if b == c then 1 else digit x c)
  digit-set_bit = rw (digit-u8 _ c hc, digit-bit_or) (ground (arith, one_bit, digit-lt x c))

  pub digit-clear_bit :
      digit (u8 (bit_and x (u8 (not32 (1 <<< b))))) c ≡ (if b == c then 0 else digit x c)
  digit-clear_bit = rw (digit-u8 _ c hc, digit-bit_and) (ground (arith, other_bits, digit-lt x c))

ones_table : all_below 8 (λ c. digit 255 c == 1) ≡ true
unfolding all_below
ones_table = refl

pub digit-ones : (c : ℕ) → c < 8 → digit 255 c ≡ 1
digit-ones c h = eq_of_test _ _ (all_below_at 8 (λ i. digit 255 i == 1) c ones_table h)
