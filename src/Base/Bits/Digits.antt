-- ===== src/Base/Bits/Digits.antt =====
-- Laws of `bit_and` and `bit_or` at variables: the lowest digit, one digit, and masks.
use Prim.Native.Nat.{ℕ, zero, suc, ◌+◌, ◌*◌, ◌/◌, ◌%◌, ◌≤◌, ◌<◌, min, max}
use Prim.Native.Nat.{bit_and, bit_or, digits, bitwise, bit_and-bitwise, bit_or-bitwise}
use mathlib.Core.Path.{◌≡◌, refl}
use native.Mathlib.Nat.{le_refl}
use native.Mathlib.Omega.{arith}

module _ (z : ℕ → ℕ) (f : ℕ → ℕ → ℕ) where
  fuel_irrelevant : (n m a b : ℕ) → a ≤ n → a ≤ m → digits z f n a b ≡ digits z f m a b
  fuel_irrelevant zero zero a b p q = refl
  fuel_irrelevant zero (suc m) zero b p q = refl
  fuel_irrelevant zero (suc m) (suc a) b p q = absurd (omega arith)
  fuel_irrelevant (suc n) zero zero b p q = refl
  fuel_irrelevant (suc n) zero (suc a) b p q = absurd (omega arith)
  fuel_irrelevant (suc n) (suc m) zero b p q = refl
  fuel_irrelevant (suc n) (suc m) (suc a) b p q =
      rw (fuel_irrelevant n m (suc a / 2) (b / 2) (omega arith) (omega arith))

  bitwise_low :
      (a b : ℕ)
      → bitwise z f (suc a) b ≡ bitwise z f (suc a / 2) (b / 2) * 2 + f (suc a % 2) (b % 2)
  bitwise_low a b =
      omega (arith, fuel_irrelevant a (suc a / 2) (suc a / 2) (b / 2) (omega arith) (le_refl _))

pub bit_or_low : (a b : ℕ) → bit_or a b ≡ bit_or (a / 2) (b / 2) * 2 + max (a % 2) (b % 2)
bit_or_low zero b = simp bit_or-bitwise (omega arith)
bit_or_low (suc a) b = simp bit_or-bitwise (bitwise_low (λ y. y) max a b)

pub bit_and_low : (a b : ℕ) → bit_and a b ≡ bit_and (a / 2) (b / 2) * 2 + min (a % 2) (b % 2)
bit_and_low zero b = simp bit_and-bitwise (omega arith)
bit_and_low (suc a) b = simp bit_and-bitwise (bitwise_low (λ y. 0) min a b)

-- The digit of weight 2 ^ c.
abbrev pub digit : ℕ → ℕ → ℕ
digit x zero = x % 2
digit x (suc c) = digit (x / 2) c

pub digit-lt : (x c : ℕ) → digit x c < 2
digit-lt x zero = omega arith
digit-lt x (suc c) = digit-lt (x / 2) c

pub digit-bit_or : (x y c : ℕ) → digit (bit_or x y) c ≡ max (digit x c) (digit y c)
digit-bit_or x y zero = omega (arith, bit_or_low x y)
digit-bit_or x y (suc c) =
    let half : bit_or x y / 2 ≡ bit_or (x / 2) (y / 2) = omega (arith, bit_or_low x y) in
    rw half (digit-bit_or (x / 2) (y / 2) c)

pub digit-bit_and : (x y c : ℕ) → digit (bit_and x y) c ≡ min (digit x c) (digit y c)
digit-bit_and x y zero = omega (arith, bit_and_low x y)
digit-bit_and x y (suc c) =
    let half : bit_and x y / 2 ≡ bit_and (x / 2) (y / 2) = omega (arith, bit_and_low x y) in
    rw half (digit-bit_and (x / 2) (y / 2) c)
