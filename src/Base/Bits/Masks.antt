-- ===== src/Base/Bits/Masks.antt =====
-- `&` and `|` of numbers cut in two at a power of two, and so the masks that the kernel uses.
use Prim.Native.Nat.{ℕ, zero, suc, ◌+◌, ◌-◌, ◌*◌, ◌/◌, ◌%◌, ◌^◌, ◌<◌, bit_and, bit_or}
use mathlib.Core.Path.{◌≡◌, refl, sym, ◌∙◌, ap, ap₂}
use native.Mathlib.Nat.{
  pow-suc, pow-succ', one-le-pow, add-zero, mod-lt, div-add-mod', div-lt_iff_lt-mul,
  div-div-eq-div-mul,
}
use native.Mathlib.Omega.{arith}
use verve_os.Base.Bits.Digits.{bit_and_low, bit_or_low, digit}

-- `(x >> c) & 1` reads one digit.
pub digit-shift : (x c : ℕ) → x / 2 ^ c % 2 ≡ digit x c
digit-shift x zero = omega arith
digit-shift x (suc c) = rw (pow-succ' 2 c, ← div-div-eq-div-mul) (digit-shift (x / 2) c)

double_pow : (q k : ℕ) → q * 2 ^ suc k ≡ 2 * (q * 2 ^ k)
double_pow q k = omega (arith, ap (λ (t : ℕ). q * t) (pow-suc 2 k))

bit_and-zero_below : (n a : ℕ) → a < n → bit_and a 0 ≡ 0
bit_and-zero_below zero a h = absurd (omega arith)
bit_and-zero_below (suc n) zero h = refl
bit_and-zero_below (suc n) (suc a) h =
    omega (arith, bit_and_low (suc a) 0, bit_and-zero_below n (suc a / 2) (omega arith))

pub bit_and-zero : (a : ℕ) → bit_and a 0 ≡ 0
bit_and-zero a = bit_and-zero_below (suc a) a (omega arith)

bit_or-zero_below : (n a : ℕ) → a < n → bit_or a 0 ≡ a
bit_or-zero_below zero a h = absurd (omega arith)
bit_or-zero_below (suc n) zero h = refl
bit_or-zero_below (suc n) (suc a) h =
    omega (arith, bit_or_low (suc a) 0, bit_or-zero_below n (suc a / 2) (omega arith))

pub bit_or-zero : (a : ℕ) → bit_or a 0 ≡ a
bit_or-zero a = bit_or-zero_below (suc a) a (omega arith)

pub bit_and_blocks :
    (k q r m s : ℕ)
    → r < 2 ^ k
    → s < 2 ^ k
    → bit_and (q * 2 ^ k + r) (m * 2 ^ k + s) ≡ bit_and q m * 2 ^ k + bit_and r s
bit_and_blocks zero q r m s hr hs = ground (arith, bit_and-zero 0)
bit_and_blocks (suc k) q r m s hr hs = ground (
  arith,
  bit_and_low (q * 2 ^ suc k + r) (m * 2 ^ suc k + s),
  bit_and_low r s,
  double_pow q k,
  double_pow m k,
  double_pow (bit_and q m) k,
  pow-suc 2 k,
  bit_and_blocks k q (r / 2) m (s / 2),
)

pub bit_or_blocks :
    (k q r m s : ℕ)
    → r < 2 ^ k
    → s < 2 ^ k
    → bit_or (q * 2 ^ k + r) (m * 2 ^ k + s) ≡ bit_or q m * 2 ^ k + bit_or r s
bit_or_blocks zero q r m s hr hs = ground (arith, bit_or-zero 0)
bit_or_blocks (suc k) q r m s hr hs = ground (
  arith,
  bit_or_low (q * 2 ^ suc k + r) (m * 2 ^ suc k + s),
  bit_or_low r s,
  double_pow q k,
  double_pow m k,
  double_pow (bit_or q m) k,
  pow-suc 2 k,
  bit_or_blocks k q (r / 2) m (s / 2),
)

-- A mask of ones keeps a number that fits under it.
bit_and_under_ones : (k r : ℕ) → r < 2 ^ k → bit_and r (2 ^ k - 1) ≡ r
bit_and_under_ones zero r h = ground (arith, bit_and-zero r)
bit_and_under_ones (suc k) r h = ground (
  arith,
  bit_and_low r (2 ^ suc k - 1),
  pow-suc 2 k,
  one-le-pow k 2,
  bit_and_under_ones k (r / 2),
)

-- A mask of low ones takes the remainder.
pub bit_and_ones : (k a : ℕ) → bit_and a (2 ^ k - 1) ≡ a % 2 ^ k
bit_and_ones k a = ground (
  arith,
  one-le-pow k 2,
  bit_and_blocks k (a / 2 ^ k) (a % 2 ^ k) 0 (2 ^ k - 1),
  bit_and_under_ones k (a % 2 ^ k),
  bit_and-zero (a / 2 ^ k),
)

-- A mask of the ones from `k` up clears the low digits: `x & ~(2 ^ k - 1)`.
pub bit_and_high_ones :
    (k j a : ℕ) → a < 2 ^ j * 2 ^ k → bit_and a ((2 ^ j - 1) * 2 ^ k) ≡ a / 2 ^ k * 2 ^ k
bit_and_high_ones k j a h =
    ap₂ bit_and (sym (div-add-mod' a (2 ^ k))) (sym (add-zero _))
    ∙ bit_and_blocks k (a / 2 ^ k) (a % 2 ^ k) (2 ^ j - 1) 0
        (mod-lt a (one-le-pow k 2 (omega arith))) (one-le-pow k 2 (omega arith))
    ∙ rw (bit_and-zero, add-zero, bit_and_under_ones j (a / 2 ^ k) fits) refl
  where
    fits : a / 2 ^ k < 2 ^ j
    fits = (div-lt_iff_lt-mul (one-le-pow k 2 (omega arith))).1 h

pub bit_and_page_mask : (a : ℕ) → a < 2 ^ 32 → bit_and a 0xffff_f000 ≡ a / 4096 * 4096
bit_and_page_mask a h = bit_and_high_ones 12 20 a h

pub bit_and_page_offset : (a : ℕ) → bit_and a 4095 ≡ a % 4096
bit_and_page_offset a = bit_and_ones 12 a

pub bit_and_seven : (a : ℕ) → bit_and a 7 ≡ a % 8
bit_and_seven a = bit_and_ones 3 a

pub bit_and-one : (a : ℕ) → bit_and a 1 ≡ a % 2
bit_and-one a = bit_and_ones 1 a
