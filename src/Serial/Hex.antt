-- ===== src/Serial/Hex.antt =====
-- The hexadecimal form of a number can be read back.
use verve_os.Base.{
  ℕ, zero, suc, ◌+◌, ◌-◌, ◌*◌, ◌/◌, ◌%◌, ◌^◌, ◌≤◌, ◌<◌, ◌≡◌, ap, ◌∙◌, refl, Bool, true, false, ◌&&◌,
  not, List, [], ◌∷◌, ◌++◌, Bool-cases, inl, inr, arith, ltb, leb, ◌==◌, if◌then◌else◌, ◌>>>◌,
  bit_and,
}
use native.Mathlib.Nat.{
  pow-suc, one-le-pow, mul-add-div_right, div-lt_iff_lt-mul, mod-lt, div-add-mod',
}
use verve_os.Base.Bits.{bit_and_ones, all_below_at, all_below}
use verve_os.Serial.{until_nul, hex_digit, hex_digits, put_u64_hex}

unfoldable pub digit_value : ℕ → ℕ
digit_value c = if ltb c 58 then c - 48 else c - 55

abbrev pub read_hex : ℕ → List ℕ → ℕ
read_hex acc [] = acc
read_hex acc (c ∷ s) = read_hex (acc * 16 + digit_value c) s

sixteen_pow : (k : ℕ) → 2 ^ (4 * k) ≡ 16 ^ k
sixteen_pow zero = refl
sixteen_pow (suc k) =
    let four : 4 * suc k ≡ suc (suc (suc (suc (4 * k)))) = omega arith in
    rw four (simp pow-suc (omega (arith, sixteen_pow k)))

hex_table : all_below 16 (λ n. digit_value (hex_digit n) == n) ≡ true
unfolding all_below hex_digit digit_value
hex_table = refl

digit_value-hex_digit : (n : ℕ) → n < 16 → digit_value (hex_digit n) ≡ n
digit_value-hex_digit n h =
    ground (arith, all_below_at 16 (λ i. digit_value (hex_digit i) == i) n hex_table h)

digit_value_zero : digit_value b'0' ≡ 0
unfolding digit_value
digit_value_zero = refl

read_hex-digit :
    (acc n : ℕ) (s : List ℕ) → n < 16 → read_hex acc (hex_digit n ∷ s) ≡ read_hex (acc * 16 + n) s
read_hex-digit acc n s h = ap (λ (d : ℕ). read_hex (acc * 16 + d) s) (digit_value-hex_digit n h)

times_pow : (q k : ℕ) → q * 16 ^ suc k ≡ 16 * (q * 16 ^ k)
times_pow q k = omega (arith, ap (λ (t : ℕ). q * t) (pow-suc 16 k))

digit-fits : (k r : ℕ) → r < 16 ^ suc k → r / 16 ^ k < 16
digit-fits k r h =
    (div-lt_iff_lt-mul (one-le-pow k 16 (omega arith))).1 (omega (arith, h, pow-suc 16 k))

-- The value of the next digit, where `v` is `q` above `k` digits that make `r`.
nibble_lem :
    (k v q r : ℕ)
    → v ≡ q * 16 ^ suc k + r
    → r < 16 ^ suc k
    → bit_and (v >>> (4 * k)) 0xf ≡ r / 16 ^ k
nibble_lem k v q r e h =
    let pos : 0 < 16 ^ k = one-le-pow k 16 (omega arith) in
    let shape : v ≡ q * 16 * 16 ^ k + r = omega (arith, e, times_pow q k) in
    rw (sixteen_pow k, shape, mul-add-div_right pos (q * 16) r)
      (omega (arith, bit_and_ones 4 (q * 16 + r / 16 ^ k), digit-fits k r h))

-- With digits started, all `k` follow; before that, leading zeros are left out.
hex_digits_started :
    (k v q r acc i : ℕ)
    → v ≡ q * 16 ^ k + r
    → r < 16 ^ k
    → i + k ≤ 30
    → read_hex acc (hex_digits k v true i) ≡ acc * 16 ^ k + r
unfolding hex_digits
hex_digits_started zero v q r acc i e h fits = omega arith
hex_digits_started (suc k) v q r acc i e h fits =
    let n = r / 16 ^ k in
    let rest = r % 16 ^ k in
    let pos : 0 < 16 ^ k = one-le-pow k 16 (omega arith) in
    let split : n * 16 ^ k + rest ≡ r = div-add-mod' r (16 ^ k) in
    let room : leb 31 (i + 1) ≡ false = ground arith in
    rw (room, nibble_lem k v q r e h, read_hex-digit acc n _ (digit-fits k r h))
      (hex_digits_started k v (q * 16 + n) rest (acc * 16 + n) (i + 1)
          (omega (arith, e, split, times_pow q k)) (mod-lt r pos) (omega arith)
        ∙ omega (arith, split, times_pow acc k))

zero_of_skip : (n k : ℕ) → (n == 0 && not (k == 0)) ≡ true → n ≡ 0
zero_of_skip n k h = ground arith

hex_digits_lem :
    (k v q r i : ℕ)
    → v ≡ q * 16 ^ k + r
    → r < 16 ^ k
    → i + k ≤ 30
    → read_hex 0 (hex_digits k v false i) ≡ r
unfolding hex_digits
hex_digits_lem zero v q r i e h fits = omega (arith, digit_value_zero)
hex_digits_lem (suc k) v q r i e h fits =
    let n = r / 16 ^ k in
    let rest = r % 16 ^ k in
    let pos : 0 < 16 ^ k = one-le-pow k 16 (omega arith) in
    let split : n * 16 ^ k + rest ≡ r = div-add-mod' r (16 ^ k) in
    let below : v ≡ (q * 16 + n) * 16 ^ k + rest = omega (arith, e, split, times_pow q k) in
    let room : leb 31 (i + 1) ≡ false = ground arith in
    elim (Bool-cases (n == 0 && not (k == 0))) [
      | inl skip ↦
          rw (room, nibble_lem k v q r e h, skip)
            (hex_digits_lem k v (q * 16 + n) rest i below (mod-lt r pos) (omega arith)
              ∙ omega (arith, split, ap (λ (t : ℕ). t * 16 ^ k) (zero_of_skip n k skip)))
      | inr shown ↦
          rw (room, nibble_lem k v q r e h, shown, read_hex-digit 0 n _ (digit-fits k r h))
            (hex_digits_started k v (q * 16 + n) rest (0 * 16 + n) (i + 1) below (mod-lt r pos)
                (omega arith)
              ∙ omega (arith, split))
    ]

nonzero_table : all_below 16 (λ n. not (hex_digit n == 0)) ≡ true
unfolding all_below hex_digit
nonzero_table = refl

hex_digit-ne-zero : (v k : ℕ) → (hex_digit (bit_and (v >>> (4 * k)) 0xf) == 0) ≡ false
hex_digit-ne-zero v k =
    let fits : bit_and (v >>> (4 * k)) 0xf < 16 = omega (arith, bit_and_ones 4 (v >>> (4 * k))) in
    ground (
      arith,
      all_below_at 16 (λ n. not (hex_digit n == 0)) (bit_and (v >>> (4 * k)) 0xf) nonzero_table
          fits,
    )

-- No digit ends the text.
until_nul-hex_digits :
    (k v : ℕ) (started : Bool) (i : ℕ)
    → until_nul (hex_digits k v started i) ≡ hex_digits k v started i
unfolding until_nul hex_digits
until_nul-hex_digits zero v true i = refl
until_nul-hex_digits zero v false i = refl
until_nul-hex_digits (suc k) v started i = ground (
  arith,
  hex_digit-ne-zero v k,
  until_nul-hex_digits k v started i,
  until_nul-hex_digits k v true (i + 1),
)

-- `serial_put_u64_hex` sends `0x` and digits that read back as the number.
pub put_u64_hex_lem :
    (v : ℕ) (out : List ℕ)
    → v < 2 ^ 64
    → (digits : List ℕ) × (put_u64_hex v out ≡ out ++ b'0' ∷ b'x' ∷ digits)
      × (read_hex 0 digits ≡ v)
unfolding put_u64_hex until_nul
put_u64_hex_lem v out h =
    (hex_digits 16 v false 2, sends, hex_digits_lem 16 v 0 v 2 (omega arith) h (omega arith))
  where
    sends :
        out ++ until_nul (b'0' ∷ b'x' ∷ hex_digits 16 v false 2)
        ≡ out ++ b'0' ∷ b'x' ∷ hex_digits 16 v false 2
    sends = ap (λ (d : List ℕ). out ++ b'0' ∷ b'x' ∷ d) (until_nul-hex_digits 16 v false 2)
