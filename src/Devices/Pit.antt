-- ===== src/Devices/Pit.antt =====
-- arch/i386/pit.c: the interval timer.
use verve_os.Base.{
  ℕ, ◌+◌, ◌*◌, ◌/◌, ◌≤◌, ◌<◌, ◌≡◌, refl, arith, Option, none, some, ◌∷◌, false, Bool-cases, inl,
  inr, ltb, leb, ◌==◌, if◌then◌else◌, u8, ◌>>>◌, bit_and,
}
use verve_os.Base.Bits.{bit_and_ones}
use native.Mathlib.Nat.{le-div_iff_mul-le}
use verve_os.Devices.{Log, out_byte, outb}

abbrev pub pit_ch0_data : ℕ
pit_ch0_data = 0x40

abbrev pub pit_cmd : ℕ
pit_cmd = 0x43

-- The divisor for a frequency that is not 0.
unfoldable pub divisor_of : ℕ → ℕ
divisor_of hz =
    let divisor = 1193182 / hz in
    let divisor = if ltb 65535 divisor then 65535 else divisor in
    if ltb divisor 2 then 2 else divisor

-- `none` for the division by 0.
unfoldable pub pit_set_frequency_hz : ℕ → Log → Option Log
pit_set_frequency_hz hz log =
    let divisor = divisor_of hz in
    let set =
      outb pit_ch0_data (bit_and (divisor >>> 8) 0xff)
        (outb pit_ch0_data (bit_and divisor 0xff) (outb pit_cmd 0x36 log)) in
    if hz == 0 then none else some set

-- For a frequency that is not 0 the two bytes, low one first, are those of the divisor that is the
-- greatest with divisor * hz at most 1193182, but 2 at least and 65535 at most.
pub record SetsRate (hz : ℕ) (log : Log) (r : Option Log) : Type 0 where
  pub lo : ℕ
  pub hi : ℕ
  pub accesses : r ≡ some (out_byte 0x40 hi ∷ out_byte 0x40 lo ∷ out_byte 0x43 0x36 ∷ log)
  pub lo_lt : lo < 256
  pub hi_lt : hi < 256
  pub at_least : 2 ≤ lo + 256 * hi
  pub low_end : 2 < lo + 256 * hi → (lo + 256 * hi) * hz ≤ 1193182
  pub high_end : lo + 256 * hi < 65535 → 1193182 < (lo + 256 * hi + 1) * hz

below_rate : (hz d : ℕ) → 1 ≤ hz → d ≤ 1193182 / hz → d * hz ≤ 1193182
below_rate hz d positive h = (le-div_iff_mul-le positive).0 h

above_rate : (hz d : ℕ) → 1 ≤ hz → 1193182 / hz ≤ d → 1193182 < (d + 1) * hz
above_rate hz d positive h = elim (Bool-cases (leb ((d + 1) * hz) 1193182)) [
  | inl low ↦
      let fits : (d + 1) * hz ≤ 1193182 = ground (arith, low) in
      let more : d + 1 ≤ 1193182 / hz = (le-div_iff_mul-le positive).1 fits in
      absurd (omega (arith, more))
  | inr high ↦ ground (arith, high)
]

divisor-low : (hz : ℕ) → 2 < divisor_of hz → divisor_of hz ≤ 1193182 / hz
unfolding divisor_of
divisor-low hz h = ground arith

divisor-high : (hz : ℕ) → divisor_of hz < 65535 → 1193182 / hz ≤ divisor_of hz
unfolding divisor_of
divisor-high hz h = ground arith

divisor-le : (hz : ℕ) → divisor_of hz ≤ 65535
unfolding divisor_of
divisor-le hz = ground arith

divisor-ge : (hz : ℕ) → 2 ≤ divisor_of hz
unfolding divisor_of
divisor-ge hz = ground arith

pub pit_set_frequency_hz-SetsRate :
    (hz : ℕ) (log : Log) → 1 ≤ hz → SetsRate hz log (pit_set_frequency_hz hz log)
unfolding pit_set_frequency_hz
pit_set_frequency_hz-SetsRate hz log positive =
    let nonzero : (hz == 0) ≡ false = ground arith in
    let d = divisor_of hz in
    let low = bit_and_ones 8 d in
    let high = bit_and_ones 8 (d >>> 8) in
    let most : d ≤ 65535 = divisor-le hz in
    let least : 2 ≤ d = divisor-ge hz in
    let split : bit_and d 0xff + 256 * bit_and (d >>> 8) 0xff ≡ d =
      omega (arith, low, high, most) in
    let lo_small : u8 (bit_and d 0xff) ≡ bit_and d 0xff = omega (arith, low) in
    let hi_small : u8 (bit_and (d >>> 8) 0xff) ≡ bit_and (d >>> 8) 0xff = omega (arith, high) in
    rw nonzero (record {
      lo = bit_and d 0xff;
      hi = bit_and (d >>> 8) 0xff;
      accesses = rw (lo_small, hi_small) refl;
      lo_lt = omega (arith, low);
      hi_lt = omega (arith, high);
      at_least = omega (arith, split, least);
      low_end = λ above. rw split (below_rate hz d positive (divisor-low hz (rw split at above)));
      high_end = λ below. rw split (above_rate hz d positive (divisor-high hz (rw split at below)));
    })
