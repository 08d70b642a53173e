-- ===== src/Serial.antt =====
-- kernel/serial.c: what goes out on COM1, as the list of bytes sent so far. The wait for the
-- transmitter and the lock round each call are not seen in it.
pub mod Hex
mod Tests
use verve_os.Base.{
  ℕ, zero, suc, ◌+◌, ◌*◌, Bool, true, false, not, ◌&&◌, List, [], ◌∷◌, ◌++◌, leb, ◌==◌,
  if◌then◌else◌, ◌>>>◌, bit_and, get_or,
}
use verve_os.Base.Array.{codes}

-- `while (*s)`: the bytes before the NUL, or before the end of the list.
unfoldable pub until_nul : List ℕ → List ℕ
until_nul [] = []
until_nul (c ∷ s) = if c == 0 then [] else c ∷ until_nul s

unfoldable pub putc : ℕ → List ℕ → List ℕ
putc c out = out ++ c ∷ []

unfoldable pub puts : List ℕ → List ℕ → List ℕ
puts s out = out ++ until_nul s

-- `xd[nibble]`
unfoldable pub hex_digit : ℕ → ℕ
hex_digit nibble = get_or (codes "0123456789ABCDEF") nibble 0

-- The loop with `s = 4 * left` rounds below it; `i` is the length of `buf` so far.
unfoldable pub hex_digits : ℕ → ℕ → Bool → ℕ → List ℕ
hex_digits zero v started i = if started then [] else b'0' ∷ []
hex_digits (suc left) v started i =
    let nibble = bit_and (v >>> (4 * left)) 0xf in
    let skipped = hex_digits left v started i in
    let rest = if leb 31 (i + 1) then [] else hex_digits left v true (i + 1) in
    if not started && nibble == 0 && not (left == 0) then skipped else hex_digit nibble ∷ rest

unfoldable pub put_u64_hex : ℕ → List ℕ → List ℕ
put_u64_hex v out = out ++ until_nul (b'0' ∷ b'x' ∷ hex_digits 16 v false 2)
