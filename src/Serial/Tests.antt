-- ===== src/Serial/Tests.antt =====
-- Serial output at concrete numbers.
use verve_os.Base.{◌≡◌, ◌++◌, refl, List, [], ◌∷◌, ℕ, arith}
use verve_os.Base.Array.{codes}
use verve_os.Serial.{until_nul, hex_digit, hex_digits, put_u64_hex}
use verve_os.Serial.Hex.{read_hex, put_u64_hex_lem}

put_u64_hex_lem_example :
    (digits : List ℕ) × (put_u64_hex 0x1f40 (codes "=") ≡ codes "=" ++ b'0' ∷ b'x' ∷ digits)
    × (read_hex 0 digits ≡ 0x1f40)
put_u64_hex_lem_example = put_u64_hex_lem 0x1f40 (codes "=") (omega arith)

put_zero : put_u64_hex 0 [] ≡ codes "0x0"
unfolding put_u64_hex until_nul hex_digits hex_digit
put_zero = refl

put_all : put_u64_hex 0xFEDC_BA98_7654_3210 [] ≡ codes "0xFEDCBA9876543210"
unfolding put_u64_hex until_nul hex_digits hex_digit
put_all = refl
