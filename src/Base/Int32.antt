-- ===== src/Base/Int32.antt =====
-- `int32_t` as its bit pattern, below 2 ^ 32.
use Prim.Native.Nat.{ℕ, ◌-◌, ◌^◌}
use mathlib.Core.Bool.{Bool}
use verve_os.Base.Tests.{leb}

-- `-n` for a small `n` but 0, as the kernel returns its errors.
abbrev pub minus : ℕ → ℕ
minus n = 2 ^ 32 - n

abbrev pub is_negative : ℕ → Bool
is_negative w = leb (2 ^ 31) w
