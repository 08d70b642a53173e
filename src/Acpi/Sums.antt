-- ===== src/Acpi/Sums.antt =====
-- Checksums: the sum of the bytes modulo 256, whatever 32-bit sum the loop makes.
use verve_os.Base.{ℕ, zero, suc, ◌+◌, ◌%◌, ◌≡◌, arith, ◌==◌, u32}
use verve_os.Base.Bits.{bit_and_ones}
use verve_os.Base.Memory.{Mem, load8}
use verve_os.Acpi.{sum_from, acpi_sum, acpi_ok}

-- The sum of the `n` bytes at `p`.
abbrev pub total : ℕ → Mem → ℕ → ℕ
total zero m p = 0
total (suc n) m p = load8 m p + total n m (p + 1)

sum_from_lem : (n : ℕ) (m : Mem) (p s : ℕ) → sum_from n m p s % 256 ≡ (s + total n m p) % 256
unfolding sum_from
sum_from_lem zero m p s = omega arith
sum_from_lem (suc n) m p s = omega (arith, sum_from_lem n m (p + 1) (u32 (s + load8 m p)))

pub acpi_sum_lem : (m : Mem) (p len : ℕ) → acpi_sum m p len ≡ total len m p % 256
unfolding acpi_sum
acpi_sum_lem m p len = omega (arith, bit_and_ones 8 (sum_from len m p 0), sum_from_lem len m p 0)

pub acpi_ok_lem : (m : Mem) (p len : ℕ) → acpi_ok m p len ≡ (total len m p % 256 == 0)
unfolding acpi_ok
acpi_ok_lem m p len = rw (acpi_sum_lem m p len)
