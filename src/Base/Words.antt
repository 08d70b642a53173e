-- ===== src/Base/Words.antt =====
-- Aligned words: a store changes one word.
use Prim.Native.Nat.{ℕ, ◌+◌, ◌%◌, ◌^◌, ◌≤◌, ◌<◌}
use mathlib.Core.Path.{◌≡◌}
use mathlib.Core.Logic.{◌⊎◌, inl, inr}
use native.Mathlib.Omega.{arith}
use verve_os.Base.Tests.{◌==◌, if◌then◌else◌, Bool-cases}
use verve_os.Base.Memory.{Mem, load32, store32, load32-store32, load32-store32_ne}

pub load32-store32_if :
    (m : Mem) (a v b : ℕ)
    → a % 4 ≡ 0
    → b % 4 ≡ 0
    → a < 2 ^ 32
    → b < 2 ^ 32
    → v < 2 ^ 32
    → load32 (store32 m a v) b ≡ (if a == b then v else load32 m b)
load32-store32_if m a v b ha hb ka kb small = elim (Bool-cases (a == b)) [
  | inl same ↦
      let e : b ≡ a = ground arith in rw (same, e) (load32-store32 m a v (omega arith) small)
  | inr other ↦
      let apart : (b + 4 ≤ a) ⊎ (a + 4 ≤ b) = ground arith in
      rw other (load32-store32_ne m a v (omega arith) b (omega arith) apart)
]
