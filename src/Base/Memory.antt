-- ===== src/Base/Memory.antt =====
-- Physical memory of the i386 machine: bytes at 32-bit addresses, words stored low byte first.
-- The kernel maps it identically, so a pointer of the source is an address here.
use Prim.Native.Nat.{ℕ, ◌+◌, ◌*◌, ◌/◌, ◌^◌, ◌≤◌, ◌<◌}
use mathlib.Core.Path.{◌≡◌, refl, ◌∙◌}
use mathlib.Core.Logic.{◌≢◌, ◌⊎◌}
use native.Mathlib.Omega.{arith}
use verve_os.Base.Tests.{◌==◌, if◌then◌else◌}
use verve_os.Base.Word.{u8, u32}

abbrev pub Mem : Type 0
Mem = ℕ → ℕ

-- A cell holds a byte: what exceeds 8 bits is not seen.
unfoldable pub load8 : Mem → ℕ → ℕ
load8 m a = u8 (m (u32 a))

unfoldable pub store8 : Mem → ℕ → ℕ → Mem
store8 m a v b = if u32 a == b then u8 v else m b

unfoldable pub load32 : Mem → ℕ → ℕ
load32 m a =
    load8 m a + load8 m (a + 1) * 256 + load8 m (a + 2) * 256 ^ 2 + load8 m (a + 3) * 256 ^ 3

unfoldable pub load64 : Mem → ℕ → ℕ
load64 m a = load32 m a + load32 m (a + 4) * 2 ^ 32

unfoldable pub store32 : Mem → ℕ → ℕ → Mem
store32 m a v =
    store8 (store8 (store8 (store8 m a v) (a + 1) (v / 256)) (a + 2) (v / 256 ^ 2)) (a + 3)
      (v / 256 ^ 3)

pub load8-lt : (m : Mem) (a : ℕ) → load8 m a < 256
unfolding load8
load8-lt m a = omega arith

pub load8-store8 :
    (m : Mem) (a v b : ℕ) → load8 (store8 m a v) b ≡ (if u32 a == u32 b then u8 v else load8 m b)
unfolding load8 store8
load8-store8 m a v b = ground arith

pub load8-store8_ne : (m : Mem) (a v b : ℕ) → u32 a ≢ u32 b → load8 (store8 m a v) b ≡ load8 m b
load8-store8_ne m a v b h = ground (arith, load8-store8 m a v b)

pub load32-lt : (m : Mem) (a : ℕ) → load32 m a < 2 ^ 32
unfolding load32
load32-lt m a =
    omega (arith, load8-lt m a, load8-lt m (a + 1), load8-lt m (a + 2), load8-lt m (a + 3))

pub load8-store8_self : (m : Mem) (a v b : ℕ) → u32 a ≡ u32 b → load8 (store8 m a v) b ≡ u8 v
load8-store8_self m a v b h = ground (arith, load8-store8 m a v b)

module _ (m : Mem) (a v : ℕ) (fits : a + 4 ≤ 2 ^ 32) where
  abbrev low2 : Mem
  low2 = store8 (store8 m a v) (a + 1) (v / 256)

  abbrev low3 : Mem
  low3 = store8 low2 (a + 2) (v / 256 ^ 2)

  first_byte : load8 (store32 m a v) a ≡ u8 v
  unfolding store32
  first_byte =
      load8-store8_ne low3 (a + 3) _ a (omega arith)
      ∙ load8-store8_ne low2 (a + 2) _ a (omega arith)
      ∙ load8-store8_ne (store8 m a v) (a + 1) _ a (omega arith)
      ∙ load8-store8_self m a v a refl

  second_byte : load8 (store32 m a v) (a + 1) ≡ u8 (v / 256)
  unfolding store32
  second_byte =
      load8-store8_ne low3 (a + 3) _ (a + 1) (omega arith)
      ∙ load8-store8_ne low2 (a + 2) _ (a + 1) (omega arith)
      ∙ load8-store8_self (store8 m a v) (a + 1) _ (a + 1) refl

  third_byte : load8 (store32 m a v) (a + 2) ≡ u8 (v / 256 ^ 2)
  unfolding store32
  third_byte =
      load8-store8_ne low3 (a + 3) _ (a + 2) (omega arith)
      ∙ load8-store8_self low2 (a + 2) _ (a + 2) refl

  fourth_byte : load8 (store32 m a v) (a + 3) ≡ u8 (v / 256 ^ 3)
  unfolding store32
  fourth_byte = load8-store8_self low3 (a + 3) _ (a + 3) refl

  pub load32-store32 : v < 2 ^ 32 → load32 (store32 m a v) a ≡ v
  unfolding load32
  load32-store32 h = omega (arith, first_byte, second_byte, third_byte, fourth_byte)

  pub load8-store32_ne :
      (b : ℕ) → b < 2 ^ 32 → (b < a) ⊎ (a + 4 ≤ b) → load8 (store32 m a v) b ≡ load8 m b
  unfolding store32
  load8-store32_ne b k apart =
      load8-store8_ne low3 (a + 3) _ b (omega arith)
      ∙ load8-store8_ne low2 (a + 2) _ b (omega arith)
      ∙ load8-store8_ne (store8 m a v) (a + 1) _ b (omega arith)
      ∙ load8-store8_ne m a v b (omega arith)

  pub load32-store32_ne :
      (b : ℕ) → b + 4 ≤ 2 ^ 32 → (b + 4 ≤ a) ⊎ (a + 4 ≤ b) → load32 (store32 m a v) b ≡ load32 m b
  unfolding load32
  load32-store32_ne b k apart = omega (
    arith,
    load8-store32_ne b (omega arith) (ground arith),
    load8-store32_ne (b + 1) (omega arith) (ground arith),
    load8-store32_ne (b + 2) (omega arith) (ground arith),
    load8-store32_ne (b + 3) (omega arith) (ground arith),
  )

-- Two memories that hold the same bytes in `[lo, hi)`.
abbrev pub Agree : Mem → Mem → ℕ → ℕ → Type 0
Agree m m' lo hi = (a : ℕ) → lo ≤ a → a < hi → load8 m' a ≡ load8 m a

module _ (m m' : Mem) (lo hi : ℕ) (same : Agree m m' lo hi) where
  pub load32-Agree : (a : ℕ) → lo ≤ a → a + 4 ≤ hi → load32 m' a ≡ load32 m a
  unfolding load32
  load32-Agree a h k = omega (
    arith,
    same a (omega arith) (omega arith),
    same (a + 1) (omega arith) (omega arith),
    same (a + 2) (omega arith) (omega arith),
    same (a + 3) (omega arith) (omega arith),
  )

  pub load64-Agree : (a : ℕ) → lo ≤ a → a + 8 ≤ hi → load64 m' a ≡ load64 m a
  unfolding load64
  load64-Agree a h k = omega (
    arith,
    load32-Agree a (omega arith) (omega arith),
    load32-Agree (a + 4) (omega arith) (omega arith),
  )
