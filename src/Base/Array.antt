-- ===== src/Base/Array.antt =====
-- Static arrays as functions of the index, and C strings.
use Prim.Native.Nat.{ℕ}
use Prim.Native.Char.{code}
use Prim.Native.String.{String}
use mathlib.Core.List.{List, [], ◌∷◌}
use verve_os.Base.Tests.{◌==◌, if◌then◌else◌}

abbrev pub Array {ℓ} : Type ℓ → Type ℓ
Array A = ℕ → A

abbrev pub update {ℓ} : {A : Type ℓ} → Array A → ℕ → A → Array A
update f i v j = if i == j then v else f j

-- The bytes of an ASCII text.
abbrev pub codes : String → List ℕ
codes String.[] = []
codes (String.◌∷◌ c s) = code c ∷ codes s
