-- ===== src/Mboot2/Tests.antt =====
-- The walks at a concrete structure.
use verve_os.Base.{ℕ, ◌+◌, ◌≡◌, refl, true, false, some, List, [], ◌∷◌, arith}
use verve_os.Base.Memory.{Mem, load8, load32, load64}
use verve_os.Mboot2.{entry_at, for_each_available}
use verve_os.Mboot2.Layout.{Tag, meminfo, other, HoldsInfo}
use verve_os.Mboot2.Sample.{holding, sample_info, sample_mem, sample_tags, sample-HoldsInfo}
use verve_os.Mboot2.Walk.{for_each_available_lem}
use verve_os.Mboot2.Walk.Unaligned.{HoldsUnaligned, for_each_available_unaligned}

abbrev count : ℕ → ℕ → ℕ → ℕ
count base len n = n + len

for_each_available_lem_example :
    for_each_available (λ (n : ℕ). sample_mem) count sample_info 0 ≡ some (true, 0x79_fc00)
for_each_available_lem_example =
    for_each_available_lem (λ (n : ℕ). sample_mem) count (λ n. Unit {0}) (λ base len n v. tt)
      sample_info 80 sample_tags 0 (omega arith) tt (λ n v. sample-HoldsInfo)

-- The memory map of the sample, and behind it a tag of 28 bytes.
abbrev unaligned_mem : Mem
unaligned_mem = holding sample_info (
    112 ∷ 0 ∷ 6 ∷ 64 ∷ 24 ∷ 0 ∷ 0 ∷ 0 ∷ 0x9_fc00 ∷ 0 ∷ 1 ∷ 0 ∷ 0x10_0000 ∷ 0 ∷ 0x70_0000 ∷ 0 ∷ 1 ∷ 0
    ∷ 14 ∷ 28 ∷ [])

unaligned-HoldsUnaligned : HoldsUnaligned unaligned_mem sample_info 112 sample_tags
unfolding load32 load8 entry_at load64
unaligned-HoldsUnaligned = (
  refl,
  omega arith,
  refl,
  (
    (
      refl,
      refl,
      omega arith,
      omega arith,
      omega arith,
      omega arith,
      omega arith,
      (refl, (refl, tt)),
    ),
    refl,
    refl,
    omega arith,
    omega arith,
    (omega arith, omega arith),
  ),
)

for_each_available_unaligned_example :
    for_each_available (λ (n : ℕ). unaligned_mem) count sample_info 0 ≡ some (false, 0x79_fc00)
for_each_available_unaligned_example =
    for_each_available_unaligned (λ (n : ℕ). unaligned_mem) count (λ n. Unit {0})
      (λ base len n v. tt) sample_info 112 sample_tags 0 (omega arith) tt
      (λ n v. unaligned-HoldsUnaligned)

-- An empty tag of type 1, then the sizes of 639 and 7168 KiB.
abbrev sizes_mem : Mem
sizes_mem = holding sample_info (40 ∷ 0 ∷ 1 ∷ 8 ∷ 4 ∷ 16 ∷ 639 ∷ 7168 ∷ 0 ∷ 8 ∷ [])

abbrev sizes_tags : List Tag
sizes_tags = other 1 8 ∷ meminfo 639 7168 ∷ []

sizes-HoldsInfo : HoldsInfo sizes_mem sample_info 40 sizes_tags
unfolding load32 load8
sizes-HoldsInfo = (
  refl,
  omega arith,
  refl,
  (
    (refl, omega arith, omega arith, omega arith),
    refl,
    refl,
    omega arith,
    omega arith,
    ((refl, refl, refl), refl, refl, omega arith, omega arith, (refl, refl, omega arith)),
  ),
)
