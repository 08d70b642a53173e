-- ===== src/Paging/Tables.antt =====
-- What stores into tables do to the words of these and of other tables.
use verve_os.Base.{
  ℕ, zero, suc, ◌+◌, ◌*◌, ◌%◌, ◌^◌, ◌≤◌, ◌<◌, ◌≡◌, ◌≢◌, refl, ◌∙◌, ◌⊎◌, arith, ltb, leb, ◌==◌, ◌&&◌,
  if◌then◌else◌,
}
use verve_os.Base.Memory.{Mem, load8, load32, load8-store32_ne}
use verve_os.Base.Words.{load32-store32_if}
use verve_os.Paging.{entry, set_entry, zero_entries}

-- A frame of the 32-bit address space.
pub record IsFrame (t : ℕ) : Type 0 where
  pub aligned : t % 4096 ≡ 0
  pub in_memory : t < 2 ^ 32

-- Bytes outside the frame `t` are the same.
abbrev pub Only : ℕ → Mem → Mem → Type 0
Only t m m' = (a : ℕ) → a < 2 ^ 32 → (a < t) ⊎ (t + 4096 ≤ a) → load8 m' a ≡ load8 m a

pub entry-set_entry :
    (m : Mem) (t i v u j : ℕ)
    → IsFrame t
    → IsFrame u
    → i < 1024
    → j < 1024
    → v < 2 ^ 32
    → entry (set_entry t i v m) u j ≡ (if t == u && i == j then v else entry m u j)
entry-set_entry m t i v u j ht hu hi hj small =
    ground (arith, ht, hu, load32-store32_if m (t + 4 * i) v (u + 4 * j))

pub set_entry-Only : (m : Mem) (t i v : ℕ) → IsFrame t → i < 1024 → Only t m (set_entry t i v m)
set_entry-Only m t i v ht hi a ha out =
    load8-store32_ne m (t + 4 * i) v (omega (arith, ht)) a ha (ground (arith, ht))

pub entry-zero_entries :
    (left i t : ℕ) (m : Mem) (u j : ℕ)
    → IsFrame t
    → IsFrame u
    → i + left ≤ 1024
    → j < 1024
    → entry (zero_entries left i t m) u j
      ≡ (if t == u && leb i j && ltb j (i + left) then 0 else entry m u j)
unfolding zero_entries
entry-zero_entries zero i t m u j ht hu k hj = ground arith
entry-zero_entries (suc left) i t m u j ht hu k hj = ground (
  arith,
  entry-zero_entries left (i + 1) t (set_entry t i 0 m) u j ht hu (omega arith) hj,
  entry-set_entry m t i 0 u j ht hu (omega arith) hj (omega arith),
)

pub zero_entries-Only :
    (left i t : ℕ) (m : Mem) → IsFrame t → i + left ≤ 1024 → Only t m (zero_entries left i t m)
unfolding zero_entries
zero_entries-Only zero i t m ht k a ha out = refl
zero_entries-Only (suc left) i t m ht k a ha out =
    zero_entries-Only left (i + 1) t (set_entry t i 0 m) ht (omega arith) a ha out
    ∙ set_entry-Only m t i 0 ht (omega arith) a ha out

-- A word of another frame is the same.
pub entry-Only :
    (t u j : ℕ) (m m' : Mem)
    → IsFrame t
    → IsFrame u
    → t ≢ u
    → j < 1024
    → Only t m m'
    → entry m' u j ≡ entry m u j
unfolding load32
entry-Only t u j m m' ht hu ne hj same =
    let apart : (u + 4096 ≤ t) ⊎ (t + 4096 ≤ u) = ground (arith, ht, hu) in
    omega (
      arith,
      same (u + 4 * j) (omega (arith, hu)) (ground (arith, apart)),
      same (u + 4 * j + 1) (omega (arith, hu)) (ground (arith, apart)),
      same (u + 4 * j + 2) (omega (arith, hu)) (ground (arith, apart)),
      same (u + 4 * j + 3) (omega (arith, hu)) (ground (arith, apart)),
    )
