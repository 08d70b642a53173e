-- ===== src/Heap/Alloc.antt =====
-- `kmalloc` on a heap of disjoint blocks.
use verve_os.Base.{
  false, ℕ, ◌+◌, ◌-◌, ◌*◌, ◌/◌, ◌%◌, ◌^◌, ◌≤◌, ◌<◌, ◌≡◌, inl, inr, ap, Bool-cases, ◌&&◌, ◌||◌, refl,
  arith, ltb, leb, ◌==◌, if◌then◌else◌, List, [], ◌∷◌, length, Option, none, some,
}
use verve_os.Base.Bits.{bit_and_high_ones}
use verve_os.Base.Memory.{Mem, load32, load32-store32}
use verve_os.Heap.{Heap, align_up, bump, serve, kmalloc, fit_loop}
use verve_os.Heap.Blocks.{
  Block, holds_place, cover, sum_totals, AreBlocks, AreBlocks-store, Linked, Linked-store,
}
use verve_os.Heap.Fit.{chosen, remaining, Takes, takes, takes_none, fit_loop-Takes}

-- The free and the live blocks do not overlap, and lie below the end of what has been given out.
pub record IsHeap (base : ℕ) (s : Heap) (free live : List Block) : Type 0 where
  pub links : Linked base s.mem s.freelist free
  pub headers : AreBlocks base s.mem live
  pub apart :
      (c : ℕ)
      → cover free c + cover live c ≤ (if leb base c && ltb c (base + s.heap_off) then 1 else 0)
  pub sums : sum_totals free + sum_totals live ≤ s.heap_off
  pub off_aligned : s.heap_off % 16 ≡ 0
  pub off_le : s.heap_off ≤ 0x4_0000

-- The size of the block for a request: a header of 16 bytes, rounded up to 16.
abbrev pub rounded : ℕ → ℕ
rounded size = (size + 31) / 16 * 16

align_up_lem : (size : ℕ) → size ≤ 0x4_0000 → align_up (16 + size) 16 ≡ rounded size
unfolding align_up
align_up_lem size small =
    let masked = bit_and_high_ones 4 28 (16 + size + 16 - 1) (omega arith) in ground (arith, masked)

abbrev from_some : Block → Option Block → Block
from_some y none = y
from_some y (some x) = x

chosen-cover :
    (need : ℕ) (xs : List Block) (x : Block) (c : ℕ)
    → chosen need xs ≡ some x
    → cover xs c ≡ holds_place x c + cover (remaining need xs) c
chosen-cover need [] x c found = absurd (ground arith)
chosen-cover need (y ∷ ys) x c found = elim (Bool-cases (leb need y.total)) [
  | inl fits ↦
      let found' = rw fits at found in
      let same : y ≡ x = ap (from_some y) found' in rw (fits, same) refl
  | inr small ↦
      let found' = rw small at found in
      let rest = chosen-cover need ys x c found' in rw small (omega arith)
]

chosen-sums :
    (need : ℕ) (xs : List Block) (x : Block)
    → chosen need xs ≡ some x
    → (need ≤ x.total) × (sum_totals xs ≡ x.total + sum_totals (remaining need xs))
chosen-sums need [] x found = absurd (ground arith)
chosen-sums need (y ∷ ys) x found = elim (Bool-cases (leb need y.total)) [
  | inl fits ↦
      let found' = rw fits at found in
      let same : y ≡ x = ap (from_some y) found' in rw (fits, same) (ground arith, refl)
  | inr small ↦
      let found' = rw small at found in
      let rest = chosen-sums need ys x found' in rw small (rest.0, omega (arith, rest.1))
]

length-sums :
    (base : ℕ) (m : Mem) (b : ℕ) (xs : List Block)
    → Linked base m b xs
    → 32 * length xs ≤ sum_totals xs
length-sums base m b [] linked = omega arith
length-sums base m b (x ∷ xs) (here, is_x, linked) =
    omega (arith, is_x.large, length-sums base m (load32 m (x.start + 16)) xs linked)

-- Why a request is refused.
pub data Refusal (s : Heap) (free : List Block) (size : ℕ) : Type 0 where
  empty : size ≡ 0 → Refusal s free size
  too_large : 0x4_0000 < rounded size → Refusal s free size
  no_room :
      chosen (rounded size) free ≡ none → 0x4_0000 < s.heap_off + rounded size → Refusal s free size

-- What `kmalloc` returns for `size` bytes: nothing, the first free block that is large enough, or a
-- new block at the end.
pub data Allocates (base : ℕ) (s : Heap) (free live : List Block) (size : ℕ)
    : Option (ℕ × Heap) → Type 0 where
  refused : Refusal s free size → Allocates base s free live size (some (0, s))
  reused :
      (x : Block) (s' : Heap)
      → chosen (rounded size) free ≡ some x
      → rounded size ≤ x.total
      → IsHeap base s' (remaining (rounded size) free) (x ∷ live)
      → Allocates base s free live size (some (x.start + 16, s'))
  extended :
      (s' : Heap)
      → chosen (rounded size) free ≡ none
      → s'.heap_off ≡ s.heap_off + rounded size
      → IsHeap base s' free (record { start = base + s.heap_off; total = rounded size } ∷ live)
      → Allocates base s free live size (some (base + s.heap_off + 16, s'))

module _ (base : ℕ) (low : base + 0x4_0000 ≤ 2 ^ 32) (high : 1 ≤ base) (even : base % 16 ≡ 0)
    (s : Heap) (free live : List Block) (is : IsHeap base s free live) (size : ℕ)
    (positive : 1 ≤ size) (fits : rounded size ≤ 0x4_0000) where
  bump-Allocates :
      chosen (rounded size) free ≡ none
      → Allocates base s free live size (some (bump base (rounded size) s))
  unfolding bump
  bump-Allocates none_fits = elim (Bool-cases (ltb (0x4_0000 - s.heap_off) (rounded size))) [
    | inl full ↦ rw (full) (refused (no_room none_fits (ground (arith, is.off_le))))
    | inr room ↦
        let w = base + s.heap_off in
        let align_w : w % 16 ≡ 0 = omega (arith, is.off_aligned) in
        let room' : s.heap_off + rounded size ≤ 0x4_0000 = ground (arith, is.off_le) in
        let w_lt : w < 2 ^ 32 = omega arith in
        let bare : cover free w + cover live w ≡ 0 = let at_w = is.apart w in ground arith in
        let reads = load32-store32 s.mem w (rounded size) (omega arith) (omega arith) in
        rw (room) (
          extended _ none_fits refl (record {
            links =
                Linked-store base s.mem w (rounded size) low align_w w_lt (omega arith) s.freelist
                  free (omega arith) is.links;
            headers = (
              record {
                header = reads;
                aligned = align_w;
                large = omega arith;
                above = omega arith;
                below = omega arith;
              },
              AreBlocks-store base s.mem w (rounded size) low align_w w_lt (omega arith) live
                  (omega arith) is.headers,
            );
            apart = λ c. let at_c = is.apart c in ground arith;
            sums = omega (arith, is.sums);
            off_aligned = omega (arith, is.off_aligned);
            off_le = room';
          }))
  ]

  serve-Allocates :
      (r : Option (ℕ × Heap))
      → Takes base low high (rounded size) s free r
      → Allocates base s free live size (serve base (rounded size) r)
  unfolding serve
  serve-Allocates r (takes_none none_fits) = bump-Allocates none_fits
  serve-Allocates r (takes x s' found same_off is_x linked keeps) =
      let sums = chosen-sums (rounded size) free x found in
      let nonzero : (x.start + 16 == 0) ≡ false = ground arith in
      rw (nonzero) (
        reused x s' found sums.0 (record {
          links = linked;
          headers = (is_x, keeps live (λ c. let at_c = is.apart c in ground arith) is.headers);
          apart = λ c.
              let at_c = is.apart c in
              let split = chosen-cover (rounded size) free x c found in rw (same_off) (omega arith);
          sums = omega (arith, same_off, sums.1, is.sums);
          off_aligned = omega (arith, same_off, is.off_aligned);
          off_le = omega (arith, same_off, is.off_le);
        }))

-- On a heap whose blocks do not overlap, `kmalloc` returns: it refuses a request of 0 bytes, one
-- larger than the arena, or one that no free block fits and the rest of the arena neither; else it
-- takes the first free block that is large enough out of the list, or a new one at the end where
-- none is, and the blocks, the one given out included, still do not overlap.
pub kmalloc-Allocates :
    (base : ℕ) (s : Heap) (free live : List Block) (size : ℕ)
    → base + 0x4_0000 ≤ 2 ^ 32
    → 1 ≤ base
    → base % 16 ≡ 0
    → IsHeap base s free live
    → Allocates base s free live size (kmalloc base size s)
unfolding kmalloc
kmalloc-Allocates base s free live size low high even is =
    elim (Bool-cases (size == 0 || ltb 0x4_0000 size)) [
      | inl odd ↦ rw (odd) (elim (Bool-cases (size == 0)) [
        | inl none_asked ↦ refused (empty (ground arith))
        | inr some_asked ↦ refused (too_large (ground arith))
      ])
      | inr usual ↦
          let small : size ≤ 0x4_0000 = ground arith in
          let positive : 1 ≤ size = ground arith in
          elim (Bool-cases (ltb 0x4_0000 (rounded size))) [
            | inl large ↦
                rw (usual, align_up_lem size small, large) (refused (too_large (ground arith)))
            | inr fits ↦
                let few : length free < 8193 =
                  omega
                    (arith, length-sums base s.mem s.freelist free is.links, is.sums, is.off_le) in
                rw (usual, align_up_lem size small, fits)
                  (serve-Allocates base low high even s free live is size positive (ground arith)
                    (fit_loop 8193 (rounded size) none s.freelist s)
                    (fit_loop-Takes base low high (rounded size) 8193 s s.freelist free refl
                      is.links (λ c. let at_c = is.apart c in ground arith) few))
          ]
    ]
