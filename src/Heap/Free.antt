-- ===== src/Heap/Free.antt =====
-- `kfree` puts a live block in front of the list of free ones.
use verve_os.Base.{
  false, ℕ, ◌+◌, ◌-◌, ◌%◌, ◌^◌, ◌≤◌, ◌<◌, ◌≡◌, ◌||◌, refl, arith, ltb, leb, ◌==◌, List, [], ◌∷◌,
  ◌++◌,
}
use verve_os.Base.Memory.{Mem, load32-store32}
use verve_os.Heap.{Heap, kfree, heap_init}
use verve_os.Heap.Blocks.{
  Block, cover, sum_totals, IsBlock, AreBlocks, IsBlock-store, AreBlocks-store, Linked,
  Linked-store,
}
use verve_os.Heap.Alloc.{IsHeap}

cover_append : (xs ys : List Block) (c : ℕ) → cover (xs ++ ys) c ≡ cover xs c + cover ys c
cover_append [] ys c = ground arith
cover_append (x ∷ xs) ys c = omega (arith, cover_append xs ys c)

sums_append : (xs ys : List Block) → sum_totals (xs ++ ys) ≡ sum_totals xs + sum_totals ys
sums_append [] ys = ground arith
sums_append (x ∷ xs) ys = omega (arith, sums_append xs ys)

blocks_middle :
    (base : ℕ) (m : Mem) (front : List Block) (x : Block) (back : List Block)
    → AreBlocks base m (front ++ (x ∷ back))
    → IsBlock base m x × AreBlocks base m (front ++ back)
blocks_middle base m [] x back are = are
blocks_middle base m (y ∷ front) x back (is_y, are) =
    let rest = blocks_middle base m front x back are in (rest.0, (is_y, rest.1))

Linked-lt :
    (base : ℕ) (m : Mem) (b : ℕ) (xs : List Block)
    → base + 0x4_0000 ≤ 2 ^ 32
    → Linked base m b xs
    → b < 2 ^ 32
Linked-lt base m b [] low linked = omega (arith, linked)
Linked-lt base m b (x ∷ xs) low (here, is_x, linked) = omega (arith, here, is_x.below, is_x.large)

-- After `kfree` of a live block, on a heap whose blocks do not overlap, the block is the first of
-- the free list, and the blocks still do not overlap.
pub kfree-IsHeap :
    (base : ℕ) (s : Heap) (free front : List Block) (x : Block) (back : List Block)
    → base + 0x4_0000 ≤ 2 ^ 32
    → 1 ≤ base
    → IsHeap base s free (front ++ (x ∷ back))
    → IsHeap base (kfree base (x.start + 16) s) (x ∷ free) (front ++ back)
unfolding kfree
kfree-IsHeap base s free front x back low high is =
    let list_lt = Linked-lt base s.mem s.freelist free low is.links in
    let parts = blocks_middle base s.mem front x back is.headers in
    let is_x = parts.0 in
    let w = x.start + 16 in
    let nonzero : (w == 0) ≡ false = ground arith in
    let within : (ltb w (base + 16) || leb (base + 0x4_0000) w) ≡ false =
      ground (arith, is_x.above, is_x.below, is_x.large) in
    let header_at : w - 16 ≡ x.start = omega arith in
    let align_w : w % 16 ≡ 0 = omega (arith, is_x.aligned) in
    let w_lt : w < 2 ^ 32 = omega (arith, is_x.below, is_x.large) in
    let split = λ (c : ℕ). cover_append front (x ∷ back) c in
    let joined = λ (c : ℕ). cover_append front back c in
    let alone : cover free w + cover (front ++ back) w ≡ 0 =
      let at_w = is.apart w in
      let whole = split w in let less = joined w in ground (arith, is_x.large) in
    let reads = load32-store32 s.mem w s.freelist (omega (arith, is_x.aligned)) list_lt in
    rw (nonzero, within, header_at)
      (record {
        links = (
          refl,
          IsBlock-store base s.mem w s.freelist low align_w w_lt list_lt x (omega arith) is_x,
          rw (reads) (
              Linked-store base s.mem w s.freelist low align_w w_lt list_lt s.freelist free
                (omega arith) is.links),
        );
        headers =
            AreBlocks-store base s.mem w s.freelist low align_w w_lt list_lt (front ++ back)
              (omega arith) parts.1;
        apart =
            λ c. let at_c = is.apart c in let whole = split c in let less = joined c in omega arith;
        sums = omega (arith, is.sums, sums_append front (x ∷ back), sums_append front back);
        off_aligned = is.off_aligned;
        off_le = is.off_le;
      })

-- After `heap_init` the heap is empty.
pub heap_init-IsHeap : (base : ℕ) (s : Heap) → IsHeap base (heap_init s) [] []
unfolding heap_init
heap_init-IsHeap base s = record {
  links = refl;
  headers = tt;
  apart = λ c. omega arith;
  sums = omega arith;
  off_aligned = refl;
  off_le = omega arith;
}
