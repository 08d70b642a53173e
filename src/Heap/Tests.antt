-- ===== src/Heap/Tests.antt =====
-- The heap at concrete requests: two blocks, of which the first is freed.
use verve_os.Base.{ℕ, ◌+◌, refl, arith, ◌==◌, if◌then◌else◌, [], ◌∷◌}
use verve_os.Base.Memory.{load8, load32}
use verve_os.Heap.{Heap, kmalloc, kfree}
use verve_os.Heap.Blocks.{Block}
use verve_os.Heap.Alloc.{IsHeap, Allocates, kmalloc-Allocates}
use verve_os.Heap.Free.{kfree-IsHeap}

abbrev arena : ℕ
arena = 0x12_0000

-- The headers of two blocks, of 48 and 32 bytes.
abbrev two_blocks : Heap
two_blocks = record {
  mem = λ a. if a == arena then 48 else if a == arena + 48 then 32 else 0;
  freelist = arena;
  heap_off = 80;
}

abbrev first : Block
first = record { start = arena; total = 48 }

abbrev second : Block
second = record { start = arena + 48; total = 32 }

two_blocks-IsHeap : IsHeap arena two_blocks (first ∷ []) (second ∷ [])
unfolding load32 load8
two_blocks-IsHeap = record {
  links = (
    refl,
    record {
      header = refl;
      aligned = refl;
      large = omega arith;
      above = omega arith;
      below = omega arith;
    },
    refl,
  );
  headers = (
    record {
      header = refl;
      aligned = refl;
      large = omega arith;
      above = omega arith;
      below = omega arith;
    },
    tt,
  );
  apart = λ c. ground arith;
  sums = omega arith;
  off_aligned = refl;
  off_le = omega arith;
}

kmalloc-Allocates_example :
    Allocates arena two_blocks (first ∷ []) (second ∷ []) 20 (kmalloc arena 20 two_blocks)
kmalloc-Allocates_example =
    kmalloc-Allocates arena two_blocks (first ∷ []) (second ∷ []) 20 (omega arith) (omega arith)
      refl two_blocks-IsHeap

kfree-IsHeap_example : IsHeap arena (kfree arena (arena + 64) two_blocks) (second ∷ first ∷ []) []
kfree-IsHeap_example =
    kfree-IsHeap arena two_blocks (first ∷ []) [] second [] (omega arith) (omega arith)
      two_blocks-IsHeap
