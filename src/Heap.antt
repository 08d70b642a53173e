-- ===== src/Heap.antt =====
-- kernel/heap.c: a first-fit list of free blocks inside a static arena, and a bump allocator for
-- what the list does not serve. `base` is the address that the linker gives `g_heap`.
pub mod Blocks
pub mod Fit
pub mod Alloc
pub mod Free
mod Tests
use verve_os.Base.{
  ℕ, zero, suc, ◌+◌, ◌-◌, Bool, ◌||◌, Option, none, some, ltb, leb, ◌==◌, if◌then◌else◌, u32, not32,
  bit_and,
}
use verve_os.Base.Memory.{Mem, load32, store32}

pub record Heap : Type 0 where
  pub mem : Mem
  pub freelist : ℕ
  pub heap_off : ℕ

abbrev pub heap_size : ℕ
heap_size = 0x4_0000

-- `HEAP_HDR_USER_OFFSET`, the header of four bytes rounded up to 16.
abbrev pub user_offset : ℕ
user_offset = 16

abbrev pub hdr_align : ℕ
hdr_align = 16

unfoldable pub align_up : ℕ → ℕ → ℕ
align_up x align = bit_and (u32 (x + align - 1)) (not32 (align - 1))

unfoldable pub heap_init : Heap → Heap
heap_init s = record s { freelist = 0; heap_off = 0 }

-- `*plink = v`, where `none` stands for `&g_freelist`.
unfoldable pub set_link : Option ℕ → ℕ → Heap → Heap
set_link none v s = record s { freelist = v }
set_link (some a) v s = record s { mem = store32 s.mem a v }

-- The loop over the free blocks, from `b` on: the pointer returned, or 0 where no block fits. The
-- outer `none` means that the fuel ran out.
unfoldable pub fit_loop : ℕ → ℕ → Option ℕ → ℕ → Heap → Option (ℕ × Heap)
fit_loop zero need plink b s = none
fit_loop (suc fuel) need plink b s =
    let nb = load32 s.mem (b + user_offset) in
    let rest = fit_loop fuel need (some (b + user_offset)) nb s in
    if b == 0
    then some (0, s)
    else if leb need (load32 s.mem b)
    then some (b + user_offset, set_link plink nb s)
    else rest

-- The end of `kmalloc`, for a request that no free block fits.
unfoldable pub bump : ℕ → ℕ → Heap → ℕ × Heap
bump base need s =
    let h = base + s.heap_off in
    if ltb (heap_size - s.heap_off) need
    then (0, s)
    else (h + user_offset, record s { mem = store32 s.mem h need; heap_off = s.heap_off + need })

unfoldable pub serve : ℕ → ℕ → Option (ℕ × Heap) → Option (ℕ × Heap)
serve base need none = none
serve base need (some (p, s)) = if p == 0 then some (bump base need s) else some (p, s)

-- A block of the list has 32 bytes at least, so 8192 of them fit into the arena.
unfoldable pub kmalloc : ℕ → ℕ → Heap → Option (ℕ × Heap)
kmalloc base size s =
    let need = align_up (user_offset + size) hdr_align in
    if size == 0 || ltb heap_size size
    then some (0, s)
    else if ltb heap_size need
    then some (0, s)
    else serve base need (fit_loop 8193 need none s.freelist s)

unfoldable pub kfree : ℕ → ℕ → Heap → Heap
kfree base ptr s =
    let h = ptr - user_offset in
    if ptr == 0
    then s
    else if ltb ptr (base + user_offset) || leb (base + heap_size) ptr
    then s
    else record s { mem = store32 s.mem (h + user_offset) s.freelist; freelist = h }
