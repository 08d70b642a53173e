-- ===== src/Vfs.antt =====
-- kernel/vfs_ram.c: read-only files fixed at compile time, and the table of open descriptors.
-- `range_ok` is `paging_user_range_ok`, `none` where it does not come back, and then the caller does not
-- either; user memory is the memory of the current address space.
pub mod Files
pub mod Read
pub mod Stream
pub mod Table
pub mod Invariant
pub mod Find
pub mod Open
pub mod Kernel
pub mod Selftest
mod Tests
use verve_os.Base.{
  ℕ, zero, suc, ◌+◌, ◌-◌, ◌^◌, Bool, true, false, not, Option, none, some, List, [], ◌∷◌, ltb, leb,
  ◌==◌, if◌then◌else◌, u8, u32, length, get_or,
}
use verve_os.Base.Array.{Array, update, codes}
use verve_os.Base.Int32.{minus, is_negative}
use verve_os.Base.Memory.{Mem, load8, store8}
use verve_os.Serial.{puts, put_u64_hex}

pub record File : Type 0 where
  pub path : List ℕ
  pub content : List ℕ

pub record Ufd : Type 0 where
  pub used : ℕ
  pub vfidx : ℕ
  pub pos : ℕ

-- `g_ufd`, and the user memory that reads go to.
pub record Vfs : Type 0 where
  pub ufd : Array Ufd
  pub mem : Mem

abbrev pub vfs_max_path : ℕ
vfs_max_path = 96

abbrev pub vfs_max_ufd : ℕ
vfs_max_ufd = 12

abbrev pub vfs_fd_base : ℕ
vfs_fd_base = 3

abbrev pub hello_data : List ℕ
hello_data = codes "Hello from VerveOS ramfs (vfs_ram.c).\r\n"

abbrev pub exit_bin : List ℕ
exit_bin = 0xb8 ∷ 0x03 ∷ 0 ∷ 0 ∷ 0 ∷ 0x31 ∷ 0xdb ∷ 0xcd ∷ 0x80 ∷ []

unfoldable pub files : List File
files =
    record { path = codes "/hello.txt"; content = hello_data }
    ∷ record { path = codes "/exit.bin"; content = exit_bin }
    ∷ []

abbrev no_file : File
no_file = record { path = []; content = [] }

-- `g_vfs_files[i]`
unfoldable pub file_at : ℕ → File
unfolding files
file_at i = get_or files i no_file

difference : ℕ → ℕ → ℕ
difference a b = u32 (a + 2 ^ 32 - b)

-- C strings as lists: the end of a list is a NUL too.
unfoldable pub strcmp_v : List ℕ → List ℕ → ℕ
unfolding difference
strcmp_v [] [] = difference 0 0
strcmp_v [] (y ∷ ys) = difference 0 y
strcmp_v (x ∷ xs) [] = difference x 0
strcmp_v (x ∷ xs) (y ∷ ys) =
    let rest = strcmp_v xs ys in
    if x == 0 then difference x y else if x == y then rest else difference x y

-- The loop of `vfs_find` from file `i` on.
find_from : List ℕ → List File → ℕ → ℕ
find_from path [] i = minus 1
find_from path (f ∷ fs) i =
    let rest = find_from path fs (i + 1) in if strcmp_v path f.path == 0 then i else rest

unfoldable pub vfs_find : List ℕ → ℕ
unfolding find_from files
vfs_find path = find_from path files 0

-- The return value, and the file's contents where it is 0.
unfoldable pub get_file_k : List ℕ → ℕ × List ℕ
get_file_k path =
    let ix = vfs_find path in if is_negative ix then (minus 2, []) else (0, (file_at ix).content)

alloc_from : ℕ → ℕ → ℕ → Vfs → ℕ × Vfs
alloc_from zero slot vfidx s = (minus 24, s)
alloc_from (suc left) slot vfidx s =
    let rest = alloc_from left (slot + 1) vfidx s in
    if (s.ufd slot).used == 0
    then (
      vfs_fd_base + slot,
      record s { ufd = update s.ufd slot (record { used = 1; vfidx = vfidx; pos = 0 }) },
    )
    else rest

unfoldable pub ufd_alloc : ℕ → Vfs → ℕ × Vfs
unfolding alloc_from
ufd_alloc vfidx s = alloc_from vfs_max_ufd 0 vfidx s

init_from : ℕ → ℕ → Vfs → Vfs
init_from zero slot s = s
init_from (suc left) slot s =
    init_from left (slot + 1)
      (record s { ufd = update s.ufd slot (record { used = 0; vfidx = 0; pos = 0 }) })

-- The descriptors, and what is printed.
unfoldable pub vfs_init : Vfs → List ℕ → Vfs × List ℕ
unfolding init_from files
vfs_init s out = (
  init_from vfs_max_ufd 0 s,
  puts (codes " static file(s)\r\n")
      (put_u64_hex (length files) (puts (codes "[VerveOS] vfs_ram: ") out)),
)

-- The slot of a descriptor that is open.
unfoldable pub vfs_get_ufd : ℕ → Vfs → Option ℕ
vfs_get_ufd fd s =
    let slot = fd - vfs_fd_base in
    if is_negative fd
    then none
    else if ltb fd vfs_fd_base
    then none
    else if leb vfs_max_ufd slot
    then none
    else if (s.ufd slot).used == 0
    then none
    else some slot

-- The copy loop of `verve_vfs_read_u`: `n` bytes of the file from `p` on go to `va`.
unfoldable pub copy_out : ℕ → ℕ → ℕ → List ℕ → Mem → Mem
copy_out zero p va content m = m
copy_out (suc n) p va content m =
    copy_out n (p + 1) (u32 (va + 1)) content (store8 m va (get_or content p 0))

abbrev pub with_byte : ℕ → Option (Option (List ℕ)) → Option (Option (List ℕ))
with_byte c none = none
with_byte c (some none) = some none
with_byte c (some (some p)) = some (some (c ∷ p))

-- `verve_vfs_open_u` behind the copy of the path, `none` where that failed.
unfoldable pub open_path : Option (List ℕ) → Vfs → ℕ × Vfs
open_path none s = (minus 14, s)
open_path (some kpath) s =
    let vfid = vfs_find kpath in if is_negative vfid then (minus 2, s) else ufd_alloc (u8 vfid) s

module _ (range_ok : ℕ → ℕ → Bool → Option Bool) where
  -- The loop of `copy_user_path` with the rounds left; after the last the path is cut off.
  copy_path : ℕ → ℕ → Mem → Option (Option (List ℕ))
  copy_path zero va m = some (some [])
  copy_path (suc left) va m =
      let c = load8 m va in
      let rest = copy_path left (u32 (va + 1)) m in
      elim (range_ok va 1 false) [
        | none ↦ none
        | some ok ↦
            if not ok then some none else if c == 0 then some (some []) else with_byte c rest
      ]

  unfoldable pub copy_user_path : ℕ → ℕ → Mem → Option (Option (List ℕ))
  unfolding copy_path
  copy_user_path uva outsz m = if outsz == 0 then some none else copy_path (outsz - 1) uva m

  unfoldable pub open_u : ℕ → Vfs → Option (ℕ × Vfs)
  open_u path_va s = elim (copy_user_path path_va vfs_max_path s.mem) [
    | none ↦ none
    | some path ↦ some (open_path path s)
  ]

  read_slot : ℕ → ℕ → ℕ → Vfs → Option (ℕ × Vfs)
  read_slot slot buf_va len s =
      let u = s.ufd slot in
      let content = (file_at u.vfidx).content in
      let capped = if ltb 4096 len then 4096 else len in
      let want = length content - u.pos in
      let got = if ltb capped want then capped else want in
      if len == 0 then some (0, s) else elim (range_ok buf_va capped true) [
        | none ↦ none
        | some ok ↦ some (
            if not ok then (minus 14, s) else if leb (length content) u.pos then (0, s) else (
              got,
              record s {
                ufd = update s.ufd slot (record u { pos = u32 (u.pos + got) });
                mem = copy_out got u.pos buf_va content s.mem;
              },
            ))
      ]

  unfoldable pub read_u : ℕ → ℕ → ℕ → Vfs → Option (ℕ × Vfs)
  unfolding read_slot
  read_u fd buf_va len s = elim (vfs_get_ufd fd s) [
    | none ↦ some (minus 9, s)
    | some slot ↦ read_slot slot buf_va len s
  ]

unfoldable pub close_u : ℕ → Vfs → Vfs
close_u fd s = elim (vfs_get_ufd fd s) [
  | none ↦ s
  | some slot ↦ record s { ufd = update s.ufd slot (record (s.ufd slot) { used = 0 }) }
]
