-- ===== src/User.antt =====
-- What kernel/exec_flat.c and kernel/user_bringup.c share: the pages of the user program, and the
-- way into it. Stores of the kernel to user addresses go through the tables that cr3 names; the
-- processor translates an address by the entry that `pte_fetch_pd` reads.
pub mod Pages
pub mod Exec
pub mod Store
pub mod Load
pub mod Running
pub mod Run
pub mod Bringup
pub mod Decode
pub mod Fill
pub mod Smoke
mod Tests
use verve_os.Base.{
  ℕ, zero, suc, ◌+◌, ◌%◌, Bool, true, false, Option, none, some, List, [], ◌∷◌, ◌==◌, if◌then◌else◌,
  u32, bit_and,
}
use verve_os.Base.Memory.{Mem, store8}
use verve_os.Pmm.{alloc_frame}
use verve_os.Paging.{Machine, frame_mask, pte_fetch_pd, get_cr3, map_page, switch_cr3, with_mem}
use verve_os.Proc.{Proc}
use verve_os.Serial.{puts}

-- The process, and the field `esp0` of the task state segment.
pub record User : Type 0 where
  pub proc : Proc
  pub esp0 : ℕ

abbrev pub user_text_va : ℕ
user_text_va = 0x8000_0000

abbrev pub user_stack_base : ℕ
user_stack_base = 0x8000_1000

abbrev pub user_stack_top : ℕ
user_stack_top = 0x8000_2000

abbrev pub pte_user_rwu : ℕ
pte_user_rwu = 7

-- How a call ends: it returns, a store faults, or the processor goes to Ring 3 at `eip` with `esp`.
pub data Exit : Type 0 where
  returned : User → Exit
  faulted : User → Exit
  entered : (eip esp : ℕ) → User → Exit

abbrev pub with_machine : User → Machine → User
with_machine u s = record u { proc = record u.proc { machine = s } }

abbrev pub say : List ℕ → Machine → Machine
say text s = record s { serial = puts text s.serial }

-- The frames for the text and the stack, and their pages.
pub data Prepared : Type 0 where
  no_frames : Machine → Prepared
  no_tables : Machine → Prepared
  prepared : (code stack : ℕ) → Machine → Prepared

unfoldable pub map_both : ℕ → ℕ → ℕ → Machine → Prepared
map_both pd code stack s =
    let text = map_page pd user_text_va code pte_user_rwu s in
    let both = map_page pd user_stack_base stack pte_user_rwu text.1 in
    if text.0
    then (if both.0 then prepared code stack both.1 else no_tables both.1)
    else no_tables text.1

unfoldable pub prepare : ℕ → Machine → Prepared
prepare pd s =
    let code = alloc_frame s.pmm in
    let stack = alloc_frame code.1 in
    let s' = record s { pmm = stack.1 } in
    if code.0 == 0
    then no_frames s'
    else if stack.0 == 0
    then no_frames s'
    else map_both pd code.0 stack.0 s'

-- A store of one byte at a virtual address. `none` is a page fault.
unfoldable pub store_virtual : ℕ → ℕ → ℕ → Mem → Option Mem
store_virtual pd va v m = elim (pte_fetch_pd m pd va) [
  | none ↦ none
  | some pte ↦ some (store8 m (bit_and pte frame_mask + va % 4096) v)
]
