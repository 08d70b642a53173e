-- ===== src/Proc.antt =====
-- kernel/proc.c: the one process, its address space and its program break.
pub mod Space
pub mod Break
pub mod Loop
pub mod Call
mod Tests
use verve_os.Base.{
  ℕ, zero, suc, ◌+◌, ◌-◌, ◌^◌, Bool, true, false, not, ◌||◌, Option, none, some, ltb, leb, ◌==◌,
  if◌then◌else◌, u32, bit_and,
}
use verve_os.Base.Int32.{minus}
use verve_os.Pmm.{alloc_frame, free_frame}
use verve_os.Paging.{Machine, map_page}
use verve_os.Paging.Boot.{Statics, clone_kernel_pd}

-- `g_cur` and `g_brk`, beside the machine.
pub record Proc : Type 0 where
  pub machine : Machine
  pub pid : ℕ
  pub pd_phys : ℕ
  pub brk : ℕ

abbrev pub page_size : ℕ
page_size = 4096

abbrev pub user_heap_base : ℕ
user_heap_base = 0x8000_2000

abbrev pub user_heap_cap : ℕ
user_heap_cap = 0x8040_0000

abbrev pub pte_user_rwu : ℕ
pte_user_rwu = 7

unfoldable pub init_singleton : Statics → Proc → Proc
init_singleton at p =
    let cloned = clone_kernel_pd at p.machine in
    record { machine = cloned.1; pid = 1; pd_phys = cloned.0; brk = user_heap_base }

unfoldable pub current_pid : Proc → ℕ
current_pid p = p.pid

unfoldable pub current_pd_phys : Proc → ℕ
current_pd_phys p = p.pd_phys

unfoldable pub exec_reset_brk : Proc → Proc
exec_reset_brk p = record p { brk = user_heap_base }

-- `for (va = cur; va < addr; va += VERVE_PAGE_SIZE)`: whether every page was mapped. `none` means
-- that the fuel ran out.
unfoldable pub brk_loop : ℕ → ℕ → ℕ → ℕ → Machine → Option (Bool × Machine)
brk_loop zero pd va addr s = none
brk_loop (suc fuel) pd va addr s =
    let given = alloc_frame s.pmm in
    let taken : Machine = record s { pmm = given.1 } in
    let mapped = map_page pd va given.0 pte_user_rwu taken in
    let rest = brk_loop fuel pd (u32 (va + page_size)) addr mapped.1 in
    if ltb va addr
    then (if given.0 == 0
        then some (false, taken)
        else if mapped.0
        then rest
        else some (false, record mapped.1 { pmm = free_frame given.0 mapped.1.pmm }))
    else some (true, s)

-- The heap has 1022 pages.
abbrev pub heap_rounds : ℕ
heap_rounds = 1023

grow : ℕ → Proc → Option (ℕ × Proc)
grow addr p = elim (brk_loop heap_rounds p.pd_phys p.brk addr p.machine) [
  | none ↦ none
  | some (done, s) ↦
      if done
      then some (addr, record p { machine = s; brk = addr })
      else some (minus 12, record p { machine = s })
]

unfoldable pub sys_brk : ℕ → Proc → Option (ℕ × Proc)
unfolding grow
sys_brk addr p =
    if p.pd_phys == 0
    then some (minus 12, p)
    else if addr == 0
    then some (p.brk, p)
    else if not (bit_and addr (page_size - 1) == 0)
    then some (minus 22, p)
    else if ltb addr user_heap_base || leb user_heap_cap addr
    then some (minus 22, p)
    else if ltb addr p.brk
    then some (minus 22, p)
    else if addr == p.brk
    then some (p.brk, p)
    else grow addr p
