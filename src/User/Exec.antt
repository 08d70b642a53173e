-- ===== src/User/Exec.antt =====
-- kernel/exec_flat.c: a file of the RAM file system becomes the user program.
use verve_os.Base.{
  ℕ, zero, suc, ◌+◌, ◌-◌, ◌*◌, ◌/◌, Bool, true, false, not, ◌||◌, Option, none, some, List, [], ◌∷◌,
  ◌==◌, if◌then◌else◌, u32, length,
}
use verve_os.Base.Array.{codes}
use verve_os.Base.Memory.{Mem}
use verve_os.Pmm.{alloc_frame}
use verve_os.Paging.{Machine, get_cr3, map_page, switch_cr3, with_mem}
use verve_os.Paging.Boot.{Statics}
use verve_os.Proc.{init_singleton, exec_reset_brk, current_pd_phys}
use verve_os.Serial.{puts, put_u64_hex}
use verve_os.User.{
  User, user_text_va, user_stack_top, pte_user_rwu, Exit, returned, faulted, entered, with_machine,
  say, Prepared, no_frames, no_tables, prepared, prepare, store_virtual,
}
use verve_os.Vfs.{get_file_k}

-- `p[i] = 0` for `n` bytes from the address `p` on.
unfoldable pub bzero_user_text : ℕ → ℕ → ℕ → Mem → Option Mem
bzero_user_text zero pd p m = some m
bzero_user_text (suc n) pd p m = elim (store_virtual pd p 0 m) [
  | none ↦ none
  | some m' ↦ bzero_user_text n pd (p + 1) m'
]

-- `src` are the bytes of the file.
unfoldable pub copy_blob : List ℕ → ℕ → ℕ → Mem → Option Mem
copy_blob [] pd dst m = some m
copy_blob (b ∷ bs) pd dst m = elim (store_virtual pd dst b m) [
  | none ↦ none
  | some m' ↦ copy_blob bs pd (dst + 1) m'
]

-- The loop over the further pages of the text, with the rounds left.
unfoldable pub text_loop : ℕ → ℕ → ℕ → Machine → Bool × Machine
text_loop zero i pd s = (true, s)
text_loop (suc left) i pd s =
    let given = alloc_frame s.pmm in
    let taken : Machine = record s { pmm = given.1 } in
    let mapped = map_page pd (u32 (user_text_va + i * 4096)) given.0 pte_user_rwu taken in
    let rest = text_loop left (i + 1) pd mapped.1 in
    if given.0 == 0 then (false, taken) else if mapped.0 then rest else (false, mapped.1)

-- The `n` bytes of the text become zero, and then the file is copied there.
unfoldable pub write_text : ℕ → List ℕ → ℕ → Mem → Option Mem
write_text n blob pd m = elim (bzero_user_text n pd user_text_va m) [
  | none ↦ none
  | some m' ↦ copy_blob blob pd user_text_va m'
]

-- The way into the program, from the machine `s`, if its text could be written.
unfoldable pub enter_text : ℕ → User → Machine → Option Mem → Exit
enter_text ring0_stack u s none = faulted (with_machine u s)
enter_text ring0_stack u s (some m) =
    entered user_text_va user_stack_top
      (record (with_machine u
        (say (codes "[VerveOS] exec_flat: paging_switch_cr3 + iret\r\n") (with_mem s m))) {
          esp0 = u32 (ring0_stack + 2048);
        })

-- The end of `verve_exec_flat_run`.
unfoldable pub enter_flat : ℕ → ℕ → List ℕ → ℕ → User → Exit
enter_flat ring0_stack npg blob pd u =
    let s = switch_cr3 pd u.proc.machine in
    enter_text ring0_stack u s (write_text (npg * 4096) blob (get_cr3 s) s.pmm.mem)

-- The part after the two frames are mapped.
unfoldable pub load_pages : ℕ → List ℕ → ℕ → User → Exit
load_pages ring0_stack blob pd u =
    let npg = u32 (length blob + 4096 - 1) / 4096 in
    let more = text_loop (npg - 1) 1 pd u.proc.machine in
    if more.0
    then enter_flat ring0_stack npg blob pd (with_machine u more.1)
    else returned
        (with_machine u (say (codes "[VerveOS] exec_flat: extra text page failed\r\n") more.1))

-- The part after the frames and their pages are there, or not.
unfoldable pub load_prepared : ℕ → List ℕ → ℕ → User → Prepared → Exit
load_prepared ring0_stack blob pd u (no_frames s) =
    returned (with_machine u (say (codes "[VerveOS] exec_flat: pmm_alloc_frame failed\r\n") s))
load_prepared ring0_stack blob pd u (no_tables s) =
    returned (with_machine u (say (codes "[VerveOS] exec_flat: paging_map_page failed\r\n") s))
load_prepared ring0_stack blob pd u (prepared code stack s) =
    load_pages ring0_stack blob pd (with_machine u s)

-- The part after the process has its directory.
unfoldable pub load_flat : ℕ → List ℕ → User → Exit
load_flat ring0_stack blob u =
    let pd = current_pd_phys u.proc in
    if pd == 0
    then returned
        (with_machine u (say (codes "[VerveOS] exec_flat: no page directory\r\n") u.proc.machine))
    else load_prepared ring0_stack blob pd u (prepare pd u.proc.machine)

unfoldable pub exec_flat_run : Statics → ℕ → List ℕ → User → Exit
exec_flat_run at ring0_stack path u =
    let (code, blob) = get_file_k path in
    let m = u.proc.machine in
    let failed = record m {
      serial =
          puts (codes "\r\n")
            (puts path (puts (codes "[VerveOS] exec_flat: ramfs lookup failed for ") m.serial));
    } in
    let loading = record m {
      serial = puts (codes "\r\n") (
          put_u64_hex (length blob) (
            puts (codes " len=") (puts path (puts (codes "[VerveOS] exec_flat: load ") m.serial))));
    } in
    let proc = exec_reset_brk (init_singleton at (record u.proc { machine = loading })) in
    if not (code == 0) || length blob == 0
    then returned (with_machine u failed)
    else load_flat ring0_stack blob (record u { proc = proc })
