-- ===== src/User/Bringup.antt =====
-- kernel/user_bringup.c: a program that the kernel writes itself, byte by byte.
use verve_os.Base.{ℕ, ◌+◌, ◌/◌, List, [], ◌∷◌, ◌++◌, ◌==◌, leb, if◌then◌else◌, u8, u32, length}
use verve_os.Base.Array.{codes}
use verve_os.Base.Memory.{Mem, store8}
use verve_os.Paging.{switch_cr3, with_mem}
use verve_os.Paging.Boot.{Statics}
use verve_os.Proc.{init_singleton, current_pd_phys}
use verve_os.User.{
  User, user_text_va, user_stack_top, Exit, returned, entered, with_machine, say, Prepared,
  no_frames, no_tables, prepared, prepare,
}

abbrev pub user_data_start : ℕ
user_data_start = 512

abbrev pub user_path_off : ℕ
user_path_off = 512

abbrev pub user_msg_off : ℕ
user_msg_off = 544

abbrev pub user_heap_buf_va : ℕ
user_heap_buf_va = 0x8000_2000

abbrev pub user_brk_target : ℕ
user_brk_target = 0x8000_3000

abbrev pub user_read_max : ℕ
user_read_max = 128

-- An opcode, and a word behind it, low byte first.
abbrev pub op_word : ℕ → ℕ → List ℕ
op_word op w = op ∷ u8 w ∷ u8 (w / 256) ∷ u8 (w / 65536) ∷ u8 (w / 16777216) ∷ []

abbrev pub two : ℕ → ℕ → List ℕ
two a b = a ∷ b ∷ []

-- The bytes that `emit_user_phase3` writes, in order.
unfoldable pub phase3 : (brk_goal path_va buf_va msg_va msg_len : ℕ) → List ℕ
phase3 brk_goal path_va buf_va msg_va msg_len =
    op_word 0xb8 45
    ++ op_word 0xbb brk_goal
    ++ two 0xcd 0x80
    ++ op_word 0xb8 5
    ++ op_word 0xbb path_va
    ++ two 0xcd 0x80
    ++ two 0x89 0xc6
    ++ op_word 0xb8 6
    ++ two 0x89 0xf3
    ++ op_word 0xb9 buf_va
    ++ op_word 0xba user_read_max
    ++ two 0xcd 0x80
    ++ two 0x89 0xc7
    ++ op_word 0xb8 1
    ++ op_word 0xbb 1
    ++ op_word 0xb9 buf_va
    ++ two 0x89 0xfa
    ++ two 0xcd 0x80
    ++ op_word 0xb8 7
    ++ two 0x89 0xf3
    ++ two 0xcd 0x80
    ++ op_word 0xb8 1
    ++ op_word 0xbb 1
    ++ op_word 0xb9 msg_va
    ++ op_word 0xba msg_len
    ++ two 0xcd 0x80
    ++ op_word 0xb8 2
    ++ two 0xcd 0x80
    ++ op_word 0xb8 3
    ++ op_word 0xbb 0
    ++ two 0xcd 0x80

-- The bytes go to addresses from `p` on.
unfoldable pub store_all : List ℕ → ℕ → Mem → Mem
store_all [] p m = m
store_all (b ∷ bs) p m = store_all bs (p + 1) (store8 m p b)

-- The number of bytes, and the memory.
unfoldable pub emit_user_phase3 : (code brk_goal path_va buf_va msg_va msg_len : ℕ) → Mem → ℕ × Mem
emit_user_phase3 code brk_goal path_va buf_va msg_va msg_len m =
    let bytes = phase3 brk_goal path_va buf_va msg_va msg_len in
    (length bytes, store_all bytes code m)

unfoldable pub msg : List ℕ
msg = codes "VerveOS user: banner after /hello.txt (same PD @ 2GiB).\r\n"

unfoldable pub path : List ℕ
path = codes "/hello.txt" ++ (0 ∷ [])

abbrev pub msg_va : ℕ
msg_va = user_text_va + user_msg_off

abbrev pub path_va : ℕ
path_va = user_text_va + user_path_off

unfoldable pub enter_smoke : ℕ → ℕ → ℕ → User → Exit
enter_smoke ring0_stack pd code u =
    let s = u.proc.machine in
    let emitted =
      emit_user_phase3 code user_brk_target path_va user_heap_buf_va msg_va (length msg)
        s.pmm.mem in
    let full =
      store_all path (code + user_path_off) (store_all msg (code + user_msg_off) emitted.1) in
    let said =
      say (codes "[VerveOS] userspace: paging_switch_cr3(proc) + iret (Ring 3)\r\n")
        (with_mem s full) in
    if leb user_data_start emitted.0
    then returned (
        with_machine u
          (say (codes "[VerveOS] userspace smoke: code too large\r\n") (with_mem s emitted.1)))
    else entered user_text_va user_stack_top
        (record (with_machine u (switch_cr3 pd said)) { esp0 = u32 (ring0_stack + 2048) })

unfoldable pub smoke_prepared : ℕ → ℕ → User → Prepared → Exit
smoke_prepared ring0_stack pd u (no_frames s) =
    returned
      (with_machine u (say (codes "[VerveOS] userspace smoke: pmm_alloc_frame failed\r\n") s))
smoke_prepared ring0_stack pd u (no_tables s) =
    returned
      (with_machine u (say (codes "[VerveOS] userspace smoke: paging_map_page failed\r\n") s))
smoke_prepared ring0_stack pd u (prepared code stack s) =
    enter_smoke ring0_stack pd code (with_machine u s)

unfoldable pub user_bringup_smoke : Statics → ℕ → User → Exit
user_bringup_smoke at ring0_stack u =
    let start =
      say (codes "[VerveOS] userspace: ramfs OPEN/READ + WRITE (clone PD + CR3)\r\n")
        u.proc.machine in
    let proc = init_singleton at (record u.proc { machine = start }) in
    let pd = current_pd_phys proc in
    let u' : User = record u { proc = proc } in
    if pd == 0
    then returned (
        with_machine u'
          (say (codes "[VerveOS] userspace: paging_clone_kernel_pd failed\r\n") proc.machine))
    else smoke_prepared ring0_stack pd u' (prepare pd proc.machine)
