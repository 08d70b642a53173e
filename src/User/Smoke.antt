-- ===== src/User/Smoke.antt =====
-- `verve_user_bringup_smoke`: the program that the kernel writes is entered.
use verve_os.Base.{
  true, false, ℕ, ◌+◌, ◌-◌, ◌<◌, ◌≡◌, refl, ◌∙◌, arith, ltb, leb, ◌==◌, ◌&&◌, if◌then◌else◌, some,
  List, length, get_or, u8,
}
use verve_os.Base.Array.{codes}
use verve_os.Base.Bits.{bit_and_page_mask}
use verve_os.Base.Memory.{Mem, load8}
use verve_os.Paging.{Machine, pte_fetch_pd, switch_cr3}
use verve_os.Paging.Boot.{Statics}
use verve_os.Paging.Tables.{Only, IsFrame}
use verve_os.Paging.Space.{IsSpace}
use verve_os.Paging.Clone.{cloned_to, no_frame, clone_kernel_pd-Clones}
use verve_os.Proc.{current_pd_phys, init_singleton}
use verve_os.User.{User, Exit, returned, entered, with_machine, say, Prepared, prepare}
use verve_os.User.Bringup.{
  user_brk_target, user_heap_buf_va, msg_va, path_va, phase3, store_all, emit_user_phase3, msg,
  path, enter_smoke, smoke_prepared, user_bringup_smoke,
}
use verve_os.User.Pages.{
  AllUsed, Prepares, IsReady, lacks_frames, lacks_tables, is_ready, prepare-Prepares,
}
use verve_os.User.Store.{fetch-Only}
use verve_os.User.Fill.{store_all-Only, store_all_byte}
use verve_os.User.Load.{IsEntered, Loads, enters, lacks}
use verve_os.User.Running.{IsRunning, process, entered-IsRunning}

abbrev code_bytes : List ℕ
code_bytes = phase3 user_brk_target path_va user_heap_buf_va msg_va (length msg)

length-code_bytes : length code_bytes ≡ 116
unfolding phase3
length-code_bytes = refl

length-msg : length msg ≡ 57
unfolding msg
length-msg = refl

length-path : length path ≡ 11
unfolding path
length-path = refl

-- The page of the text: the code, the path with its NUL and the message.
pub record IsSmoke (byte : ℕ → ℕ) : Type 0 where
  pub code : (i : ℕ) → i < 116 → byte i ≡ u8 (get_or code_bytes i 0)
  pub path_text : (i : ℕ) → i < 11 → byte (512 + i) ≡ u8 (get_or path i 0)
  pub msg_text : (i : ℕ) → i < 57 → byte (544 + i) ≡ u8 (get_or msg i 0)

module _ (ring0_stack pd code stack : ℕ) (u : User) (s : Machine)
    (ready : IsReady pd code stack u.proc.machine s) where
  code-IsFrame : IsFrame code
  code-IsFrame = ready.code_own.taken.frame

  abbrev m₁ : Mem
  m₁ = store_all code_bytes code s.pmm.mem

  abbrev m₂ : Mem
  m₂ = store_all msg (code + 544) m₁

  abbrev full : Mem
  full = store_all path (code + 512) m₂

  full-Only : Only code s.pmm.mem full
  full-Only a ha out =
      let here : code + 0 ≡ code = omega arith in
      store_all-Only code code-IsFrame path 512 m₂ (omega (arith, length-path)) a ha out
      ∙ store_all-Only code code-IsFrame msg 544 m₁ (omega (arith, length-msg)) a ha out
      ∙ rw here at (
          store_all-Only code code-IsFrame code_bytes 0 s.pmm.mem (omega (arith, length-code_bytes))
            a ha out)

  full_byte :
      (i : ℕ)
      → i < 4096
      → load8 full (code + i) ≡ (
          if leb 512 i && ltb i 523
          then u8 (get_or path (i - 512) 0)
          else if leb 544 i && ltb i 601
          then u8 (get_or msg (i - 544) 0)
          else if ltb i 116
          then u8 (get_or code_bytes i 0)
          else load8 s.pmm.mem (code + i))
  unfolding msg
  full_byte i hi =
      let start : i - 0 ≡ i = omega arith in
      let first : load8 m₁ (code + i)
          ≡ (if ltb i 116 then u8 (get_or code_bytes i 0) else load8 s.pmm.mem (code + i)) =
        let low : leb 0 i ≡ true = ground arith in
        let here : code + 0 ≡ code = omega arith in
        rw (start, here, low, length-code_bytes) at
          (store_all_byte code code-IsFrame code_bytes 0 i s.pmm.mem
            (omega (arith, length-code_bytes)) hi) in
      let second : load8 m₂ (code + i)
          ≡ (if leb 544 i && ltb i 601 then u8 (get_or msg (i - 544) 0) else load8 m₁ (code + i)) =
        rw length-msg at
          (store_all_byte code code-IsFrame msg 544 i m₁ (omega (arith, length-msg)) hi) in
      let third : load8 full (code + i)
          ≡ (if leb 512 i && ltb i 523 then u8 (get_or path (i - 512) 0) else load8 m₂ (code + i)) =
        rw length-path at
          (store_all_byte code code-IsFrame path 512 i m₂ (omega (arith, length-path)) hi) in
      third ∙ rw second (rw first refl)

  full-IsSmoke : IsSmoke (λ i. load8 full (code + i))
  full-IsSmoke = record {
    code = λ i hi. ground (arith, full_byte i (omega arith));
    path_text = λ i hi.
        let back : 512 + i - 512 ≡ i = omega arith in
        ground (arith, rw back at (full_byte (512 + i) (omega arith)));
    msg_text = λ i hi.
        let back : 544 + i - 544 ≡ i = omega arith in
        ground (arith, rw back at (full_byte (544 + i) (omega arith)));
  }

  smoke_page : pte_fetch_pd s.pmm.mem pd 0x8000_0000 ≡ some (code + 7)
  smoke_page = ready.fetch 0x8000_0000 (omega arith)

  enter_smoke-IsEntered :
      IsEntered ring0_stack pd IsSmoke u (enter_smoke ring0_stack pd code (with_machine u s))
  unfolding enter_smoke emit_user_phase3 switch_cr3
  enter_smoke-IsEntered =
      let frame = ready.space.directory.frame in
      let mask = bit_and_page_mask pd frame.in_memory in
      rw (enter_smoke, length-code_bytes)
        (record {
          user = _;
          enters = refl;
          loaded = record {
            code = code;
            stack = stack;
            cr3 = omega (arith, mask, frame);
            code_free = ready.code_free;
            stack_free = ready.stack_free;
            different = ready.different;
            text = full-IsSmoke;
            fetch = λ v hv.
                fetch-Only pd code s.pmm ready.space ready.code_own 0x8000_0000 refl (omega arith)
                  smoke_page full v full-Only hv
                ∙ ready.fetch v hv;
          };
          proc = refl;
          esp0 = refl;
        })

smoke_prepared-Loads :
    (ring0_stack pd : ℕ) (u : User) (p : Prepared)
    → Prepares pd u.proc.machine p
    → Loads ring0_stack pd IsSmoke u (smoke_prepared ring0_stack pd u p)
unfolding smoke_prepared
smoke_prepared-Loads ring0_stack pd u _ (lacks_frames s all same) =
    lacks (say (codes "[VerveOS] userspace smoke: pmm_alloc_frame failed\r\n") s) refl all
smoke_prepared-Loads ring0_stack pd u _ (lacks_tables s all same) =
    lacks (say (codes "[VerveOS] userspace smoke: paging_map_page failed\r\n") s) refl all
smoke_prepared-Loads ring0_stack pd u _ (is_ready code stack s ready) =
    enters (enter_smoke-IsEntered ring0_stack pd code stack u s ready)

pub data Smokes (at : Statics) (ring0_stack : ℕ) (u : User) : Exit → Type 0 where
  no_memory : (u' : User) → AllUsed u'.proc.machine.pmm → Smokes at ring0_stack u (returned u')
  runs :
      (u' : User)
      → IsRunning at ring0_stack IsSmoke u.proc.machine u'
      → Smokes at ring0_stack u (entered 0x8000_0000 0x8000_2000 u')

-- Where the kernel's directory is an address space with a sound allocator, the bring-up enters
-- process 1 at 0x80000000 with the stack at 0x80002000: its directory, text and stack are three
-- frames that were free, the text holds the code, at 512 the path and at 544 the message, and every
-- other page is mapped as the kernel's; or it returns, and no frame is left.
pub user_bringup_smoke-Smokes :
    (at : Statics) (ring0_stack : ℕ) (u : User)
    → IsSpace at.boot_pd u.proc.machine.pmm
    → Smokes at ring0_stack u (user_bringup_smoke at ring0_stack u)
unfolding user_bringup_smoke current_pd_phys init_singleton
user_bringup_smoke-Smokes at ring0_stack u h =
    let s =
      say (codes "[VerveOS] userspace: ramfs OPEN/READ + WRITE (clone PD + CR3)\r\n")
        u.proc.machine in
    elim (clone_kernel_pd-Clones at s h) [
      | no_frame e all ↦ rw e (no_memory _ all)
      | cloned_to pd after e nonzero free space fetch used count ↦
          let there : (pd == 0) ≡ false = ground arith in
          let u' = process pd (record s { pmm = after }) u in
          rw (e, there)
            (elim (smoke_prepared-Loads ring0_stack pd u' (prepare pd u'.proc.machine)
              (prepare-Prepares pd u'.proc.machine space)) [
                | enters e' ↦ rw e'.enters (
                    runs e'.user (
                      entered-IsRunning at ring0_stack IsSmoke u s.serial pd after nonzero free
                        fetch used _ e'))
                | lacks s' e' all ↦ rw e' (no_memory _ all)
              ])
    ]
