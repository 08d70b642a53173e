-- ===== src/User/Load.antt =====
-- `verve_exec_flat_run`: the program lies in its page, and is entered there.
use verve_os.Base.{
  false, ℕ, zero, suc, ◌+◌, ◌-◌, ◌/◌, ◌^◌, ◌≤◌, ◌<◌, ◌≡◌, ◌≢◌, refl, ◌∙◌, inl, inr, arith, ltb,
  ◌==◌, Bool-cases, if◌then◌else◌, some, List, [], ◌∷◌, length, get_or, u8, u32,
}
use verve_os.Base.Array.{codes}
use verve_os.Base.Bits.{bit_and_page_mask}
use verve_os.Base.Memory.{load8}
use verve_os.Pmm.{bm_get}
use verve_os.Paging.{Machine, pte_fetch_pd, switch_cr3, get_cr3}
use verve_os.Paging.Space.{IsSpace}
use verve_os.Proc.{current_pd_phys}
use verve_os.User.{User, Exit, returned, entered, with_machine, say, Prepared, prepare}
use verve_os.User.Exec.{
  text_loop, write_text, enter_text, enter_flat, load_pages, load_prepared, load_flat,
}
use verve_os.User.Pages.{
  Prepares, AllUsed, IsReady, lacks_frames, lacks_tables, is_ready, prepare-Prepares,
}
use verve_os.User.Store.{Writes, fetch-Only, bzero-Writes, copy_blob-Writes}

-- The bytes of a page are those of the file, and then zeros.
abbrev pub IsText : List ℕ → (ℕ → ℕ) → Type 0
IsText blob byte = (i : ℕ) → i < 4096 → byte i ≡ u8 (get_or blob i 0)

-- The text, with bytes as `holds` says, and the stack are in frames that were free before; the rest
-- of the map is that of `s`.
pub record IsLoaded (pd : ℕ) (holds : (ℕ → ℕ) → Type 0) (s s' : Machine) : Type 0 where
  pub code : ℕ
  pub stack : ℕ
  pub cr3 : s'.cr3 ≡ pd
  pub code_free : bm_get s.pmm (code / 4096) ≡ 0
  pub stack_free : bm_get s.pmm (stack / 4096) ≡ 0
  pub different : code ≢ stack
  pub text : holds (λ i. load8 s'.pmm.mem (code + i))
  pub fetch :
      (v : ℕ)
      → v < 2 ^ 32
      → pte_fetch_pd s'.pmm.mem pd v ≡ (
          if v / 4096 == 0x8_0001
          then some (stack + 7)
          else if v / 4096 == 0x8_0000
          then some (code + 7)
          else pte_fetch_pd s.pmm.mem pd v)

get_or-past : (bs : List ℕ) (i : ℕ) → length bs ≤ i → get_or bs i 0 ≡ 0
get_or-past [] i past = refl
get_or-past (b ∷ bs) zero past = absurd (omega arith)
get_or-past (b ∷ bs) (suc i) past = get_or-past bs i (omega arith)

-- The program is entered, at the start of its text and with the stack empty.
pub record IsEntered (ring0_stack pd : ℕ) (holds : (ℕ → ℕ) → Type 0) (u : User) (r : Exit)
    : Type 0 where
  pub user : User
  pub enters : r ≡ entered 0x8000_0000 0x8000_2000 user
  pub loaded : IsLoaded pd holds u.proc.machine user.proc.machine
  pub proc : user.proc ≡ record u.proc { machine = user.proc.machine }
  pub esp0 : user.esp0 ≡ u32 (ring0_stack + 2048)

module _ (ring0_stack pd code stack : ℕ) (blob : List ℕ) (u : User) (s : Machine)
    (ready : IsReady pd code stack u.proc.machine s) (some_bytes : 1 ≤ length blob)
    (one_page : length blob ≤ 4096) where
  text_page : pte_fetch_pd s.pmm.mem pd 0x8000_0000 ≡ some (code + 7)
  text_page = ready.fetch 0x8000_0000 (omega arith)

  abbrev switched : Machine
  switched = switch_cr3 pd s

  switched-cr3 : switched.cr3 ≡ pd
  unfolding switch_cr3
  switched-cr3 =
      let frame = ready.space.directory.frame in
      let mask = bit_and_page_mask pd frame.in_memory in omega (arith, mask, frame)

  switched-get : get_cr3 switched ≡ pd
  unfolding get_cr3
  switched-get =
      let frame = ready.space.directory.frame in
      let mask = bit_and_page_mask pd frame.in_memory in
      rw switched-cr3 (omega (arith, mask, frame))

  written : Writes code s.pmm.mem (λ i. u8 (get_or blob i 0)) (write_text 4096 blob pd s.pmm.mem)
  unfolding write_text
  written =
      let zeroed =
        bzero-Writes pd code s.pmm ready.space ready.code_own 0x8000_0000 refl (omega arith)
          text_page 4096 0 s.pmm.mem (λ a ha out. refl) (omega arith) in
      let copied =
        copy_blob-Writes pd code s.pmm ready.space ready.code_own 0x8000_0000 refl (omega arith)
          text_page blob 0 zeroed.after zeroed.only (omega arith) in
      rw (write_text, zeroed.returns)
        (record {
          after = copied.after;
          returns = copied.returns;
          only = λ a ha out. copied.only a ha out ∙ zeroed.only a ha out;
          bytes = λ i hi. elim (Bool-cases (ltb i (length blob))) [
            | inl inside ↦ ground (arith, copied.bytes i hi)
            | inr past ↦ ground (arith, copied.bytes i hi, zeroed.bytes i hi, get_or-past blob i)
          ];
        })

  enter_flat-IsEntered :
      IsEntered ring0_stack pd (IsText blob) u (enter_flat ring0_stack 1 blob pd (with_machine u s))
  unfolding enter_flat enter_text switch_cr3
  enter_flat-IsEntered =
      rw (enter_flat, switched-get, written.returns)
        (record {
          user = _;
          enters = refl;
          loaded = record {
            code = code;
            stack = stack;
            cr3 = switched-cr3;
            code_free = ready.code_free;
            stack_free = ready.stack_free;
            different = ready.different;
            text = written.bytes;
            fetch = λ v hv.
                fetch-Only pd code s.pmm ready.space ready.code_own 0x8000_0000 refl (omega arith)
                  text_page written.after v written.only hv
                ∙ ready.fetch v hv;
          };
          proc = refl;
          esp0 = refl;
        })

-- What the code does with a program: it is entered, or the code returns as no frame is left.
pub data Loads (ring0_stack pd : ℕ) (holds : (ℕ → ℕ) → Type 0) (u : User) (r : Exit) : Type 0 where
  enters : IsEntered ring0_stack pd holds u r → Loads ring0_stack pd holds u r
  lacks :
      (s : Machine)
      → r ≡ returned (with_machine u s)
      → AllUsed s.pmm
      → Loads ring0_stack pd holds u r

load_prepared-Loads :
    (ring0_stack pd : ℕ) (blob : List ℕ) (u : User)
    → 1 ≤ length blob
    → length blob ≤ 4096
    → (p : Prepared) → Prepares pd u.proc.machine p
    → Loads ring0_stack pd (IsText blob) u (load_prepared ring0_stack blob pd u p)
unfolding load_prepared load_pages text_loop
load_prepared-Loads ring0_stack pd blob u some_bytes one_page _ (lacks_frames s all same) =
    lacks (say (codes "[VerveOS] exec_flat: pmm_alloc_frame failed\r\n") s) refl all
load_prepared-Loads ring0_stack pd blob u some_bytes one_page _ (lacks_tables s all same) =
    lacks (say (codes "[VerveOS] exec_flat: paging_map_page failed\r\n") s) refl all
load_prepared-Loads ring0_stack pd blob u some_bytes one_page _ (is_ready code stack s ready) =
    let pages : u32 (length blob + 4096 - 1) / 4096 ≡ 1 = omega arith in
    rw (load_pages, pages)
      (enters (enter_flat-IsEntered ring0_stack pd code stack blob u s ready some_bytes one_page))

pub load_flat-Loads :
    (ring0_stack : ℕ) (blob : List ℕ) (u : User)
    → IsSpace u.proc.pd_phys u.proc.machine.pmm
    → u.proc.pd_phys ≢ 0
    → 1 ≤ length blob
    → length blob ≤ 4096
    → Loads ring0_stack u.proc.pd_phys (IsText blob) u (load_flat ring0_stack blob u)
unfolding load_flat current_pd_phys
load_flat-Loads ring0_stack blob u h nonzero some_bytes one_page =
    let there : (u.proc.pd_phys == 0) ≡ false = ground arith in
    rw there (
      load_prepared-Loads ring0_stack u.proc.pd_phys blob u some_bytes one_page
        (prepare u.proc.pd_phys u.proc.machine) (prepare-Prepares u.proc.pd_phys u.proc.machine h))
