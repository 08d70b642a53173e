-- ===== src/User/Run.antt =====
-- `verve_exec_flat_run` from the name of a file to the entry of its program.
use verve_os.Base.{
  true, false, ℕ, zero, suc, ◌/◌, ◌^◌, ◌≤◌, ◌<◌, ◌≡◌, ◌≢◌, refl, arith, ◌==◌, if◌then◌else◌, List,
  [], length,
}
use verve_os.Base.Int32.{minus, is_negative}
use verve_os.Pmm.{Pmm, bm_get}
use verve_os.Paging.{Machine, pte_fetch_pd}
use verve_os.Paging.Boot.{Statics}
use verve_os.Paging.Space.{IsSpace}
use verve_os.Paging.Clone.{cloned_to, no_frame, clone_kernel_pd-Clones}
use verve_os.Proc.{current_pd_phys, init_singleton, exec_reset_brk}
use verve_os.Serial.{until_nul}
use verve_os.User.{User, Exit, returned, entered, with_machine}
use verve_os.User.Exec.{load_flat, exec_flat_run}
use verve_os.User.Pages.{AllUsed}
use verve_os.User.Load.{IsText, enters, lacks, load_flat-Loads}
use verve_os.Vfs.{files, file_at, vfs_find, get_file_k}
use verve_os.Vfs.Files.{all_bytes}
use verve_os.Vfs.Find.{IsFound, found, missing, vfs_find-IsFound}
use verve_os.User.Running.{IsRunning, process, entered-IsRunning}

pub data Runs (at : Statics) (ring0_stack : ℕ) (path : List ℕ) (u : User) : Exit → Type 0 where
  no_such_file :
      (serial : List ℕ)
      → ((k : ℕ) → k < length files → until_nul path ≢ until_nul (file_at k).path)
      → Runs at ring0_stack path u
          (returned (with_machine u (record u.proc.machine { serial = serial })))
  no_memory : (u' : User) → AllUsed u'.proc.machine.pmm → Runs at ring0_stack path u (returned u')
  runs :
      (k : ℕ) (u' : User)
      → k < length files
      → until_nul path ≡ until_nul (file_at k).path
      → IsRunning at ring0_stack (IsText (file_at k).content) u.proc.machine u'
      → Runs at ring0_stack path u (entered 0x8000_0000 0x8000_2000 u')

fits_page : (k : ℕ) → k < length files → length (file_at k).content ≤ 4096
unfolding file_at files
fits_page zero h = omega arith
fits_page (suc zero) h = omega arith
fits_page (suc (suc k)) h = absurd (omega arith)

some_content : (k : ℕ) → k < length files → 1 ≤ length (file_at k).content
unfolding file_at files
some_content zero h = omega arith
some_content (suc zero) h = omega arith
some_content (suc (suc k)) h = absurd (omega arith)

two_files : length files ≡ 2
unfolding files
two_files = refl

-- `verve_exec_flat_run` from the clone on, for file `k`.
module _ (at : Statics) (ring0_stack k : ℕ) (path : List ℕ) (u : User) (serial : List ℕ)
    (file : k < length files) (name : until_nul path ≡ until_nul (file_at k).path)
    (clean : IsSpace at.boot_pd u.proc.machine.pmm) where
  abbrev blob : List ℕ
  blob = (file_at k).content

  abbrev loading : Machine
  loading = record u.proc.machine { serial = serial }

  no_directory-Runs :
      ((q : ℕ) → 1 ≤ q → q < u.proc.machine.pmm.frame_count → bm_get u.proc.machine.pmm q ≡ 1)
      → Runs at ring0_stack path u (load_flat ring0_stack blob (process 0 loading u))
  unfolding load_flat current_pd_phys
  no_directory-Runs all = no_memory _ all

  loaded-Runs :
      (pd : ℕ) (after : Pmm)
      → pd ≢ 0
      → bm_get u.proc.machine.pmm (pd / 4096) ≡ 0
      → IsSpace pd after
      → ((v : ℕ)
          → v < 2 ^ 32
          → pte_fetch_pd after.mem pd v ≡ pte_fetch_pd u.proc.machine.pmm.mem at.boot_pd v)
      → ((q : ℕ) → bm_get after q ≡ (if pd / 4096 == q then 1 else bm_get u.proc.machine.pmm q))
      → Runs at ring0_stack path u
          (load_flat ring0_stack blob (process pd (record loading { pmm = after }) u))
  loaded-Runs pd after nonzero pd_free space fetch used =
      elim (load_flat-Loads ring0_stack blob (process pd (record loading { pmm = after }) u) space
        nonzero (some_content k file) (fits_page k file)) [
          | enters e ↦ rw e.enters (
              runs k e.user file name (
                entered-IsRunning at ring0_stack (IsText blob) u serial pd after nonzero pd_free
                  fetch used _ e))
          | lacks s e all ↦ rw e (no_memory _ all)
        ]

  load_flat-Runs : Runs at ring0_stack path u (
      load_flat ring0_stack blob (record u {
        proc = exec_reset_brk (init_singleton at (record u.proc { machine = loading }));
      }))
  unfolding exec_reset_brk init_singleton
  load_flat-Runs = elim (clone_kernel_pd-Clones at loading clean) [
    | no_frame e all ↦ rw e (no_directory-Runs all)
    | cloned_to pd after e nonzero free space fetch used count ↦
        rw e (loaded-Runs pd after nonzero free space fetch used)
  ]

lookup_found :
    (path : List ℕ) (k i : ℕ)
    → k < length files
    → vfs_find path ≡ i
    → i ≡ k
    → get_file_k path ≡ (0, (file_at k).content)
unfolding get_file_k
lookup_found path k i h e at_k =
    let few = two_files in
    let here : is_negative k ≡ false = ground (arith, h, few) in rw (get_file_k, e, at_k, here) refl

lookup_missing : (path : List ℕ) → vfs_find path ≡ minus 1 → get_file_k path ≡ (minus 2, [])
unfolding get_file_k
lookup_missing path e = rw e refl

exec_found :
    (at : Statics) (ring0_stack i : ℕ) (path : List ℕ) (u : User)
    → IsSpace at.boot_pd u.proc.machine.pmm
    → vfs_find path ≡ i
    → IsFound path files 0 i
    → Runs at ring0_stack path u (exec_flat_run at ring0_stack path u)
unfolding exec_flat_run file_at
exec_found at ring0_stack i path u h e (found k below name first) =
    let given = lookup_found path k i below e (omega arith) in
    let full : (length (file_at k).content == 0) ≡ false = ground (arith, some_content k below) in
    rw (given, full) (load_flat-Runs at ring0_stack k path u _ below name h)
exec_found at ring0_stack i path u h e (missing all) =
    rw (lookup_missing path e) (no_such_file _ all)

-- A path of bytes where the kernel's directory is an address space with a sound allocator: no file
-- has the name and the call returns with nothing changed but the serial output; or no frame is left
-- and it returns; or a file has the name, and the processor goes to Ring 3 at 0x80000000 with the
-- stack at 0x80002000, in process 1. Its directory, its text and its stack are three frames that were
-- free, the text is the bytes of the file with zeros behind, and every other page is mapped as the kernel's.
pub exec_flat_run-Runs :
    (at : Statics) (ring0_stack : ℕ) (path : List ℕ) (u : User)
    → all_bytes path ≡ true
    → IsSpace at.boot_pd u.proc.machine.pmm
    → Runs at ring0_stack path u (exec_flat_run at ring0_stack path u)
exec_flat_run-Runs at ring0_stack path u text h =
    exec_found at ring0_stack (vfs_find path) path u h refl (vfs_find-IsFound path text)
