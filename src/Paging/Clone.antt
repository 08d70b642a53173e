-- ===== src/Paging/Clone.antt =====
-- `paging_clone_kernel_pd`: a directory with the entries of the kernel's.
use verve_os.Base.{
  true, false, ℕ, zero, suc, ◌+◌, ◌*◌, ◌/◌, ◌%◌, ◌^◌, ◌≤◌, ◌<◌, ◌≡◌, ◌≢◌, refl, sym, ◌∙◌, ap, arith,
  ltb, leb, ◌==◌, ◌&&◌, if◌then◌else◌,
}
use verve_os.Base.Memory.{Mem, Agree, load32-lt, load32-Agree}
use verve_os.Pmm.{Pmm, bm_get, bm_set}
use verve_os.Pmm.Bitmap.{bm_get-bm_set, bm_set-Within}
use verve_os.Pmm.Alloc.{exhausted, found, alloc_frame-Allocates}
use verve_os.Paging.{Machine, entry, set_entry, copy_entries, pte_fetch_pd}
use verve_os.Paging.Boot.{Statics, clone_kernel_pd}
use verve_os.Paging.Tables.{IsFrame, Only, entry-set_entry, set_entry-Only}
use verve_os.Paging.Space.{table_of, IsPresent, IsTaken, IsSpace, bm_get-Only, pte_fetch_pd_lem}
use verve_os.Paging.Link.{Only-IsTaken, Only-IsSound, frame_apart}
use verve_os.Paging.Fresh.{taken_kept, taken_new, bm_set-IsSound, taken_other, bm_set-Agree}

entry-copy_entries :
    (left i dst src : ℕ) (m : Mem) (u j : ℕ)
    → IsFrame dst
    → IsFrame src
    → dst ≢ src
    → IsFrame u
    → i + left ≤ 1024
    → j < 1024
    → entry (copy_entries left i dst src m) u j
      ≡ (if dst == u && leb i j && ltb j (i + left) then entry m src j else entry m u j)
unfolding copy_entries
entry-copy_entries zero i dst src m u j hd hs ne hu k hj = ground arith
entry-copy_entries (suc left) i dst src m u j hd hs ne hu k hj =
    let v = entry m src i in
    ground (
      arith,
      entry-copy_entries left (i + 1) dst src (set_entry dst i v m) u j hd hs ne hu (omega arith)
          hj,
      entry-set_entry m dst i v u j hd hu (omega arith) hj (load32-lt m (src + 4 * i)),
      entry-set_entry m dst i v src j hd hs (omega arith) hj (load32-lt m (src + 4 * i)),
    )

copy_entries-Only :
    (left i dst src : ℕ) (m : Mem)
    → IsFrame dst
    → i + left ≤ 1024
    → Only dst m (copy_entries left i dst src m)
unfolding copy_entries
copy_entries-Only zero i dst src m hd k a ha out = refl
copy_entries-Only (suc left) i dst src m hd k a ha out =
    copy_entries-Only left (i + 1) dst src (set_entry dst i (entry m src i) m) hd (omega arith) a ha
      out
    ∙ set_entry-Only m dst i (entry m src i) hd (omega arith) a ha out

-- A free frame becomes a copy of the directory.
module _ (boot pfn : ℕ) (s : Pmm) (h : IsSpace boot s) (below : pfn < s.frame_count)
    (small : pfn < 2 ^ 20) (free : bm_get s pfn ≡ 0) where
  abbrev t : ℕ
  t = pfn * 4096

  abbrev pub cloned : Pmm
  cloned = record (bm_set s pfn) { mem = copy_entries 1024 0 t boot (bm_set s pfn).mem }

  new-IsFrame : IsFrame t
  new-IsFrame = (taken_new s pfn h.sound below small free).frame

  apart : t ≢ boot
  apart e = taken_other s pfn h.sound below small free boot h.directory (sym e)

  same : Only t (bm_set s pfn).mem cloned.mem
  same = copy_entries-Only 1024 0 t boot (bm_set s pfn).mem new-IsFrame (omega arith)

  kept : (u : ℕ) → IsTaken u s → IsTaken u cloned
  kept u k =
      let s₁ = bm_set s pfn in
      Only-IsTaken s₁ t cloned.mem (bm_set-IsSound s pfn h.sound below small free)
        (taken_new s pfn h.sound below small free).clear same u
        (taken_kept s pfn h.sound below small free u k)

  dir_now : (j : ℕ) → j < 1024 → entry cloned.mem t j ≡ entry s.mem boot j
  dir_now j hj =
      let s₁ = bm_set s pfn in
      let self : (t == t) ≡ true = ground arith in
      let before : entry s₁.mem boot j ≡ entry s.mem boot j =
        load32-Agree s.mem s₁.mem boot (boot + 4096)
          (bm_set-Agree s pfn h.sound below small free boot h.directory) (boot + 4 * j)
          (omega arith) (omega arith) in
      ground (
        arith,
        before,
        entry-copy_entries 1024 0 t boot s₁.mem t j new-IsFrame h.directory.frame apart new-IsFrame
            (omega arith) hj,
      )

  frame_same : (u : ℕ) → IsTaken u s → Agree s.mem cloned.mem u (u + 4096)
  frame_same u k a lo hi =
      same a (omega (arith, k.frame)) (
        frame_apart u t a k.frame new-IsFrame (taken_other s pfn h.sound below small free u k) lo
          hi)
      ∙ bm_set-Agree s pfn h.sound below small free u k a lo hi

  table_now : (j : ℕ) → j < 1024 → table_of cloned.mem t j ≡ table_of s.mem boot j
  table_now j hj = ap (λ (e : ℕ). e / 4096 * 4096) (dir_now j hj)

  was-IsPresent :
      (j : ℕ) → j < 1024 → IsPresent (entry cloned.mem t j) → IsPresent (entry s.mem boot j)
  was-IsPresent j hj p = omega (arith, dir_now j hj)

  pub cloned-IsSpace : IsSpace t cloned
  cloned-IsSpace = record {
    sound =
        Only-IsSound (bm_set s pfn) t cloned.mem (bm_set-IsSound s pfn h.sound below small free)
          (taken_new s pfn h.sound below small free).clear same;
    directory =
        Only-IsTaken (bm_set s pfn) t cloned.mem (bm_set-IsSound s pfn h.sound below small free)
          (taken_new s pfn h.sound below small free).clear same t
          (taken_new s pfn h.sound below small free);
    tables = λ j hj p. rw (table_now j hj) (kept _ (h.tables j hj (was-IsPresent j hj p)));
    below = λ j hj p. rw (table_now j hj) (λ e.
        taken_other s pfn h.sound below small free _ (h.tables j hj (was-IsPresent j hj p)) e);
    distinct = λ i j hi hj ne p q.
        rw (table_now i hi, table_now j hj)
          (h.distinct i j hi hj ne (was-IsPresent i hi p) (was-IsPresent j hj q));
  }

  table_words :
      (j n : ℕ)
      → j < 1024
      → n < 1024
      → IsPresent (entry s.mem boot j)
      → entry cloned.mem (table_of s.mem boot j) n ≡ entry s.mem (table_of s.mem boot j) n
  table_words j n hj hn p =
      let u = table_of s.mem boot j in
      load32-Agree s.mem cloned.mem u (u + 4096) (frame_same u (h.tables j hj p)) (u + 4 * n)
        (omega arith) (omega arith)

  pub cloned-fetch : (v : ℕ) → v < 2 ^ 32 → pte_fetch_pd cloned.mem t v ≡ pte_fetch_pd s.mem boot v
  cloned-fetch v hv = ground (
    arith,
    pte_fetch_pd_lem cloned.mem t v,
    pte_fetch_pd_lem s.mem boot v,
    dir_now (v / 4194304) (omega arith),
    λ (p : IsPresent (entry s.mem boot (v / 4194304))).
        table_words (v / 4194304) (v / 4096 % 1024) (omega arith) (omega arith) p,
  )

  pub cloned-used : (q : ℕ) → bm_get cloned q ≡ (if pfn == q then 1 else bm_get s q)
  cloned-used q =
      bm_get-Only (bm_set s pfn) t cloned.mem q
        (bm_set-IsSound s pfn h.sound below small free).valid
        (taken_new s pfn h.sound below small free).clear same
      ∙ ground (arith, bm_get-bm_set s pfn q h.sound.valid)

-- What a call of `paging_clone_kernel_pd` does.
pub data Clones (boot : ℕ) (s : Machine) (r : ℕ × Machine) : Type 0 where
  cloned_to :
      (pd : ℕ) (after : Pmm)
      → r ≡ (pd, record s { pmm = after })
      → pd ≢ 0
      → bm_get s.pmm (pd / 4096) ≡ 0
      → IsSpace pd after
      → ((v : ℕ) → v < 2 ^ 32 → pte_fetch_pd after.mem pd v ≡ pte_fetch_pd s.pmm.mem boot v)
      → ((q : ℕ) → bm_get after q ≡ (if pd / 4096 == q then 1 else bm_get s.pmm q))
      → after.frame_count ≡ s.pmm.frame_count
      → Clones boot s r
  no_frame :
      r ≡ (0, s) → ((q : ℕ) → 1 ≤ q → q < s.pmm.frame_count → bm_get s.pmm q ≡ 1) → Clones boot s r

-- Where the kernel's directory is an address space with a sound allocator, `paging_clone_kernel_pd`
-- gives a free frame, which becomes an address space with the same map, and marks no other frame
-- used; or it returns 0 and changes nothing, and no frame is free.
pub clone_kernel_pd-Clones :
    (at : Statics) (s : Machine)
    → IsSpace at.boot_pd s.pmm
    → Clones at.boot_pd s (clone_kernel_pd at s)
unfolding clone_kernel_pd
clone_kernel_pd-Clones at s h = elim (alloc_frame-Allocates s.pmm h.sound.high) [
  | exhausted e all ↦ rw e (no_frame refl all)
  | found pfn e lo below small free before ↦
      let given : (pfn * 4096 == 0) ≡ false = ground arith in
      let page : pfn * 4096 / 4096 ≡ pfn = omega arith in
      rw (e, given)
        (cloned_to (pfn * 4096) (cloned at.boot_pd pfn s.pmm h below small free) refl (omega arith)
          (rw page free) (cloned-IsSpace at.boot_pd pfn s.pmm h below small free)
          (cloned-fetch at.boot_pd pfn s.pmm h below small free)
          (λ q. rw page (cloned-used at.boot_pd pfn s.pmm h below small free q))
          (bm_set-Within s.pmm pfn h.sound.valid).frame_count)
]
