-- ===== src/Proc/Loop.antt =====
-- The loop of `verve_proc_sys_brk`, and the whole call.
use verve_os.Base.{
  true, false, ℕ, zero, suc, ◌+◌, ◌*◌, ◌/◌, ◌%◌, ◌^◌, ◌≤◌, ◌<◌, ◌≡◌, ◌≢◌, refl, sym, ◌∙◌, ap, inl,
  inr, arith, ltb, ◌==◌, Bool, Bool-cases, if◌then◌else◌, Option, none, some, u32,
}
use verve_os.Pmm.{Pmm, bm_get, bm_set, alloc_frame, free_frame}
use verve_os.Pmm.Bitmap.{Within, Within-refl, Within-trans, bm_set-Within, bm_get-bm_set}
use verve_os.Pmm.Alloc.{
  exhausted, found, alloc_frame-Allocates, free_frame-Within, free_frame-alloc_frame,
}
use verve_os.Paging.{Machine, entry, pte_fetch_pd}
use verve_os.Paging.Space.{IsSpace}
use verve_os.Paging.Map.{mapped, out_of_frames, page_entry, map_page-Maps}
use verve_os.Proc.{brk_loop}
use verve_os.Proc.Space.{Within-IsSpace, Within-fetch, dir_words}
use verve_os.Proc.Break.{Grown, Round, Grown-Round, Grown-none}

-- No frame is free; or only the frame `f`, where the page at `va` has no table, so that it needs two.
pub data IsShort (pd va : ℕ) (m : Machine) : Type 0 where
  no_frame : ((q : ℕ) → 1 ≤ q → q < m.pmm.frame_count → bm_get m.pmm q ≡ 1) → IsShort pd va m
  no_table :
      (f : ℕ)
      → ((q : ℕ) → 1 ≤ q → q < m.pmm.frame_count → q ≢ f → bm_get m.pmm q ≡ 1)
      → (entry m.pmm.mem pd (va / 4194304) % 2 == 0) ≡ true
      → IsShort pd va m

-- The loop returns: with every page mapped, or where the frames ran out.
pub data Runs (pd va addr : ℕ) (s : Machine) (r : Option (Bool × Machine)) : Type 0 where
  finished : (s' : Machine) → r ≡ some (true, s') → Grown pd va addr s s' → Runs pd va addr s r
  stopped :
      (stop : ℕ) (s' : Machine)
      → r ≡ some (false, s')
      → va ≤ stop
      → stop < addr
      → stop % 4096 ≡ 0
      → Grown pd va stop s s'
      → IsShort pd stop s'
      → Runs pd va addr s r

Runs-Round :
    {pd va pfn addr : ℕ} {s s₁ : Machine} {r : Option (Bool × Machine)}
    → va % 4096 ≡ 0
    → va + 4096 ≤ addr
    → addr < 2 ^ 32
    → addr % 4096 ≡ 0
    → Round pd va pfn s s₁
    → Runs pd (va + 4096) addr s₁ r
    → Runs pd va addr s r
Runs-Round al room small ha step (finished s' e g) =
    finished s' e (Grown-Round al room small ha step g)
Runs-Round al room small ha step (stopped stop s' e lo hi hs g short) =
    stopped stop s' e (omega arith) hi hs (Grown-Round al lo (omega arith) hs step g) short

module _ (pd va pfn : ℕ) (s : Machine) (h : IsSpace pd s.pmm) (small : va < 2 ^ 32)
    (given : alloc_frame s.pmm ≡ (pfn * 4096, bm_set s.pmm pfn)) (lo : 1 ≤ pfn)
    (below : pfn < s.pmm.frame_count) (hp : pfn < 2 ^ 20) (free : bm_get s.pmm pfn ≡ 0) where
  abbrev taken : Machine
  taken = record s { pmm = bm_set s.pmm pfn }

  taken_used : (q : ℕ) → bm_get s.pmm q ≡ 1 → bm_get (bm_set s.pmm pfn) q ≡ 1
  taken_used q e = ground (arith, bm_get-bm_set s.pmm pfn q h.sound.valid)

  taken_free : (q : ℕ) → bm_get (bm_set s.pmm pfn) q ≡ 0 → bm_get s.pmm q ≡ 0
  taken_free q e = ground (arith, bm_get-bm_set s.pmm pfn q h.sound.valid)

  taken-Within : Within s.pmm (bm_set s.pmm pfn)
  taken-Within = bm_set-Within s.pmm pfn h.sound.valid

  taken-IsSpace : IsSpace pd (bm_set s.pmm pfn)
  taken-IsSpace = Within-IsSpace h taken-Within taken_used taken_free

  -- The page is mapped to the frame.
  Round-mapped :
      (after : Pmm)
      → ((q : ℕ) → bm_get (bm_set s.pmm pfn) q ≡ 1 → bm_get after q ≡ 1)
      → ((v : ℕ)
          → v < 2 ^ 32
          → pte_fetch_pd after.mem pd v ≡ (
              if v / 4096 == va / 4096
              then (if page_entry (pfn * 4096) 7 % 2 == 0
                  then none
                  else some (page_entry (pfn * 4096) 7))
              else pte_fetch_pd (bm_set s.pmm pfn).mem pd v))
      → Round pd va pfn s (record s { pmm = after })
  Round-mapped after used fetch =
      let pte : page_entry (pfn * 4096) 7 ≡ pfn * 4096 + 7 = omega arith in
      record {
        was_free = free;
        is_used = used pfn (ground (arith, bm_get-bm_set s.pmm pfn pfn h.sound.valid));
        fetch = λ v hv.
            ground (arith, fetch v, pte, Within-fetch h taken-Within taken_used taken_free v hv);
        used = λ q e. used q (taken_used q e);
        same = refl;
      }

  -- The frame goes back as no table could be made.
  Grown-undone : Grown pd va va s (record s { pmm = free_frame (pfn * 4096) (bm_set s.pmm pfn) })
  Grown-undone =
      Grown-none pd va s _ h
        (Within-trans taken-Within
          (free_frame-Within (pfn * 4096) (bm_set s.pmm pfn) taken-IsSpace.sound.valid))
        (λ q.
          rw given at
            (free_frame-alloc_frame s.pmm q h.sound.valid h.sound.high (rw given (omega arith))))

  -- Every other frame was in use, and the directory is as it was.
  undone-IsShort :
      ((q : ℕ) → 1 ≤ q → q < (bm_set s.pmm pfn).frame_count → bm_get (bm_set s.pmm pfn) q ≡ 1)
      → (entry (bm_set s.pmm pfn).mem pd (va / 4194304) % 2 == 0) ≡ true
      → IsShort pd va (record s { pmm = free_frame (pfn * 4096) (bm_set s.pmm pfn) })
  undone-IsShort all absent =
      let back = free_frame-Within (pfn * 4096) (bm_set s.pmm pfn) taken-IsSpace.sound.valid in
      let bits : (q : ℕ) → bm_get (free_frame (pfn * 4096) (bm_set s.pmm pfn)) q ≡ bm_get s.pmm q =
        λ q.
          rw given at
            (free_frame-alloc_frame s.pmm q h.sound.valid h.sound.high (rw given (omega arith))) in
      let whole = Within-trans taken-Within back in
      no_table pfn
        (λ q lo hi ne. ground (
          arith,
          bits q,
          all q lo (omega (arith, hi, back.frame_count)),
          bm_get-bm_set s.pmm pfn q h.sound.valid,
        ))
        (ap (λ (e : ℕ). e % 2 == 0)
            (dir_words h whole (λ q e. bits q ∙ e) (λ q e. sym (bits q) ∙ e) (va / 4194304)
                (omega arith)
              ∙ sym (dir_words h taken-Within taken_used taken_free (va / 4194304) (omega arith)))
          ∙ absent)

pub brk_loop-Runs :
    (fuel pd va addr : ℕ) (s : Machine)
    → IsSpace pd s.pmm
    → va % 4096 ≡ 0
    → addr % 4096 ≡ 0
    → va ≤ addr
    → addr < 2 ^ 32
    → addr < va + 4096 * fuel
    → Runs pd va addr s (brk_loop fuel pd va addr s)
unfolding brk_loop
brk_loop-Runs zero pd va addr s h al ha le small enough = absurd (omega arith)
brk_loop-Runs (suc fuel) pd va addr s h al ha le small enough = elim (Bool-cases (ltb va addr)) [
  | inr done ↦
      let end : addr ≡ va = ground (arith, done) in
      rw done
        (finished s refl (rw end (Grown-none pd va s s.pmm h (Within-refl s.pmm) (λ q. refl))))
  | inl more ↦
      let room : va + 4096 ≤ addr = ground (arith, more) in
      let next : u32 (va + 4096) ≡ va + 4096 = omega arith in
      elim (alloc_frame-Allocates s.pmm h.sound.high) [
        | exhausted e all ↦
            rw (more, e)
              (stopped va _ refl (omega arith) (omega arith) al
                (Grown-none pd va s s.pmm h (Within-refl s.pmm) (λ q. refl)) (no_frame all))
        | found pfn e lo below hp free before ↦
            let got : (pfn * 4096 == 0) ≡ false = ground arith in
            let space = taken-IsSpace pd va pfn s h (omega arith) e lo below hp free in
            elim (map_page-Maps pd va (pfn * 4096) 7 (record s { pmm = bm_set s.pmm pfn }) space
              (omega arith) (omega arith)) [
                | mapped after em sp kept used frames fetch dir own count ↦
                    rw (more, e, got, em, next)
                      (Runs-Round al room small ha
                        (Round-mapped pd va pfn s h (omega arith) e lo below hp free after used
                          fetch)
                        (brk_loop-Runs fuel pd (va + 4096) addr (record s { pmm = after }) sp
                          (omega arith) ha room small (omega arith)))
                | out_of_frames em all absent ↦
                    rw (more, e, got, em)
                      (stopped va _ refl (omega arith) (omega arith) al
                        (Grown-undone pd va pfn s h (omega arith) e lo below hp free)
                        (undone-IsShort pd va pfn s h (omega arith) e lo below hp free all absent))
              ]
      ]
]
