-- ===== src/User/Pages.antt =====
-- The frames of a program are its own, and its two pages are mapped to them.
use verve_os.Base.{
  false, ℕ, ◌+◌, ◌*◌, ◌/◌, ◌^◌, ◌≤◌, ◌<◌, ◌≡◌, ◌≢◌, refl, sym, ◌∙◌, ap, arith, ◌==◌, if◌then◌else◌,
  some,
}
use verve_os.Base.Memory.{load32-Agree}
use verve_os.Pmm.{Pmm, bm_get, bm_set}
use verve_os.Pmm.Bitmap.{bm_get-bm_set, bm_set-Within}
use verve_os.Pmm.Alloc.{exhausted, found, alloc_frame-Allocates}
use verve_os.Paging.{Machine, entry, pte_fetch_pd}
use verve_os.Paging.Space.{IsTaken, IsApart, IsSpace}
use verve_os.Paging.Fresh.{taken_kept, taken_new, taken_other, bm_set-Agree}
use verve_os.Paging.Map.{mapped, out_of_frames, map_page-Maps}
use verve_os.Proc.Space.{Within-IsSpace, Within-fetch}
use verve_os.User.{Prepared, no_frames, no_tables, prepared, map_both, prepare}

-- A frame in use that is neither the directory nor one of its tables.
pub record IsOwn (pd u : ℕ) (s : Pmm) : Type 0 where
  pub taken : IsTaken u s
  pub not_directory : u ≢ pd
  pub not_table : IsApart pd u s.mem

-- A free frame is taken.
module _ (pd pfn : ℕ) (s : Pmm) (h : IsSpace pd s) (below : pfn < s.frame_count)
    (small : pfn < 2 ^ 20) (free : bm_get s pfn ≡ 0) where
  taken_used : (q : ℕ) → bm_get s q ≡ 1 → bm_get (bm_set s pfn) q ≡ 1
  taken_used q e = ground (arith, bm_get-bm_set s pfn q h.sound.valid)

  taken_free : (q : ℕ) → bm_get (bm_set s pfn) q ≡ 0 → bm_get s q ≡ 0
  taken_free q e = ground (arith, bm_get-bm_set s pfn q h.sound.valid)

  set-IsSpace : IsSpace pd (bm_set s pfn)
  set-IsSpace = Within-IsSpace h (bm_set-Within s pfn h.sound.valid) taken_used taken_free

  set_fetch : (v : ℕ) → v < 2 ^ 32 → pte_fetch_pd (bm_set s pfn).mem pd v ≡ pte_fetch_pd s.mem pd v
  set_fetch v hv = Within-fetch h (bm_set-Within s pfn h.sound.valid) taken_used taken_free v hv

  dir_same : (j : ℕ) → j < 1024 → entry (bm_set s pfn).mem pd j ≡ entry s.mem pd j
  dir_same j hj =
      load32-Agree s.mem (bm_set s pfn).mem pd (pd + 4096)
        (bm_set-Agree s pfn h.sound below small free pd h.directory) (pd + 4 * j) (omega arith)
        (omega arith)

  set-IsApart : (u : ℕ) → IsApart pd u s.mem → IsApart pd u (bm_set s pfn).mem
  set-IsApart u away j hj p =
      let same = dir_same j hj in rw (same) (away j hj (omega (arith, same)))

  set-IsOwn : (u : ℕ) → IsOwn pd u s → IsOwn pd u (bm_set s pfn)
  set-IsOwn u own = record {
    taken = taken_kept s pfn h.sound below small free u own.taken;
    not_directory = own.not_directory;
    not_table = set-IsApart u own.not_table;
  }

  new-IsOwn : IsOwn pd (pfn * 4096) (bm_set s pfn)
  new-IsOwn = record {
    taken = taken_new s pfn h.sound below small free;
    not_directory = λ e. taken_other s pfn h.sound below small free pd h.directory (sym e);
    not_table =
        set-IsApart (pfn * 4096)
          (λ j hj p e. taken_other s pfn h.sound below small free _ (h.tables j hj p) e);
  }

-- No frame is free but frame 0.
abbrev pub AllUsed : Pmm → Type 0
AllUsed s = (q : ℕ) → 1 ≤ q → q < s.frame_count → bm_get s q ≡ 1

-- The text and the stack have frames of their own, which were free, and nothing else is mapped.
pub record IsReady (pd code stack : ℕ) (s s' : Machine) : Type 0 where
  pub space : IsSpace pd s'.pmm
  pub code_own : IsOwn pd code s'.pmm
  pub stack_own : IsOwn pd stack s'.pmm
  pub different : code ≢ stack
  pub code_free : bm_get s.pmm (code / 4096) ≡ 0
  pub stack_free : bm_get s.pmm (stack / 4096) ≡ 0
  pub fetch :
      (v : ℕ)
      → v < 2 ^ 32
      → pte_fetch_pd s'.pmm.mem pd v ≡ (
          if v / 4096 == 0x8_0001
          then some (stack + 7)
          else if v / 4096 == 0x8_0000
          then some (code + 7)
          else pte_fetch_pd s.pmm.mem pd v)
  pub used : (q : ℕ) → bm_get s.pmm q ≡ 1 → bm_get s'.pmm q ≡ 1
  pub same : s' ≡ record s { pmm = s'.pmm }

pub data Prepares (pd : ℕ) (s : Machine) : Prepared → Type 0 where
  lacks_frames :
      (s' : Machine)
      → AllUsed s'.pmm
      → s' ≡ record s { pmm = s'.pmm }
      → Prepares pd s (no_frames s')
  lacks_tables :
      (s' : Machine)
      → AllUsed s'.pmm
      → s' ≡ record s { pmm = s'.pmm }
      → Prepares pd s (no_tables s')
  is_ready :
      (code stack : ℕ) (s' : Machine)
      → IsReady pd code stack s s'
      → Prepares pd s (prepared code stack s')

module _ (pd c k : ℕ) (s t : Machine) (h : IsSpace pd t.pmm) (own_c : IsOwn pd (c * 4096) t.pmm)
    (own_k : IsOwn pd (k * 4096) t.pmm) (ne : c ≢ k) (free_c : bm_get s.pmm c ≡ 0)
    (free_k : bm_get s.pmm k ≡ 0)
    (same_map : (v : ℕ) → v < 2 ^ 32 → pte_fetch_pd t.pmm.mem pd v ≡ pte_fetch_pd s.pmm.mem pd v)
    (used : (q : ℕ) → bm_get s.pmm q ≡ 1 → bm_get t.pmm q ≡ 1)
    (same : t ≡ record s { pmm = t.pmm }) where
  both-Prepares : Prepares pd s (map_both pd (c * 4096) (k * 4096) t)
  unfolding map_both
  both-Prepares =
      let c_lt : c * 4096 < 2 ^ 32 = own_c.taken.frame.in_memory in
      let k_lt : k * 4096 < 2 ^ 32 = own_k.taken.frame.in_memory in
      let page_c : c * 4096 / 4096 ≡ c = omega arith in
      let page_k : k * 4096 / 4096 ≡ k = omega arith in
      elim (map_page-Maps pd 0x8000_0000 (c * 4096) 7 t h (omega arith) c_lt) [
        | out_of_frames e all absent ↦ rw e (lacks_tables t all same)
        | mapped m₁ e₁ h₁ kept₁ used₁ frames₁ fetch₁ dir₁ own₁ count₁ ↦
            let s₁ : Machine = record t { pmm = m₁ } in
            elim (map_page-Maps pd 0x8000_1000 (k * 4096) 7 s₁ h₁ (omega arith) k_lt) [
              | out_of_frames e all absent ↦
                  rw (e₁, e)
                    (lacks_tables s₁ all (ap (λ (x : Machine). record x { pmm = m₁ }) same))
              | mapped m₂ e₂ h₂ kept₂ used₂ frames₂ fetch₂ dir₂ own₂ count₂ ↦
                  rw (e₁, e₂)
                    (is_ready (c * 4096) (k * 4096) _ (record {
                      space = h₂;
                      code_own = record {
                        taken = kept₂ _ (kept₁ _ own_c.taken);
                        not_directory = own_c.not_directory;
                        not_table =
                            own₂ _ (kept₁ _ own_c.taken) (own₁ _ own_c.taken own_c.not_table);
                      };
                      stack_own = record {
                        taken = kept₂ _ (kept₁ _ own_k.taken);
                        not_directory = own_k.not_directory;
                        not_table =
                            own₂ _ (kept₁ _ own_k.taken) (own₁ _ own_k.taken own_k.not_table);
                      };
                      different = λ e. ne (omega (arith, e));
                      code_free = rw page_c free_c;
                      stack_free = rw page_k free_k;
                      fetch = λ v hv. ground (arith, fetch₂ v hv, fetch₁ v hv, same_map v hv);
                      used = λ q e. used₂ q (used₁ q (used q e));
                      same = ap (λ (x : Machine). record x { pmm = m₂ }) same;
                    }))
            ]
      ]

-- `prepare` on an address space: the two pages get frames that were free, or no frame is left.
pub prepare-Prepares : (pd : ℕ) (s : Machine) → IsSpace pd s.pmm → Prepares pd s (prepare pd s)
unfolding prepare
prepare-Prepares pd s h = elim (alloc_frame-Allocates s.pmm h.sound.high) [
  | exhausted e all ↦ rw (e, e) (lacks_frames s all refl)
  | found c e lo below small free before ↦
      let p₁ = bm_set s.pmm c in
      let h₁ = set-IsSpace pd c s.pmm h below small free in
      let own_c = new-IsOwn pd c s.pmm h below small free in
      let given : (c * 4096 == 0) ≡ false = ground arith in
      elim (alloc_frame-Allocates p₁ h₁.sound.high) [
        | exhausted e' all ↦ rw (e, e', given) (lacks_frames (record s { pmm = p₁ }) all refl)
        | found k e' lo' below' small' free' before' ↦
            let given' : (k * 4096 == 0) ≡ false = ground arith in
            let bit = bm_get-bm_set s.pmm c k h.sound.valid in
            rw (e, e', given, given')
              (both-Prepares pd c k s (record s { pmm = bm_set p₁ k })
                (set-IsSpace pd k p₁ h₁ below' small' free')
                (set-IsOwn pd k p₁ h₁ below' small' free' (c * 4096) own_c)
                (new-IsOwn pd k p₁ h₁ below' small' free') (λ e. ground arith) free (ground arith)
                (λ v hv.
                  set_fetch pd k p₁ h₁ below' small' free' v hv
                  ∙ set_fetch pd c s.pmm h below small free v hv)
                (λ q e.
                  taken_used pd k p₁ h₁ below' small' free' q
                    (taken_used pd c s.pmm h below small free q e))
                refl)
      ]
]
