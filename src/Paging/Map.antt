-- ===== src/Paging/Map.antt =====
-- `paging_map_page` as a change of the map from pages to entries.
use verve_os.Base.{
  true, false, ℕ, ◌+◌, ◌*◌, ◌/◌, ◌%◌, ◌^◌, ◌≤◌, ◌<◌, ◌≡◌, ◌≢◌, refl, sym, ◌∙◌, ap, inl, inr, ◌⊎◌,
  arith, ◌==◌, Bool, Bool-cases, if◌then◌else◌, bit_and, bit_or, none, some,
}
use verve_os.Base.Bits.{
  bit_and_page_mask, bit_and_page_offset, bit_and-one, bit_and_table_index, bit_or_page, present_rw,
}
use verve_os.Base.Memory.{Agree, load32-lt, load32-Agree}
use verve_os.Pmm.{Pmm, bm_get}
use verve_os.Pmm.Bitmap.{bm_set-Within}
use verve_os.Pmm.Alloc.{exhausted, found, alloc_frame-Allocates}
use verve_os.Paging.{Machine, entry, pte_fetch_pd, map_page}
use verve_os.Paging.Space.{table_of, IsPresent, IsTaken, IsApart, IsSpace, pte_fetch_pd_lem}
use verve_os.Paging.Link.{Linked, Linked-present}
use verve_os.Paging.Fresh.{Linked-fresh, taken_other}

module _ {pd i k pte t : ℕ} {s s' : Pmm} (h : IsSpace pd s) (l : Linked pd i k pte t s s') where
  same_table : (j : ℕ) → j < 1024 → j ≢ i → table_of s'.mem pd j ≡ table_of s.mem pd j
  same_table j hj ne = ap (λ (e : ℕ). e / 4096 * 4096) (l.dirs j hj ne)

  was-IsPresent :
      (j : ℕ) → j < 1024 → j ≢ i → IsPresent (entry s'.mem pd j) → IsPresent (entry s.mem pd j)
  was-IsPresent j hj ne p = omega (arith, l.dirs j hj ne)

  table_cases : (j : ℕ) → (j ≡ i) ⊎ (j ≢ i)
  table_cases j = elim (Bool-cases (j == i)) [
    | inl e ↦ inl (ground arith)
    | inr e ↦ inr (ground arith)
  ]

  tables_now :
      (j : ℕ) → j < 1024 → IsPresent (entry s'.mem pd j) → IsTaken (table_of s'.mem pd j) s'
  tables_now j hj p = elim (table_cases j) [
    | inl e ↦ rw (e, l.points) l.taken
    | inr ne ↦ rw (same_table j hj ne) (l.kept _ (h.tables j hj (was-IsPresent j hj ne p)))
  ]

  below_now : (j : ℕ) → j < 1024 → IsPresent (entry s'.mem pd j) → table_of s'.mem pd j ≢ pd
  below_now j hj p = elim (table_cases j) [
    | inl e ↦ rw (e, l.points) l.apart
    | inr ne ↦ rw (same_table j hj ne) (h.below j hj (was-IsPresent j hj ne p))
  ]

  distinct_now :
      (j n : ℕ)
      → j < 1024
      → n < 1024
      → j ≢ n
      → IsPresent (entry s'.mem pd j)
      → IsPresent (entry s'.mem pd n)
      → table_of s'.mem pd j ≢ table_of s'.mem pd n
  distinct_now j n hj hn ne p q = elim (table_cases j) [
    | inl e ↦
        let other : n ≢ i = λ f. ne (e ∙ sym f) in
        rw (e, l.points, same_table n hn other)
          (λ f. l.old n hn other (was-IsPresent n hn other q) (sym f))
    | inr nj ↦ elim (table_cases n) [
      | inl e ↦ rw (e, l.points, same_table j hj nj) (l.old j hj nj (was-IsPresent j hj nj p))
      | inr nn ↦
          rw (same_table j hj nj, same_table n hn nn)
            (h.distinct j n hj hn ne (was-IsPresent j hj nj p) (was-IsPresent n hn nn q))
    ]
  ]

  pub Linked-IsSpace : IsSpace pd s'
  Linked-IsSpace = record {
    sound = l.sound;
    directory = l.kept pd h.directory;
    tables = tables_now;
    below = below_now;
    distinct = distinct_now;
  }

  -- The words of a table at another index.
  other_words :
      (j n : ℕ)
      → j < 1024
      → n < 1024
      → j ≢ i
      → IsPresent (entry s.mem pd j)
      → entry s'.mem (table_of s.mem pd j) n ≡ entry s.mem (table_of s.mem pd j) n
  other_words j n hj hn ne p =
      let u = table_of s.mem pd j in
      load32-Agree s.mem s'.mem u (u + 4096)
        (l.frames u (h.tables j hj p) (h.below j hj p) (l.old j hj ne p)) (u + 4 * n) (omega arith)
        (omega arith)

  pub fetch-Linked :
      (virt v : ℕ)
      → i ≡ virt / 4194304
      → k ≡ virt / 4096 % 1024
      → v < 2 ^ 32
      → pte_fetch_pd s'.mem pd v ≡ (
          if v / 4096 == virt / 4096
          then (if pte % 2 == 0 then none else some pte)
          else pte_fetch_pd s.mem pd v)
  fetch-Linked virt v ei ek hv =
      let j = v / 4194304 in
      let n = v / 4096 % 1024 in
      elim (table_cases j) [
        | inl e ↦ ground (
          arith,
          pte_fetch_pd_lem s'.mem pd v,
          pte_fetch_pd_lem s.mem pd v,
          ap (λ (x : ℕ). entry s'.mem pd x) e,
          ap (λ (x : ℕ). entry s.mem pd x) e,
          l.here,
          l.points,
          l.words n (omega arith),
        )
        | inr ne ↦ ground (
          arith,
          pte_fetch_pd_lem s'.mem pd v,
          pte_fetch_pd_lem s.mem pd v,
          l.dirs j (omega arith) ne,
          other_words j n (omega arith) (omega arith) ne,
        )
      ]

  -- A frame that is neither a table nor the new one is no table afterwards.
  pub now-IsApart : (u : ℕ) → IsApart pd u s.mem → u ≢ t → IsApart pd u s'.mem
  now-IsApart u away other j hj p = elim (table_cases j) [
    | inl e ↦ rw (e, l.points) (λ f. other (sym f))
    | inr ne ↦ rw (same_table j hj ne) (away j hj (was-IsPresent j hj ne p))
  ]

-- What a call of `paging_map_page` does.
pub data Maps (pd virt pte : ℕ) (s : Machine) (r : Bool × Machine) : Type 0 where
  mapped :
      (after : Pmm)
      → r ≡ (true, record s { pmm = after })
      → IsSpace pd after
      → ((u : ℕ) → IsTaken u s.pmm → IsTaken u after)
      → ((q : ℕ) → bm_get s.pmm q ≡ 1 → bm_get after q ≡ 1)
      → ((u : ℕ)
          → IsTaken u s.pmm
          → u ≢ pd
          → IsApart pd u s.pmm.mem
          → Agree s.pmm.mem after.mem u (u + 4096))
      → ((v : ℕ)
          → v < 2 ^ 32
          → pte_fetch_pd after.mem pd v ≡ (
              if v / 4096 == virt / 4096
              then (if pte % 2 == 0 then none else some pte)
              else pte_fetch_pd s.pmm.mem pd v))
      → ((entry s.pmm.mem pd (virt / 4194304) % 2 == 0) ≡ true
          → entry after.mem pd (virt / 4194304) % 4096 ≡ 3)
      → ((u : ℕ) → IsTaken u s.pmm → IsApart pd u s.pmm.mem → IsApart pd u after.mem)
      → after.frame_count ≡ s.pmm.frame_count
      → Maps pd virt pte s r
  out_of_frames :
      r ≡ (false, s)
      → ((q : ℕ) → 1 ≤ q → q < s.pmm.frame_count → bm_get s.pmm q ≡ 1)
      → (entry s.pmm.mem pd (virt / 4194304) % 2 == 0) ≡ true
      → Maps pd virt pte s r

-- The entry for a frame with flags.
abbrev pub page_entry : ℕ → ℕ → ℕ
page_entry phys flags = phys / 4096 * 4096 + flags % 4096

Linked-Maps :
    {pd pte t : ℕ} (virt : ℕ) (s : Machine) (after : Pmm)
    → IsSpace pd s.pmm
    → Linked pd (virt / 4194304) (virt / 4096 % 1024) pte t s.pmm after
    → ((u : ℕ) → IsTaken u s.pmm → IsApart pd u s.pmm.mem → u ≢ t)
    → virt < 2 ^ 32
    → after.frame_count ≡ s.pmm.frame_count
    → Maps pd virt pte s (true, record s { pmm = after })
Linked-Maps virt s after h l other hv count =
    mapped after refl (Linked-IsSpace h l) l.kept l.used
      (λ u k np nt. l.frames u k np (other u k nt)) (λ v hv. fetch-Linked h l virt v refl refl hv)
      (λ e. omega (arith, l.rights e, l.points)) (λ u k no. now-IsApart h l u no (other u k no))
      count

-- On an address space whose allocator is sound, `paging_map_page` gives the page of `virt` the new
-- entry, leaves all other pages and all other frames in use as they were, and keeps the address
-- space well formed; or it returns false and changes nothing, and no frame is free and the page has no table.
pub map_page-Maps :
    (pd virt phys flags : ℕ) (s : Machine)
    → IsSpace pd s.pmm
    → virt < 2 ^ 32
    → phys < 2 ^ 32
    → Maps pd virt (page_entry phys flags) s (map_page pd virt phys flags s)
unfolding map_page
map_page-Maps pd virt phys flags s h hv hp =
    let i = virt / 4194304 in
    let k = virt / 4096 % 1024 in
    let pde = entry s.pmm.mem pd i in
    let dir : bit_and pd 0xffff_f000 ≡ pd =
      bit_and_page_mask pd h.directory.frame.in_memory ∙ omega (arith, h.directory.frame) in
    let pte : bit_or (bit_and phys 0xffff_f000) (bit_and flags 0xfff) ≡ page_entry phys flags =
      rw (bit_and_page_mask phys hp, bit_and_page_offset flags)
        (bit_or_page (phys / 4096) (flags % 4096) (omega arith)) in
    let fits : page_entry phys flags < 2 ^ 32 = omega arith in
    let table = bit_and_page_mask pde (load32-lt s.pmm.mem (pd + 4 * i)) in
    elim (Bool-cases (pde % 2 == 0)) [
      | inl absent ↦ elim (alloc_frame-Allocates s.pmm h.sound.high) [
        | exhausted e all ↦ rw (dir, bit_and-one pde, absent, e) (out_of_frames refl all absent)
        | found pfn e lo below small free before ↦
            let frame : bit_and (pfn * 4096) 0xffff_f000 ≡ pfn * 4096 =
              bit_and_page_mask (pfn * 4096) (omega arith) ∙ omega arith in
            let given : (pfn * 4096 == 0) ≡ false = ground arith in
            rw
              (
                dir,
                bit_and-one pde,
                absent,
                e,
                given,
                pte,
                frame,
                present_rw pfn,
                bit_and_table_index (virt / 4096),
              )
              (Linked-Maps virt s _ h
                (Linked-fresh s.pmm pfn h.sound below small free pd i k (page_entry phys flags) h
                  (omega arith) (omega arith) fits absent)
                (λ u tk no. taken_other s.pmm pfn h.sound below small free u tk) hv
                (bm_set-Within s.pmm pfn h.sound.valid).frame_count)
      ]
      | inr there ↦
          rw (dir, bit_and-one pde, there, pte, table, bit_and_table_index (virt / 4096))
            (Linked-Maps virt s _ h
              (Linked-present s.pmm pd i k (page_entry phys flags) h (omega arith) (omega arith)
                fits (ground arith))
              (λ u tk no e. no i (omega arith) (ground arith) (sym e)) hv refl)
    ]
