-- ===== src/Paging/Fresh.antt =====
-- `paging_map_page` where the table is new: a frame is allocated, cleared, and linked.
use verve_os.Base.{
  true, ℕ, ◌+◌, ◌*◌, ◌/◌, ◌%◌, ◌^◌, ◌<◌, ◌≡◌, ◌≢◌, sym, ◌∙◌, ap, arith, ◌==◌, ◌&&◌, if◌then◌else◌,
}
use verve_os.Base.Memory.{Mem, Agree, load32-Agree}
use verve_os.Pmm.{Pmm, bm_get, bm_set}
use verve_os.Pmm.Bitmap.{Within, Within-IsValid, bm_set-Within, bm_get-bm_set}
use verve_os.Paging.{entry, set_entry, zero_entries}
use verve_os.Paging.Tables.{
  IsFrame, Only, entry-set_entry, set_entry-Only, entry-zero_entries, zero_entries-Only,
}
use verve_os.Paging.Space.{table_of, IsTaken, IsSound, IsSpace, bm_get-Only}
use verve_os.Paging.Link.{Linked, Only-IsTaken, Only-IsSound, frame_apart}

-- A frame that was free is taken.
module _ (s : Pmm) (pfn : ℕ) (h : IsSound s) (below : pfn < s.frame_count) (small : pfn < 2 ^ 20)
    (free : bm_get s pfn ≡ 0) where
  within : Within s (bm_set s pfn)
  within = bm_set-Within s pfn h.valid

  pub taken_kept : (u : ℕ) → IsTaken u s → IsTaken u (bm_set s pfn)
  taken_kept u k = record {
    frame = k.frame;
    used = ground (arith, k.used, bm_get-bm_set s pfn (u / 4096) h.valid);
    clear = ground (arith, k.clear, within.bitmap, within.byte_len);
  }

  pub taken_new : IsTaken (pfn * 4096) (bm_set s pfn)
  taken_new =
      let page : pfn * 4096 / 4096 ≡ pfn = omega arith in
      record {
        frame = record { aligned = omega arith; in_memory = omega arith };
        used = rw page (ground (arith, bm_get-bm_set s pfn pfn h.valid));
        clear = ground (arith, h.free_clear pfn free, within.bitmap, within.byte_len);
      }

  pub bm_set-IsSound : IsSound (bm_set s pfn)
  bm_set-IsSound = record {
    valid = Within-IsValid within h.valid;
    high = λ q k. ground (arith, bm_get-bm_set s pfn q h.valid, h.high q);
    free_clear = λ q k.
        ground
          (arith, bm_get-bm_set s pfn q h.valid, h.free_clear q, within.bitmap, within.byte_len);
  }

  pub taken_other : (u : ℕ) → IsTaken u s → u ≢ pfn * 4096
  taken_other u k e =
      let page : u / 4096 ≡ pfn = omega arith in
      absurd (omega (arith, free, ap (bm_get s) page, k.used))

  pub bm_set-Agree : (u : ℕ) → IsTaken u s → Agree s.mem (bm_set s pfn).mem u (u + 4096)
  bm_set-Agree u k a lo hi = within.outside a (omega (arith, k.frame)) (ground (arith, k.clear))

  -- The three writes.
  module _ (pd i k pte : ℕ) (space : IsSpace pd s) (hi : i < 1024) (hk : k < 1024)
      (fits : pte < 2 ^ 32) where
    abbrev t : ℕ
    t = pfn * 4096

    abbrev cleared : Mem
    cleared = zero_entries 1024 0 t (bm_set s pfn).mem

    abbrev linked : Mem
    linked = set_entry pd i (t + 3) cleared

    abbrev pub new_tables : Pmm
    new_tables = record (bm_set s pfn) { mem = set_entry t k pte linked }

    words_now :
        (u j : ℕ)
        → IsFrame u
        → j < 1024
        → entry new_tables.mem u j ≡ (
            if t == u && k == j
            then pte
            else if pd == u && i == j
            then t + 3
            else if t == u
            then 0
            else entry (bm_set s pfn).mem u j)
    words_now u j hu hj =
        let ft = taken_new.frame in
        ground (
          arith,
          entry-set_entry linked t k pte u j ft hu hk hj fits,
          entry-set_entry cleared pd i (t + 3) u j space.directory.frame hu hi hj (omega arith),
          entry-zero_entries 1024 0 t (bm_set s pfn).mem u j ft hu (omega arith) hj,
        )

    dir-IsFrame : IsFrame pd
    dir-IsFrame = space.directory.frame

    apart : t ≢ pd
    apart e = taken_other pd space.directory (sym e)

    wipe : Only t (bm_set s pfn).mem cleared
    wipe = zero_entries-Only 1024 0 t (bm_set s pfn).mem taken_new.frame (omega arith)

    link : Only pd cleared linked
    link = set_entry-Only cleared pd i (t + 3) dir-IsFrame hi

    fill : Only t linked new_tables.mem
    fill = set_entry-Only linked t k pte taken_new.frame hk

    kept_now : (u : ℕ) → IsTaken u (bm_set s pfn) → IsTaken u new_tables
    kept_now u h₁ =
        let s₁ = bm_set s pfn in
        let s₂ : Pmm = record s₁ { mem = cleared } in
        let s₃ : Pmm = record s₁ { mem = linked } in
        let sound₂ = Only-IsSound s₁ t cleared bm_set-IsSound taken_new.clear wipe in
        let keep₂ = Only-IsTaken s₁ t cleared bm_set-IsSound taken_new.clear wipe in
        let dir₂ = keep₂ pd (taken_kept pd space.directory) in
        let sound₃ = Only-IsSound s₂ pd linked sound₂ dir₂.clear link in
        let keep₃ = Only-IsTaken s₂ pd linked sound₂ dir₂.clear link in
        Only-IsTaken s₃ t new_tables.mem sound₃ taken_new.clear fill u (keep₃ u (keep₂ u h₁))

    IsSound-now : IsSound new_tables
    IsSound-now =
        let s₁ = bm_set s pfn in
        let s₂ : Pmm = record s₁ { mem = cleared } in
        let s₃ : Pmm = record s₁ { mem = linked } in
        let sound₂ = Only-IsSound s₁ t cleared bm_set-IsSound taken_new.clear wipe in
        let keep₂ = Only-IsTaken s₁ t cleared bm_set-IsSound taken_new.clear wipe in
        let dir₂ = keep₂ pd (taken_kept pd space.directory) in
        let sound₃ = Only-IsSound s₂ pd linked sound₂ dir₂.clear link in
        Only-IsSound s₃ t new_tables.mem sound₃ taken_new.clear fill

    used_now : (q : ℕ) → bm_get s q ≡ 1 → bm_get new_tables q ≡ 1
    used_now q e =
        let s₁ = bm_set s pfn in
        let s₂ : Pmm = record s₁ { mem = cleared } in
        let s₃ : Pmm = record s₁ { mem = linked } in
        let sound₂ = Only-IsSound s₁ t cleared bm_set-IsSound taken_new.clear wipe in
        let keep₂ = Only-IsTaken s₁ t cleared bm_set-IsSound taken_new.clear wipe in
        let dir₂ = keep₂ pd (taken_kept pd space.directory) in
        let sound₃ = Only-IsSound s₂ pd linked sound₂ dir₂.clear link in
        bm_get-Only s₃ t new_tables.mem q sound₃.valid taken_new.clear fill
        ∙ bm_get-Only s₂ pd linked q sound₂.valid dir₂.clear link
        ∙ bm_get-Only s₁ t cleared q bm_set-IsSound.valid taken_new.clear wipe
        ∙ ground (arith, bm_get-bm_set s pfn q h.valid)

    frame_same : (u : ℕ) → IsTaken u s → u ≢ pd → u ≢ t → Agree s.mem new_tables.mem u (u + 4096)
    frame_same u h np nt a lo hi' =
        let small' : a < 2 ^ 32 = omega (arith, h.frame) in
        let out = frame_apart u t a h.frame taken_new.frame nt lo hi' in
        fill a small' out
        ∙ link a small' (frame_apart u pd a h.frame dir-IsFrame np lo hi')
        ∙ wipe a small' out
        ∙ bm_set-Agree u h a lo hi'

    dir_before : (j : ℕ) → j < 1024 → entry (bm_set s pfn).mem pd j ≡ entry s.mem pd j
    dir_before j hj =
        load32-Agree s.mem (bm_set s pfn).mem pd (pd + 4096) (bm_set-Agree pd space.directory)
          (pd + 4 * j) (omega arith) (omega arith)

    dir_now :
        (j : ℕ)
        → j < 1024
        → entry new_tables.mem pd j ≡ (if i == j then t + 3 else entry s.mem pd j)
    dir_now j hj = ground (arith, words_now pd j dir-IsFrame hj, apart, dir_before j hj)

    pub Linked-fresh : (entry s.mem pd i % 2 == 0) ≡ true → Linked pd i k pte t s new_tables
    Linked-fresh absent =
        let self : (i == i) ≡ true = ground arith in
        let now : entry new_tables.mem pd i ≡ t + 3 = dir_now i hi ∙ rw self in
        record {
          here = omega (arith, now);
          points = omega (arith, now);
          rights = λ e. now;
          dirs = λ j hj ne. ground (arith, dir_now j hj);
          apart = apart;
          old = λ j hj ne p. taken_other (table_of s.mem pd j) (space.tables j hj p);
          words = λ j hj. ground (arith, words_now t j taken_new.frame hj, apart);
          frames = frame_same;
          taken = kept_now t taken_new;
          kept = λ u h'. kept_now u (taken_kept u h');
          used = used_now;
          sound = IsSound-now;
        }
