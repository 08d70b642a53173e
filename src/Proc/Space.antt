-- ===== src/Proc/Space.antt =====
-- Taking a frame, and giving it back, leave an address space as it is.
use verve_os.Base.{ℕ, ◌+◌, ◌*◌, ◌/◌, ◌%◌, ◌^◌, ◌<◌, ◌≡◌, arith}
use verve_os.Base.Memory.{load32-Agree}
use verve_os.Pmm.{Pmm, bm_get}
use verve_os.Pmm.Bitmap.{Within, Within-IsValid}
use verve_os.Paging.{entry, pte_fetch_pd}
use verve_os.Paging.Space.{table_of, IsPresent, IsTaken, IsSpace, pte_fetch_pd_lem}

module _ {pd : ℕ} {s t : Pmm} (h : IsSpace pd s) (w : Within s t)
    (used : (q : ℕ) → bm_get s q ≡ 1 → bm_get t q ≡ 1)
    (free : (q : ℕ) → bm_get t q ≡ 0 → bm_get s q ≡ 0) where
  Within-IsTaken : (u : ℕ) → IsTaken u s → IsTaken u t
  Within-IsTaken u k = record {
    frame = k.frame;
    used = used (u / 4096) k.used;
    clear = ground (arith, k.clear, w.bitmap, w.byte_len);
  }

  words : (u j : ℕ) → IsTaken u s → j < 1024 → entry t.mem u j ≡ entry s.mem u j
  words u j k hj =
      load32-Agree s.mem t.mem u (u + 4096)
        (λ a lo hi. w.outside a (omega (arith, k.frame)) (ground (arith, k.clear))) (u + 4 * j)
        (omega arith) (omega arith)

  pub dir_words : (j : ℕ) → j < 1024 → entry t.mem pd j ≡ entry s.mem pd j
  dir_words j hj = words pd j h.directory hj

  pub Within-IsSpace : IsSpace pd t
  Within-IsSpace = record {
    sound = record {
      valid = Within-IsValid w h.sound.valid;
      high = λ q k. used q (h.sound.high q k);
      free_clear = λ q k. ground (arith, h.sound.free_clear q (free q k), w.bitmap, w.byte_len);
    };
    directory = Within-IsTaken pd h.directory;
    tables =
        λ i hi p. rw (dir_words i hi) (Within-IsTaken _ (h.tables i hi (rw (dir_words i hi) at p)));
    below = λ i hi p. rw (dir_words i hi) (h.below i hi (rw (dir_words i hi) at p));
    distinct = λ i j hi hj ne p q.
        rw (dir_words i hi, dir_words j hj)
          (h.distinct i j hi hj ne (rw (dir_words i hi) at p) (rw (dir_words j hj) at q));
  }

  pub Within-fetch : (v : ℕ) → v < 2 ^ 32 → pte_fetch_pd t.mem pd v ≡ pte_fetch_pd s.mem pd v
  Within-fetch v hv = ground (
    arith,
    pte_fetch_pd_lem t.mem pd v,
    pte_fetch_pd_lem s.mem pd v,
    dir_words (v / 4194304) (omega arith),
    λ (p : IsPresent (entry s.mem pd (v / 4194304))).
        words (table_of s.mem pd (v / 4194304)) (v / 4096 % 1024)
          (h.tables (v / 4194304) (omega arith) p) (omega arith),
  )
