-- ===== src/Smp/Mail.antt =====
-- The mailbox lies in a frame of its own, outside the bitmap of the allocator.
use verve_os.Base.{ℕ, ◌^◌, ◌≤◌, ◌<◌, ◌≡◌, refl, ◌∙◌, arith}
use verve_os.Pmm.{Pmm, bm_get, bm_set}
use verve_os.Pmm.Bitmap.{IsValid, Within-IsValid, bm_get-bm_set, bm_set-Within}
use verve_os.Paging.Space.{IsClear, bm_get-Only}
use verve_os.Paging.Tables.{set_entry-Only}
use verve_os.Smp.{Smp, mail_store}

-- The allocator can be used while words are stored in the mailbox.
pub record IsMailed (s : Pmm) : Type 0 where
  pub valid : IsValid s
  pub high : (q : ℕ) → 2 ^ 20 ≤ q → bm_get s q ≡ 1
  pub clear : IsClear 0x9000 s

-- The same frames are in use, of as many.
pub record SameFrames (s t : Pmm) : Type 0 where
  pub used : (q : ℕ) → bm_get t q ≡ bm_get s q
  pub mailed : IsMailed t
  pub count : t.frame_count ≡ s.frame_count

pub mail_store-SameFrames :
    (i v : ℕ) (s : Smp)
    → i < 3
    → IsMailed s.machine.pmm
    → SameFrames s.machine.pmm (mail_store i v s).machine.pmm
unfolding mail_store
mail_store-SameFrames i v s hi h =
    let only =
      set_entry-Only s.machine.pmm.mem 0x9000 i v
        (record { aligned = refl; in_memory = omega arith }) (omega arith) in
    let used = λ (q : ℕ). bm_get-Only s.machine.pmm 0x9000 _ q h.valid h.clear only in
    record {
      used = used;
      mailed = record {
        valid = record { covers = h.valid.covers; in_memory = h.valid.in_memory };
        high = λ q k. used q ∙ h.high q k;
        clear = h.clear;
      };
      count = refl;
    }

pub bm_set-IsMailed : (s : Pmm) (p : ℕ) → IsMailed s → IsMailed (bm_set s p)
bm_set-IsMailed s p h =
    let same = bm_set-Within s p h.valid in
    record {
      valid = Within-IsValid same h.valid;
      high = λ q k. ground (arith, bm_get-bm_set s p q h.valid, h.high q k);
      clear = ground (arith, same.bitmap, same.byte_len, h.clear);
    }
