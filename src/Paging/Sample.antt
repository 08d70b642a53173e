-- ===== src/Paging/Sample.antt =====
-- A small machine: sixteen frames, of which the first three are in use. The bitmap is at address 64,
-- and an empty directory at 0x2000.
use verve_os.Base.{true, ℕ, zero, suc, ◌*◌, ◌<◌, ◌≡◌, refl, inr, arith, ◌==◌, if◌then◌else◌, []}
use verve_os.Base.Memory.{load8, load32}
use verve_os.Pmm.{Pmm, bm_get}
use verve_os.Paging.{Machine, entry}
use verve_os.Paging.Space.{IsClear, IsSpace}

abbrev pub small_pmm : Pmm
small_pmm = record {
  mem = λ a. if a == 64 then 7 else 0;
  bitmap = 64;
  bitmap_byte_len = 2;
  frame_count = 16;
}

abbrev pub small_machine : Machine
small_machine = record { pmm = small_pmm; cr3 = 0x2000; paging_on = true; serial = [] }

no_entry : (i : ℕ) → i < 1024 → entry small_pmm.mem 0x2000 i ≡ 0
unfolding load32 load8
no_entry i h = ground arith

free-IsClear : (q : ℕ) → bm_get small_pmm q ≡ 0 → IsClear (q * 4096) small_pmm
unfolding bm_get load8
free-IsClear zero e = absurd (omega arith)
free-IsClear (suc q) e = inr (omega arith)

pub small-IsSpace : IsSpace 0x2000 small_pmm
unfolding bm_get load8
small-IsSpace = record {
  sound = record { valid = omega arith; high = λ q h. ground arith; free_clear = free-IsClear };
  directory = record { frame = omega arith; used = refl; clear = inr (omega arith) };
  tables = λ i h p. absurd (omega (arith, no_entry i h));
  below = λ i h p. absurd (omega (arith, no_entry i h));
  distinct = λ i j hi hj ne p q. absurd (omega (arith, no_entry i hi));
}
