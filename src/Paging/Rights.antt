-- ===== src/Paging/Rights.antt =====
-- The check of user ranges, and the rights in the directory.
use verve_os.Base.{
  true, false, ℕ, ◌+◌, ◌*◌, ◌/◌, ◌%◌, ◌^◌, ◌<◌, ◌≡◌, ◌∙◌, arith, ◌==◌, Bool, some, bit_and,
}
use verve_os.Base.Bits.{bit_and_flags}
use verve_os.Base.Memory.{Mem}
use verve_os.Paging.{Machine, entry, pte_fetch_pd, page_ok, map_page}
use verve_os.Paging.Space.{IsSpace}
use verve_os.Paging.Map.{mapped, out_of_frames, page_entry, map_page-Maps}

module _ (m : Mem) (pd virt phys : ℕ) where
  granted :
      (w : Bool) → pte_fetch_pd m pd virt ≡ some (page_entry phys 7) → page_ok m pd w virt ≡ true
  unfolding page_ok
  granted w e =
      let us = bit_and_flags (phys / 4096) 7 4 (omega arith) (omega arith) in
      let rw' = bit_and_flags (phys / 4096) 7 2 (omega arith) (omega arith) in
      rw (e, page_ok, us, rw') (ground arith)

  closed : (e : ℕ) → e % 4096 ≡ 3 → bit_and e 4 ≡ 0
  closed e h =
      let split : e ≡ e / 4096 * 4096 + 3 = omega arith in
      rw split (bit_and_flags (e / 4096) 3 4 (omega arith) (omega arith))

-- Where the directory has no entry yet, a page mapped with the rights of the user passes the check
-- of user ranges, but bit 2 of the new directory entry, by which the processor lets the user in, is 0.
pub map_page-user_right :
    (pd virt phys : ℕ) (for_write : Bool) (s : Machine)
    → IsSpace pd s.pmm
    → virt < 2 ^ 32
    → phys < 2 ^ 32
    → (entry s.pmm.mem pd (virt / 4194304) % 2 == 0) ≡ true
    → (map_page pd virt phys 7 s).0 ≡ true
    → let m = (map_page pd virt phys 7 s).1.pmm.mem in
      (page_ok m pd for_write virt ≡ true) × (bit_and (entry m pd (virt / 4194304)) 4 ≡ 0)
map_page-user_right pd virt phys w s h hv hp absent done =
    elim (map_page-Maps pd virt phys 7 s h hv hp) [
      | mapped after e space kept used frames fetch rights own count ↦
          let page : (virt / 4096 == virt / 4096) ≡ true = ground arith in
          let present : (page_entry phys 7 % 2 == 0) ≡ false = ground arith in
          rw e (
            granted after.mem pd virt phys w (fetch virt hv ∙ rw (page, present)),
            closed after.mem pd virt phys _ (rights absent),
          )
      | out_of_frames e all absent ↦ absurd (ground (arith, done, e))
    ]
