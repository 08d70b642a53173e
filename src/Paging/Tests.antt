-- ===== src/Paging/Tests.antt =====
-- Paging at a concrete machine.
use verve_os.Base.{true, false, ◌≡◌, refl, inl, arith, ◌/◌, ◌%◌, ◌==◌, bit_and}
use verve_os.Pmm.{alloc_frame, alloc_from, bm_get}
use verve_os.Paging.Rights.{map_page-user_right}
use verve_os.Base.Memory.{load8, load32}
use verve_os.Paging.{entry, pte_fetch_pd, page_ok, get_cr3, map_page, user_range_ok}
use verve_os.Paging.Map.{Maps, page_entry, map_page-Maps}
use verve_os.Paging.Range.{Checks, user_range_ok_lem}
use verve_os.Paging.Sample.{small_pmm, small_machine, small-IsSpace}

map_page-Maps_example :
    Maps 0x2000 0x8000_1234
      (page_entry 0x5000 7)
      small_machine
      (map_page 0x2000 0x8000_1234 0x5000 7 small_machine)
map_page-Maps_example =
    map_page-Maps 0x2000 0x8000_1234 0x5000 7 small_machine small-IsSpace (omega arith)
      (omega arith)

user_range_ok_lem_example :
    Checks
      (page_ok small_pmm.mem (get_cr3 small_machine) true)
      0x8000_0ffe
      4
      (user_range_ok 0x8000_0ffe 4 true small_machine)
user_range_ok_lem_example =
    user_range_ok_lem 0x8000_0ffe 4 true small_machine (omega arith) (omega arith)
      (inl (omega arith))

nothing_mapped : page_ok small_pmm.mem (get_cr3 small_machine) true 0 ≡ false
unfolding page_ok get_cr3 pte_fetch_pd load32 load8
nothing_mapped = refl

first_page_done : (map_page 0x2000 0x8000_1000 0x5000 7 small_machine).0 ≡ true
unfolding map_page alloc_frame alloc_from bm_get load32 load8
first_page_done = refl

no_directory_entry : (entry small_pmm.mem 0x2000 (0x8000_1000 / 4194304) % 2 == 0) ≡ true
unfolding load32 load8
no_directory_entry = refl

map_page-user_right_example :
    let m = (map_page 0x2000 0x8000_1000 0x5000 7 small_machine).1.pmm.mem in
    (page_ok m 0x2000 true 0x8000_1000 ≡ true)
    × (bit_and (entry m 0x2000 (0x8000_1000 / 4194304)) 4 ≡ 0)
map_page-user_right_example =
    map_page-user_right 0x2000 0x8000_1000 0x5000 true small_machine small-IsSpace (omega arith)
      (omega arith) no_directory_entry first_page_done
