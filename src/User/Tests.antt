-- ===== src/User/Tests.antt =====
-- The two programs on a small machine, whose directory at 0x2000 is the kernel's.
use verve_os.Base.{refl, arith, ◌≡◌, [], ◌∷◌}
use verve_os.Base.Array.{codes}
use verve_os.Paging.Boot.{Statics}
use verve_os.Paging.Sample.{small_machine, small-IsSpace}
use verve_os.User.{User}
use verve_os.User.Exec.{exec_flat_run}
use verve_os.User.Run.{Runs, exec_flat_run-Runs}
use verve_os.User.Bringup.{phase3, user_bringup_smoke}
use verve_os.User.Decode.{decode, requests, request, phase3-requests}
use verve_os.User.Smoke.{Smokes, user_bringup_smoke-Smokes}

abbrev statics : Statics
statics = record { boot_pd = 0x2000; boot_pt = 0x10_0000; mmio_pts = 0x20_0000 }

abbrev before : User
before = record {
  proc = record { machine = small_machine; pid = 0; pd_phys = 0; brk = 0 };
  esp0 = 0;
}

exec_flat_run-Runs_example :
    Runs statics 0x30_0000
      (codes "/exit.bin")
      before
      (exec_flat_run statics 0x30_0000 (codes "/exit.bin") before)
exec_flat_run-Runs_example =
    exec_flat_run-Runs statics 0x30_0000 (codes "/exit.bin") before refl small-IsSpace

user_bringup_smoke-Smokes_example :
    Smokes statics 0x30_0000 before (user_bringup_smoke statics 0x30_0000 before)
user_bringup_smoke-Smokes_example = user_bringup_smoke-Smokes statics 0x30_0000 before small-IsSpace

phase3-requests_example :
    requests
      (decode 200 (phase3 0x8000_3000 0x8000_0200 0x8000_2000 0x8000_0220 57))
      (λ q. 0)
      (0x8000_3000 ∷ 3 ∷ 38 ∷ 38 ∷ 0 ∷ 57 ∷ 1 ∷ [])
    ≡ request 45 0x8000_3000 0 0
      ∷ request 5 0x8000_0200 0 0
      ∷ request 6 3 0x8000_2000 128
      ∷ request 1 1 0x8000_2000 38
      ∷ request 7 3 0x8000_2000 38
      ∷ request 1 1 0x8000_0220 57
      ∷ request 2 1 0x8000_0220 57
      ∷ request 3 0 0x8000_0220 57
      ∷ []
phase3-requests_example =
    phase3-requests 0x8000_3000 0x8000_0200 0x8000_2000 0x8000_0220 57 (λ q. 0) 0x8000_3000 3 38 38
      0 57 1 (omega arith) (omega arith) (omega arith) (omega arith) (omega arith)
