-- ===== src/Vfs/Tests.antt =====
-- A program that opens `/exit.bin` while descriptor 3 is in use, and reads it in three parts.
use verve_os.Base.{
  ℕ, ◌+◌, ◌-◌, ◌≡◌, ◌≢◌, ◌<◌, refl, ap, Bool, true, Option, some, List, [], ◌∷◌, ◌⊎◌, inl, inr,
  arith, if◌then◌else◌, ltb, ◌&&◌, leb, get_or, suc, zero, length,
}
use verve_os.Base.Array.{codes}
use verve_os.Base.Int32.{minus}
use verve_os.Base.Memory.{Mem, load8}
use verve_os.Serial.{until_nul}
use verve_os.Mboot2.Queries.{load_bytes}
use verve_os.Vfs.{
  Vfs, files, file_at, difference, strcmp_v, find_from, vfs_find, alloc_from, ufd_alloc, open_u,
  read_u,
}
use verve_os.Vfs.Read.{Gives, IsOpen}
use verve_os.Vfs.Stream.{Streamed, read_all, read_all-Streamed}
use verve_os.Vfs.Table.{Opens, IsFull, ufd_alloc_lem}
use verve_os.Vfs.Kernel.{read_k, read_k-read_u}
use verve_os.Vfs.Open.{IsPathReadable, string_at, open_and_read, open_u_missing, open_u-read_all}

abbrev anywhere : ℕ → ℕ → Bool → Option Bool
anywhere va len write = some true

-- The path lies at 0x1000.
abbrev sample_mem : Mem
sample_mem a = if leb 0x1000 a && ltb a 0x1009 then get_or (codes "/exit.bin") (a - 0x1000) 0 else 0

abbrev sample : Vfs
sample = record {
  ufd = λ j. record { used = if ltb j 1 then 1 else 0; vfidx = 0; pos = 30 };
  mem = sample_mem;
}

named_exit : string_at sample_mem 0x1000 95 ≡ until_nul (file_at 1).path
unfolding until_nul load_bytes load8 file_at files
named_exit = refl

exit_length : length (file_at 1).content ≡ 9
unfolding file_at files
exit_length = refl

-- The user's pages are the first five.
abbrev low_pages : ℕ → ℕ → Bool → Option Bool
low_pages va len write = some (leb (va + len) 0x5000)

exit_path : IsPathReadable low_pages 95 0x1000 sample_mem
unfolding load8
exit_path = (
  refl,
  inr (
    refl,
    inr (
      refl,
      inr (refl, inr (refl, inr (refl, inr (refl, inr (refl, inr (refl, inr (refl, inl refl))))))),
    ),
  ),
)

rest_path : IsPathReadable low_pages 95 0x1001 sample_mem
unfolding load8
rest_path = (
  refl,
  inr (
    refl,
    inr (refl, inr (refl, inr (refl, inr (refl, inr (refl, inr (refl, inr (refl, inl refl))))))),
  ),
)

open_u-read_all_example :
    (s' : Vfs) × (open_and_read low_pages 0x1000 0x2000 (4 ∷ 0 ∷ 7 ∷ []) sample
      ≡ some ((file_at 1).content, s'))
open_u-read_all_example =
    open_u-read_all low_pages 0x1000 0x2000 1 (4 ∷ 0 ∷ 7 ∷ []) sample exit_path
      (λ len h. ground arith) (omega arith) (omega arith) named_exit 1 (omega arith) refl
      (omega (arith, exit_length))

sample-IsOpen : IsOpen 3 0 sample
sample-IsOpen = record { number = refl; in_table = omega arith; in_use = omega arith }

read_all-Streamed_example :
    Gives (Streamed (4 ∷ 5000 ∷ []) 0 sample) (read_all anywhere 3 0x2000 (4 ∷ 5000 ∷ []) sample)
read_all-Streamed_example =
    read_all-Streamed anywhere 3 0 0x2000 (4 ∷ 5000 ∷ []) sample sample-IsOpen (omega arith)
      (λ len h. refl)

unnamed : (ix : ℕ) → ix < 2 → string_at sample_mem 0x1001 95 ≢ until_nul (file_at ix).path
unfolding until_nul load_bytes load8 file_at files
unnamed zero h e = absurd (omega (arith, ap (λ (l : List ℕ). get_or l 0 0) e))
unnamed (suc zero) h e = absurd (omega (arith, ap (λ (l : List ℕ). get_or l 0 0) e))
unnamed (suc (suc ix)) h e = absurd (omega arith)

open_u_missing_example : open_u low_pages 0x1001 sample ≡ some (minus 2, sample)
open_u_missing_example = open_u_missing low_pages 0x1001 sample rest_path unnamed

ufd_alloc_lem_example : Opens 1 sample (ufd_alloc 1 sample) ⊎ IsFull sample (ufd_alloc 1 sample)
ufd_alloc_lem_example = ufd_alloc_lem 1 sample

sample-Opens : Opens 1 sample (ufd_alloc 1 sample)
unfolding ufd_alloc alloc_from
sample-Opens = record {
  slot = 1;
  in_table = omega arith;
  was_free = refl;
  lowest = λ j h. ground arith;
  result = refl;
}

find_missing : vfs_find (codes "/exit") ≡ minus 1
unfolding vfs_find find_from files strcmp_v difference
find_missing = refl

read_k-read_u_example :
    let k = read_k 3 4 sample in
    (u : ℕ × Vfs) × (read_u anywhere 3 0x2000 4 sample ≡ some u)
    × (k.0 ≡ u.0)
    × (k.1 ≡ load_bytes u.1.mem 0x2000 u.0)
    × ((j : ℕ) → k.2.ufd j ≡ u.1.ufd j)
read_k-read_u_example =
    read_k-read_u anywhere 3 0 0x2000 4 sample sample-IsOpen (omega arith) (omega arith) refl
