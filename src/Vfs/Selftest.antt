-- ===== src/Vfs/Selftest.antt =====
-- `verve_vfs_selftest`: open, read and close of the first file.
use verve_os.Base.{ℕ, ◌<◌, ◌≡◌, refl, ap, ◌∙◌, false, List, inl, inr, arith}
use verve_os.Base.Array.{codes}
use verve_os.Base.Int32.{is_negative}
use verve_os.Serial.{puts}
use verve_os.Vfs.{
  Vfs, hello_data, files, file_at, difference, strcmp_v, find_from, vfs_find, ufd_alloc,
}
use verve_os.Vfs.Read.{amount}
use verve_os.Vfs.Table.{Opens, opened_slot, opened-IsOpen, ufd_alloc_lem}
use verve_os.Vfs.Kernel.{open_k, read_k, read_k-IsReadK, selftest}

open_k-hello : (s : Vfs) → open_k (codes "/hello.txt") s ≡ ufd_alloc 0 s
unfolding open_k vfs_find find_from files strcmp_v difference
open_k-hello s = refl

hello_content : (file_at 0).content ≡ hello_data
unfolding file_at files
hello_content = refl

module _ (s : Vfs) (r : ℕ × Vfs) (o : Opens 0 s r) where
  succeeds : is_negative r.0 ≡ false
  succeeds = ground (arith, ap (λ (t : ℕ × Vfs). t.0) o.result, o.in_table)

  whole_buffer : amount 47 o.slot r.1 ≡ 39
  whole_buffer = rw (opened_slot o, hello_content)

  read_count : (read_k r.0 47 r.1).0 ≡ 39
  read_count =
      (read_k-IsReadK r.0 o.slot 47 r.1 (opened-IsOpen o) (omega arith)).count ∙ whole_buffer

  read_bytes : (read_k r.0 47 r.1).1 ≡ hello_data
  read_bytes =
      (read_k-IsReadK r.0 o.slot 47 r.1 (opened-IsOpen o) (omega arith)).bytes
      ∙ rw (whole_buffer, opened_slot o, hello_content)

-- While a descriptor is free, the self-test prints the first file.
pub selftest_lem :
    (s : Vfs) (out : List ℕ) (free : ℕ)
    → free < 12
    → (s.ufd free).used ≡ 0
    → (selftest s out).1 ≡ puts hello_data (puts (codes "[VerveOS] vfs selftest read: ") out)
unfolding selftest
selftest_lem s out free h unused = elim (ufd_alloc_lem 0 s) [
  | inl o ↦
      let r = ufd_alloc 0 s in
      rw (open_k-hello s, selftest, succeeds s r o, read_count s r o, read_bytes s r o)
  | inr full ↦ absurd (full.all_used free h unused)
]
