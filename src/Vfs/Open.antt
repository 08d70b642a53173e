-- ===== src/Vfs/Open.antt =====
-- Opening a file by its name, up to reading the whole of it.
use verve_os.Base.{
  ℕ, zero, suc, ◌+◌, ◌^◌, ◌<◌, ◌≤◌, ◌≡◌, ◌≢◌, refl, ap, sym, ◌∙◌, Bool, true, false, Option, none,
  some, List, [], ◌∷◌, Bool-cases, inl, inr, arith, ◌==◌, ◌⊎◌, length, get_or, u32, u8,
}
use verve_os.Base.Int32.{minus, is_negative}
use verve_os.Base.Memory.{Mem, load8, load8-lt}
use verve_os.Serial.{until_nul}
use verve_os.Mboot2.Queries.{load_bytes}
use verve_os.Vfs.{Vfs, files, file_at, copy_path, copy_user_path, vfs_find, open_path, open_u}
use verve_os.Vfs.Files.{all_bytes, slice_all}
use verve_os.Vfs.Find.{IsFound, found, missing, vfs_find-IsFound}
use verve_os.Vfs.Read.{Gives, some-Gives}
use verve_os.Vfs.Stream.{Streamed, read_all, asked, remaining, read_all-Streamed}
use verve_os.Vfs.Table.{Opens, IsFull, opened_slot, opened-IsOpen, ufd_alloc_lem}

-- The C string at `va`, cut off after `n` bytes.
abbrev pub string_at : Mem → ℕ → ℕ → List ℕ
string_at m va n = until_nul (load_bytes m va n)

all_bytes-string_at : (m : Mem) (va n : ℕ) → all_bytes (string_at m va n) ≡ true
unfolding until_nul load_bytes
all_bytes-string_at m va zero = refl
all_bytes-string_at m va (suc n) =
    ground (arith, load8-lt m va, all_bytes-string_at m (u32 (va + 1)) n)

until_nul_twice : (xs : List ℕ) → until_nul (until_nul xs) ≡ until_nul xs
unfolding until_nul
until_nul_twice [] = refl
until_nul_twice (x ∷ xs) = elim (Bool-cases (x == 0)) [
  | inl end ↦ rw end
  | inr go ↦ rw (go, until_nul, go) (ap (λ (l : List ℕ). x ∷ l) (until_nul_twice xs))
]

names_differ :
    (i j : ℕ) → i < 2 → j < 2 → until_nul (file_at i).path ≡ until_nul (file_at j).path → i ≡ j
unfolding until_nul file_at files
names_differ zero zero hi hj e = refl
names_differ zero (suc zero) hi hj e = absurd (omega (arith, ap (λ (l : List ℕ). get_or l 1 0) e))
names_differ (suc zero) zero hi hj e = absurd (omega (arith, ap (λ (l : List ℕ). get_or l 1 0) e))
names_differ (suc zero) (suc zero) hi hj e = refl
names_differ (suc (suc i)) j hi hj e = absurd (omega arith)
names_differ i (suc (suc j)) hi hj e = absurd (omega arith)

same_file :
    (path : List ℕ) (ix r : ℕ)
    → ix < 2
    → until_nul path ≡ until_nul (file_at ix).path
    → IsFound path files 0 r
    → r ≡ ix
unfolding file_at files
same_file path ix r two e (found k h at first) =
    let index : 0 + k ≡ k = omega arith in index ∙ names_differ k ix h two (sym at ∙ e)
same_file path ix r two e (missing all) = absurd (all ix two e)

no_such_file :
    (path : List ℕ) (r : ℕ)
    → ((ix : ℕ) → ix < 2 → until_nul path ≢ until_nul (file_at ix).path)
    → IsFound path files 0 r
    → r ≡ minus 1
unfolding file_at files
no_such_file path r none_named (found k h at first) = absurd (none_named k h at)
no_such_file path r none_named (missing all) = refl

-- From a descriptor that was just opened, enough reads give all.
whole_file :
    (ix : ℕ) (lens : List ℕ) (s : Vfs) (r : ℕ × Vfs) {reads : List ℕ × Vfs}
    → (o : Opens ix s r) → length (file_at ix).content ≤ asked lens
    → Streamed lens o.slot r.1 reads
    → reads.0 ≡ (file_at ix).content
whole_file ix lens s r o enough h =
    let fresh = opened_slot o in
    let content = (file_at ix).content in
    let left : remaining o.slot r.1 ≡ length content = rw fresh (omega arith) in
    let count : h.count ≡ length content = omega (arith, h.count_min, left) in
    h.bytes ∙ rw (fresh, count) (slice_all content)

-- A program that opens a file and reads from the descriptor that it got.
unfoldable pub open_and_read :
    (ℕ → ℕ → Bool → Option Bool) → ℕ → ℕ → List ℕ → Vfs → Option (List ℕ × Vfs)
open_and_read range_ok path_va buf_va lens s = elim (open_u range_ok path_va s) [
  | none ↦ none
  | some r ↦ read_all range_ok r.0 buf_va lens r.1
]

module _ (range_ok : ℕ → ℕ → Bool → Option Bool) where
  -- The bytes that the loop looks at pass the check: those before the NUL, it too, and `left` at most.
  abbrev pub IsPathReadable : ℕ → ℕ → Mem → Type 0
  IsPathReadable zero va m = Unit {0}
  IsPathReadable (suc left) va m =
      (range_ok va 1 false ≡ some true) × ((load8 m va ≡ 0) ⊎ IsPathReadable left (u32 (va + 1)) m)

  copy_path_lem :
      (left va : ℕ) (m : Mem)
      → IsPathReadable left va m
      → copy_path range_ok left va m ≡ some (some (string_at m va left))
  unfolding copy_path until_nul load_bytes
  copy_path_lem zero va m ok = refl
  copy_path_lem (suc left) va m (ok, inl nul) =
      let end : (load8 m va == 0) ≡ true = ground (arith, nul) in
      rw (copy_path, ok, copy_path, end) refl
  copy_path_lem (suc left) va m (ok, inr more) = elim (Bool-cases (load8 m va == 0)) [
    | inl end ↦ rw (copy_path, ok, copy_path, end) refl
    | inr go ↦ rw (copy_path, ok, copy_path, go, copy_path_lem left (u32 (va + 1)) m more) refl
  ]

  copy_user_path_lem :
      (va : ℕ) (m : Mem)
      → IsPathReadable 95 va m
      → copy_user_path range_ok va 96 m ≡ some (some (string_at m va 95))
  unfolding copy_user_path
  copy_user_path_lem va m ok = copy_path_lem 95 va m ok

  -- A name that a file has opens that file at the lowest free descriptor, if there is one.
  pub open_u-Opens :
      (path_va ix : ℕ) (s : Vfs)
      → IsPathReadable 95 path_va s.mem
      → ix < 2
      → string_at s.mem path_va 95 ≡ until_nul (file_at ix).path
      → Gives (λ (r : ℕ × Vfs). Opens ix s r ⊎ IsFull s r) (open_u range_ok path_va s)
  unfolding open_u open_path
  open_u-Opens path_va ix s ok two named =
      let path = string_at s.mem path_va 95 in
      let found_at : vfs_find path ≡ ix =
        same_file path ix (vfs_find path) two (until_nul_twice _ ∙ named)
          (vfs_find-IsFound path (all_bytes-string_at s.mem path_va 95)) in
      let good : is_negative ix ≡ false = ground arith in
      let short : u8 ix ≡ ix = omega arith in
      rw (copy_user_path_lem path_va s.mem ok, open_u, found_at, good, short)
        (some-Gives _ (ufd_alloc_lem ix s))

  -- With a path that is the name of no file, and whose bytes pass the check of the range up to the NUL,
  -- 95 at most, `verve_vfs_open_u` returns -2 and changes nothing.
  pub open_u_missing :
      (path_va : ℕ) (s : Vfs)
      → IsPathReadable 95 path_va s.mem
      → ((ix : ℕ) → ix < 2 → string_at s.mem path_va 95 ≢ until_nul (file_at ix).path)
      → open_u range_ok path_va s ≡ some (minus 2, s)
  unfolding open_u open_path
  open_u_missing path_va s ok none_named =
      let path = string_at s.mem path_va 95 in
      let nowhere : vfs_find path ≡ minus 1 =
        no_such_file path (vfs_find path)
          (λ ix two e. none_named ix two (sym (until_nul_twice (load_bytes s.mem path_va 95)) ∙ e))
          (vfs_find-IsFound path (all_bytes-string_at s.mem path_va 95)) in
      rw (copy_user_path_lem path_va s.mem ok, open_u, nowhere)

  -- A program opens a file by its name, while a descriptor is free, and reads until it has asked for at
  -- least the length of the file. Where the bytes of the path pass the check of the range up to the NUL,
  -- 95 at most, and the ranges of at most 4096 bytes at the buffer pass it for writing, the program
  -- receives exactly the contents of the file, whatever the lengths of the reads.
  pub open_u-read_all :
      (path_va buf_va ix : ℕ) (lens : List ℕ) (s : Vfs)
      → IsPathReadable 95 path_va s.mem
      → ((len : ℕ) → len ≤ 4096 → range_ok buf_va len true ≡ some true)
      → buf_va < 2 ^ 32
      → ix < 2
      → string_at s.mem path_va 95 ≡ until_nul (file_at ix).path
      → (free : ℕ) → free < 12
      → (s.ufd free).used ≡ 0
      → length (file_at ix).content ≤ asked lens
      → (s' : Vfs) × (open_and_read range_ok path_va buf_va lens s
          ≡ some ((file_at ix).content, s'))
  unfolding open_and_read
  open_u-read_all path_va buf_va ix lens s path_ok buf_ok h two named free hf unused enough =
      let opened = open_u-Opens path_va ix s path_ok two named in
      elim (opened.holds) [
        | inl o ↦
            let r = opened.value in
            let reads =
              read_all-Streamed range_ok r.0 o.slot buf_va lens r.1 (opened-IsOpen o) h buf_ok in
            let bytes = whole_file ix lens s r o enough reads.holds in
            (
              reads.value.1,
              rw (opened.comes, open_and_read, reads.comes)
                  (ap (λ (l : List ℕ). some (l, reads.value.1)) bytes),
            )
        | inr full ↦ absurd (full.all_used free hf unused)
      ]
