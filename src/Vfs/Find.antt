-- ===== src/Vfs/Find.antt =====
-- `vfs_find` compares C strings.
use verve_os.Base.{
  ℕ, zero, suc, ◌+◌, ◌<◌, ◌≡◌, ◌≢◌, refl, ap, ap₂, true, false, List, [], ◌∷◌, Bool-cases, inl, inr,
  arith, ◌==◌, length, get_or,
}
use verve_os.Base.Int32.{minus}
use verve_os.Serial.{until_nul}
use verve_os.Vfs.Files.{all_bytes}
use verve_os.Vfs.{File, no_file, files, difference, strcmp_v, find_from, vfs_find}

-- Two strings with the same characters before the NUL compare equal.
pub strcmp_v_same :
    (a b : List ℕ)
    → all_bytes a ≡ true
    → all_bytes b ≡ true
    → until_nul a ≡ until_nul b
    → strcmp_v a b ≡ 0
unfolding strcmp_v difference until_nul
strcmp_v_same [] [] ha hb e = refl
strcmp_v_same [] (y ∷ ys) ha hb e = elim (Bool-cases (y == 0)) [
  | inl end ↦ ground (arith, end)
  | inr go ↦ absurd (ground (arith, ap length (rw go at e)))
]
strcmp_v_same (x ∷ xs) [] ha hb e = elim (Bool-cases (x == 0)) [
  | inl end ↦ ground (arith, end)
  | inr go ↦ absurd (ground (arith, ap length (rw go at e)))
]
strcmp_v_same (x ∷ xs) (y ∷ ys) ha hb e = elim (Bool-cases (x == 0)) [
  | inl end ↦ elim (Bool-cases (y == 0)) [
    | inl end' ↦ ground (arith, end, end')
    | inr go ↦ absurd (ground (arith, ap length (rw (end, go) at e)))
  ]
  | inr more ↦ elim (Bool-cases (y == 0)) [
    | inl end ↦ absurd (ground (arith, ap length (rw (more, end) at e)))
    | inr go ↦
        ground
          (arith, more, go, rw (more, go) at e, strcmp_v_same xs ys (ground arith) (ground arith))
  ]
]

-- Strings that compare equal have the same characters before the NUL.
pub strcmp_v_eq :
    (a b : List ℕ)
    → all_bytes a ≡ true
    → all_bytes b ≡ true
    → strcmp_v a b ≡ 0
    → until_nul a ≡ until_nul b
unfolding strcmp_v difference until_nul
strcmp_v_eq [] [] ha hb e = refl
strcmp_v_eq [] (y ∷ ys) ha hb e = let end : (y == 0) ≡ true = ground (arith, hb) in rw end
strcmp_v_eq (x ∷ xs) [] ha hb e = let end : (x == 0) ≡ true = ground (arith, ha) in rw end
strcmp_v_eq (x ∷ xs) (y ∷ ys) ha hb e = elim (Bool-cases (x == 0)) [
  | inl end ↦ let end' : (y == 0) ≡ true = ground (arith, ha, hb, end) in rw (end, end')
  | inr go ↦
      let same : (x == y) ≡ true = ground (arith, ha, hb, go, e) in
      let more : (y == 0) ≡ false = ground arith in
      let heads : x ≡ y = ground arith in
      let rest : strcmp_v xs ys ≡ 0 = rw (go, same) at e in
      rw (go, more)
        (ap₂ ◌∷◌ heads (strcmp_v_eq xs ys (ground (arith, ha)) (ground (arith, hb)) rest))
]

-- The first file of the path's name, counted from `i`, or none has it.
pub data IsFound (path : List ℕ) (fs : List File) (i : ℕ) : ℕ → Type 0 where
  found :
      (k : ℕ)
      → k < length fs
      → until_nul path ≡ until_nul (get_or fs k no_file).path
      → ((j : ℕ) → j < k → until_nul path ≢ until_nul (get_or fs j no_file).path)
      → IsFound path fs i (i + k)
  missing :
      ((j : ℕ) → j < length fs → until_nul path ≢ until_nul (get_or fs j no_file).path)
      → IsFound path fs i (minus 1)

after_head :
    (path : List ℕ) (f : File) (fs : List File) (n : ℕ)
    → until_nul path ≢ until_nul f.path
    → ((j : ℕ) → suc j < n → until_nul path ≢ until_nul (get_or fs j no_file).path)
    → (j : ℕ) → j < n
    → until_nul path ≢ until_nul (get_or (f ∷ fs) j no_file).path
after_head path f fs n ne all zero h = ne
after_head path f fs n ne all (suc j) h = all j h

next_file :
    (path : List ℕ) (f : File) (fs : List File) (i r : ℕ)
    → until_nul path ≢ until_nul f.path
    → IsFound path fs (i + 1) r
    → IsFound path (f ∷ fs) i r
next_file path f fs i r ne (found k h e first) =
    let shift : i + suc k ≡ i + 1 + k = omega arith in
    let before : (j : ℕ) → j < suc k → until_nul path ≢ until_nul (get_or (f ∷ fs) j no_file).path =
      after_head path f fs (suc k) ne (λ j h. first j (omega arith)) in
    let later : IsFound path (f ∷ fs) i (i + suc k) = found (suc k) (omega arith) e before in
    rw shift at later
next_file path f fs i r ne (missing all) =
    missing (after_head path f fs (suc (length fs)) ne (λ j h. all j (omega arith)))

find_from-IsFound :
    (path : List ℕ) (fs : List File) (i : ℕ)
    → all_bytes path ≡ true
    → ((k : ℕ) → all_bytes (get_or fs k no_file).path ≡ true)
    → IsFound path fs i (find_from path fs i)
unfolding find_from
find_from-IsFound path [] i hp ht = missing (λ j h. absurd (omega arith))
find_from-IsFound path (f ∷ fs) i hp ht =
    let rest = find_from-IsFound path fs (i + 1) hp (λ k. ht (suc k)) in
    elim (Bool-cases (strcmp_v path f.path == 0)) [
      | inl same ↦
          let start : i + 0 ≡ i = omega arith in
          let here : IsFound path (f ∷ fs) i (i + 0) =
            found 0 (omega arith) (strcmp_v_eq path f.path hp (ht 0) (ground (arith, same)))
              (λ j h. absurd (omega arith)) in
          rw same (rw start at here)
      | inr other ↦ rw other (
          next_file path f fs i (find_from path fs (i + 1))
            (λ e. absurd (ground (arith, other, strcmp_v_same path f.path hp (ht 0) e))) rest)
    ]

paths_are_text : (k : ℕ) → all_bytes (get_or files k no_file).path ≡ true
unfolding files
paths_are_text zero = refl
paths_are_text (suc zero) = refl
paths_are_text (suc (suc k)) = refl

-- `vfs_find` gives the index of the first file with this name, or -1 as no file has it.
pub vfs_find-IsFound :
    (path : List ℕ) → all_bytes path ≡ true → IsFound path files 0 (vfs_find path)
unfolding vfs_find
vfs_find-IsFound path hp = find_from-IsFound path files 0 hp paths_are_text
