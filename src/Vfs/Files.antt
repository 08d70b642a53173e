-- ===== src/Vfs/Files.antt =====
-- The two files: their lengths, and that they are made of bytes.
use verve_os.Base.{
  ℕ, zero, suc, ◌+◌, ◌^◌, ◌<◌, ◌≡◌, refl, Bool, true, ◌&&◌, List, [], ◌∷◌, ◌++◌, ap, ◌∙◌, arith,
  ltb, length, get_or,
}
use verve_os.Vfs.{file_at, files}

-- `n` bytes of a file from `p` on.
abbrev pub slice : List ℕ → ℕ → ℕ → List ℕ
slice content p zero = []
slice content p (suc n) = get_or content p 0 ∷ slice content (suc p) n

slice-cons : (x : ℕ) (xs : List ℕ) (p n : ℕ) → slice (x ∷ xs) (suc p) n ≡ slice xs p n
slice-cons x xs p zero = refl
slice-cons x xs p (suc n) = ap (λ (s : List ℕ). get_or xs p 0 ∷ s) (slice-cons x xs (suc p) n)

pub slice_all : (xs : List ℕ) → slice xs 0 (length xs) ≡ xs
slice_all [] = refl
slice_all (x ∷ xs) = ap (λ (s : List ℕ). x ∷ s) (slice-cons x xs 0 (length xs) ∙ slice_all xs)

pub slice-append :
    (xs : List ℕ) (p n k : ℕ) → slice xs p (n + k) ≡ slice xs p n ++ slice xs (p + n) k
slice-append xs p zero k =
    let none_more : p + 0 ≡ p = omega arith in
    let same : 0 + k ≡ k = omega arith in rw (none_more, same)
slice-append xs p (suc n) k =
    let more : suc n + k ≡ suc (n + k) = omega arith in
    let shift : suc p + n ≡ p + suc n = omega arith in
    rw more (
      ap (λ (s : List ℕ). get_or xs p 0 ∷ s)
        (slice-append xs (suc p) n k ∙ ap (λ (q : ℕ). slice xs (suc p) n ++ slice xs q k) shift))

-- The elements are bytes.
abbrev pub all_bytes : List ℕ → Bool
all_bytes [] = true
all_bytes (x ∷ xs) = ltb x 256 && all_bytes xs

get_or-all_bytes : (xs : List ℕ) (i : ℕ) → all_bytes xs ≡ true → get_or xs i 0 < 256
get_or-all_bytes [] i h = omega arith
get_or-all_bytes (x ∷ xs) zero h = ground arith
get_or-all_bytes (x ∷ xs) (suc i) h = get_or-all_bytes xs i (ground (arith, h))

bytes_in : (i : ℕ) → all_bytes (file_at i).content ≡ true
unfolding file_at files
bytes_in zero = refl
bytes_in (suc zero) = refl
bytes_in (suc (suc i)) = refl

pub content-lt : (i k : ℕ) → get_or (file_at i).content k 0 < 256
content-lt i k = get_or-all_bytes (file_at i).content k (bytes_in i)

pub length-content : (i : ℕ) → length (file_at i).content < 2 ^ 32
unfolding file_at files
length-content zero = omega arith
length-content (suc zero) = omega arith
length-content (suc (suc i)) = omega arith
