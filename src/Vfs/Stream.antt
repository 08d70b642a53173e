-- ===== src/Vfs/Stream.antt =====
-- A program that reads a descriptor again and again gets the file from front to back.
use verve_os.Base.{
  ℕ, ◌+◌, ◌-◌, ◌^◌, ◌<◌, ◌≤◌, ◌≡◌, refl, ap, sym, ◌∙◌, Bool, true, Option, none, some, List, [],
  ◌∷◌, ◌++◌, arith, if◌then◌else◌, length, min,
}
use verve_os.Base.Int32.{is_negative}
use verve_os.Mboot2.Queries.{load_bytes}
use verve_os.Vfs.{Ufd, Vfs, file_at, read_u}
use verve_os.Vfs.Files.{slice, slice-append}
use verve_os.Vfs.Read.{IsOpen, IsRead, amount, Gives, some-Gives, read_u-IsRead}

-- What the program finds in its buffer after a read.
abbrev received : ℕ → ℕ × Vfs → List ℕ
received buf_va r = load_bytes r.1.mem buf_va (if is_negative r.0 then 0 else r.0)

-- The reads of a program, by the lengths it asks for, and all that it receives; `none` as one does not
-- come back.
unfoldable pub read_all :
    (ℕ → ℕ → Bool → Option Bool) → ℕ → ℕ → List ℕ → Vfs → Option (List ℕ × Vfs)
read_all range_ok fd buf_va [] s = some ([], s)
read_all range_ok fd buf_va (len ∷ lens) s = elim (read_u range_ok fd buf_va len s) [
  | none ↦ none
  | some r ↦ elim (read_all range_ok fd buf_va lens r.1) [
    | none ↦ none
    | some rest ↦ some (received buf_va r ++ rest.0, rest.1)
  ]
]

-- What the program asks for in all, a read at most a page.
abbrev pub asked : List ℕ → ℕ
asked [] = 0
asked (len ∷ lens) = min len 4096 + asked lens

abbrev pub remaining : ℕ → Vfs → ℕ
remaining slot s = length (file_at (s.ufd slot).vfidx).content - (s.ufd slot).pos

received_lem :
    {buf_va len slot : ℕ} {s : Vfs} {r : ℕ × Vfs}
    → IsRead buf_va len slot s r
    → received buf_va r
      ≡ slice (file_at (s.ufd slot).vfidx).content (s.ufd slot).pos (amount len slot s)
received_lem {buf_va} {len} {slot} {s} {r} k =
    let whole : (if is_negative r.0 then 0 else r.0) ≡ amount len slot s =
      ground (arith, k.count) in
    rw whole k.bytes

stays-IsOpen :
    {fd slot buf_va len : ℕ} {s : Vfs} {r : ℕ × Vfs}
    → IsOpen fd slot s
    → IsRead buf_va len slot s r
    → IsOpen fd slot r.1
stays-IsOpen o k = record {
  number = o.number;
  in_table = o.in_table;
  in_use = λ e. o.in_use (sym (ap (λ (u : Ufd). u.used) k.position) ∙ e);
}

-- What the reads leave: the next bytes of the file were received, as many as were asked for, or
-- all that were left.
pub record Streamed (lens : List ℕ) (slot : ℕ) (s : Vfs) (r : List ℕ × Vfs) : Type 0 where
  pub count : ℕ
  pub count_min : count ≡ min (asked lens) (remaining slot s)
  pub bytes : r.0 ≡ slice (file_at (s.ufd slot).vfidx).content (s.ufd slot).pos count
  pub position : r.1.ufd slot ≡ record (s.ufd slot) { pos = (s.ufd slot).pos + count }

read_more :
    (len : ℕ) (lens : List ℕ) (buf_va slot : ℕ) (s : Vfs) (r : ℕ × Vfs) (rest : List ℕ × Vfs)
    → IsRead buf_va len slot s r
    → Streamed lens slot r.1 rest
    → Streamed (len ∷ lens) slot s (received buf_va r ++ rest.0, rest.1)
read_more len lens buf_va slot s r rest k more =
    let n = amount len slot s in
    let same = ap (λ (u : Ufd). u.vfidx) k.position in
    let moved = ap (λ (u : Ufd). u.pos) k.position in
    let content = (file_at (s.ufd slot).vfidx).content in
    let left : remaining slot r.1 ≡ remaining slot s - n = rw (same, moved) (omega arith) in
    let far : (s.ufd slot).pos + n + more.count ≡ (s.ufd slot).pos + (n + more.count) =
      omega arith in
    record {
      count = n + more.count;
      count_min = omega (arith, more.count_min, left);
      bytes =
          ap (λ (front : List ℕ). front ++ rest.0) (received_lem k)
          ∙ ap (λ (back : List ℕ). slice content (s.ufd slot).pos n ++ back)
              (more.bytes ∙ rw (same, moved))
          ∙ sym (slice-append content (s.ufd slot).pos n more.count);
      position = more.position ∙ rw (k.position, far);
    }

-- On an open descriptor, with a buffer whose ranges of at most 4096 bytes pass the check, whatever lengths
-- a program asks for, every read comes back, and it receives the file's next bytes in order: as many as
-- it asked for, a read at most 4096, or all that were left.
pub read_all-Streamed :
    (range_ok : ℕ → ℕ → Bool → Option Bool) (fd slot buf_va : ℕ) (lens : List ℕ) (s : Vfs)
    → IsOpen fd slot s
    → buf_va < 2 ^ 32
    → ((len : ℕ) → len ≤ 4096 → range_ok buf_va len true ≡ some true)
    → Gives (Streamed lens slot s) (read_all range_ok fd buf_va lens s)
unfolding read_all
read_all-Streamed range_ok fd slot buf_va [] s o h ok =
    let stays : (s.ufd slot).pos + 0 ≡ (s.ufd slot).pos = omega arith in
    some-Gives _ (record { count = 0; count_min = omega arith; bytes = refl; position = rw stays })
read_all-Streamed range_ok fd slot buf_va (len ∷ lens) s o h ok =
    let k = read_u-IsRead range_ok fd slot buf_va len s o h (ok (min len 4096) (omega arith)) in
    let rest =
      read_all-Streamed range_ok fd slot buf_va lens k.value.1 (stays-IsOpen o k.holds) h ok in
    rw (k.comes, read_all, rest.comes)
      (some-Gives _ (read_more len lens buf_va slot s k.value rest.value k.holds rest.holds))
