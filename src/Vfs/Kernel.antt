-- ===== src/Vfs/Kernel.antt =====
-- The kernel's own reads, `vfs_open_k` and `vfs_read_k`, and the self-test that uses them.
use verve_os.Base.{
  ℕ, zero, suc, ◌+◌, ◌-◌, ◌^◌, ◌<◌, ◌≤◌, ◌≡◌, ◌≢◌, refl, ap, sym, ◌∙◌, Bool, true, Option, ◌||◌,
  none, some, List, [], ◌∷◌, Bool-cases, inl, inr, arith, ltb, leb, ◌==◌, if◌then◌else◌, ◌⊎◌,
  length, get_or, u32, u8, min,
}
use verve_os.Base.Array.{update, codes}
use verve_os.Base.Int32.{minus, is_negative}
use verve_os.Serial.{puts}
use verve_os.Mboot2.Queries.{load_bytes}
use verve_os.Vfs.{Vfs, file_at, vfs_find, ufd_alloc, vfs_get_ufd, close_u, read_u}
use verve_os.Vfs.Files.{slice, length-content}
use verve_os.Vfs.Read.{IsOpen, amount, vfs_get_ufd-IsOpen, read_u-IsRead}

unfoldable pub open_k : List ℕ → Vfs → ℕ × Vfs
open_k path s =
    let vfid = vfs_find path in if is_negative vfid then (minus 2, s) else ufd_alloc (u8 vfid) s

-- The copy loop of `vfs_read_k`: what `kbuf` receives.
unfoldable pub copy_k : ℕ → ℕ → List ℕ → List ℕ
copy_k zero p content = []
copy_k (suc n) p content = get_or content p 0 ∷ copy_k n (p + 1) content

read_slot_k : ℕ → ℕ → Vfs → ℕ × List ℕ × Vfs
read_slot_k slot len s =
    let u = s.ufd slot in
    let content = (file_at u.vfidx).content in
    let want = length content - u.pos in
    let got = if ltb len want then len else want in
    if len == 0 then (0, [], s) else if leb (length content) u.pos then (0, [], s) else (
      got,
      copy_k got u.pos content,
      record s { ufd = update s.ufd slot (record u { pos = u32 (u.pos + got) }) },
    )

-- The return value, what `kbuf` receives, and the state.
unfoldable pub read_k : ℕ → ℕ → Vfs → ℕ × List ℕ × Vfs
unfolding read_slot_k
read_k fd len s = elim (vfs_get_ufd fd s) [
  | none ↦ (minus 9, [], s)
  | some slot ↦ read_slot_k slot len s
]

-- The descriptors, and what is printed: the buffer ends behind what was read.
unfoldable pub selftest : Vfs → List ℕ → Vfs × List ℕ
selftest s out =
    let r = open_k (codes "/hello.txt") s in
    let k = read_k r.0 47 r.1 in
    let bad = leb (2 ^ 31) k.0 || k.0 == 0 in
    if is_negative r.0
    then (r.1, puts (codes "[VerveOS] vfs selftest: open failed\r\n") out)
    else if bad
    then (close_u r.0 k.2, puts (codes "[VerveOS] vfs selftest: read failed\r\n") out)
    else (close_u r.0 k.2, puts (k.1) (puts (codes "[VerveOS] vfs selftest read: ") out))

copy_k_lem : (n p : ℕ) (content : List ℕ) → copy_k n p content ≡ slice content p n
unfolding copy_k
copy_k_lem zero p content = refl
copy_k_lem (suc n) p content =
    let next : p + 1 ≡ suc p = omega arith in
    ap (λ (l : List ℕ). get_or content p 0 ∷ l) (rw next (copy_k_lem n (suc p) content))

-- What a read into a kernel buffer returns, and does to the descriptors.
pub record IsReadK (len slot : ℕ) (s : Vfs) (r : ℕ × List ℕ × Vfs) : Type 0 where
  pub count : r.0 ≡ amount len slot s
  pub bytes : r.1 ≡ slice (file_at (s.ufd slot).vfidx).content (s.ufd slot).pos (amount len slot s)
  position : r.2.ufd slot ≡ record (s.ufd slot) { pos = (s.ufd slot).pos + amount len slot s }
  others : (j : ℕ) → j ≢ slot → r.2.ufd j ≡ s.ufd j

nothing_read : (len slot : ℕ) (s : Vfs) → amount len slot s ≡ 0 → IsReadK len slot s (0, [], s)
nothing_read len slot s e =
    let stays : (s.ufd slot).pos + 0 ≡ (s.ufd slot).pos = omega arith in
    record { count = sym e; bytes = rw e; position = rw (e, stays); others = λ j ne. refl }

something_read :
    (len slot n : ℕ) (s : Vfs)
    → n ≡ amount len slot s
    → (s.ufd slot).pos < length (file_at (s.ufd slot).vfidx).content
    → IsReadK len slot s (
      n,
      copy_k n (s.ufd slot).pos (file_at (s.ufd slot).vfidx).content,
      record s {
        ufd = update s.ufd slot (record (s.ufd slot) { pos = u32 ((s.ufd slot).pos + n) });
      },
    )
something_read len slot n s e before =
    let u = s.ufd slot in
    let small : u32 (u.pos + amount len slot s) ≡ u.pos + amount len slot s =
      omega (arith, length-content u.vfidx) in
    let self : (slot == slot) ≡ true = ground arith in
    record {
      count = e;
      bytes = rw e (copy_k_lem (amount len slot s) u.pos (file_at u.vfidx).content);
      position = rw (self, e, small);
      others = λ j ne. ground arith;
    }

pub read_k-IsReadK :
    (fd slot len : ℕ) (s : Vfs)
    → IsOpen fd slot s
    → len ≤ 4096
    → IsReadK len slot s (read_k fd len s)
unfolding read_k read_slot_k
read_k-IsReadK fd slot len s o small =
    let content = (file_at (s.ufd slot).vfidx).content in
    let want = length content - (s.ufd slot).pos in
    let got : (if ltb len want then len else want) ≡ amount len slot s = ground arith in
    rw (vfs_get_ufd-IsOpen o, read_k, read_slot_k)
      (elim (Bool-cases (len == 0)) [
        | inl none_asked ↦ rw none_asked (nothing_read len slot s (ground (arith, none_asked)))
        | inr asked ↦ elim (Bool-cases (leb (length content) (s.ufd slot).pos)) [
          | inl at_end ↦ rw (asked, at_end) (nothing_read len slot s (ground (arith, at_end)))
          | inr more ↦ rw (asked, more) (something_read len slot _ s got (ground (arith, more)))
        ]
      ])

same_or_not : (i j : ℕ) → (i ≡ j) ⊎ (i ≢ j)
same_or_not i j = elim (Bool-cases (i == j)) [
  | inl e ↦ inl (ground arith)
  | inr e ↦ inr (ground arith)
]

-- For an open descriptor, at most 4096 bytes and a buffer that the user may write to,
-- `verve_vfs_read_u` comes back, and `vfs_read_k` and it return the same count, deliver the same bytes
-- and leave the same table.
pub read_k-read_u :
    (range_ok : ℕ → ℕ → Bool → Option Bool) (fd slot buf_va len : ℕ) (s : Vfs)
    → IsOpen fd slot s
    → buf_va < 2 ^ 32
    → len ≤ 4096
    → range_ok buf_va len true ≡ some true
    → let k = read_k fd len s in
      (u : ℕ × Vfs) × (read_u range_ok fd buf_va len s ≡ some u)
      × (k.0 ≡ u.0)
      × (k.1 ≡ load_bytes u.1.mem buf_va u.0)
      × ((j : ℕ) → k.2.ufd j ≡ u.1.ufd j)
read_k-read_u range_ok fd slot buf_va len s o h small ok =
    let page : min len 4096 ≡ len = omega arith in
    let k = read_k-IsReadK fd slot len s o small in
    let read = read_u-IsRead range_ok fd slot buf_va len s o h (rw page ok) in
    let u = read.holds in
    (
      read.value,
      read.comes,
      k.count ∙ sym u.count,
      rw u.count (k.bytes ∙ sym u.bytes),
      λ j. elim (same_or_not j slot) [
        | inl same ↦ rw same (k.position ∙ sym u.position)
        | inr ne ↦ k.others j ne ∙ sym (u.others j ne)
      ],
    )
