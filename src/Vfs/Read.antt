-- ===== src/Vfs/Read.antt =====
-- What `verve_vfs_read_u` delivers.
use verve_os.Base.{
  ℕ, zero, suc, ◌+◌, ◌-◌, ◌%◌, ◌^◌, ◌<◌, ◌≤◌, ◌≡◌, ◌≢◌, refl, ap₂, sym, ◌∙◌, Bool, true, Option,
  some, List, ◌∷◌, Bool-cases, inl, inr, arith, ltb, leb, ◌==◌, if◌then◌else◌, length, get_or, u8,
  u32, min,
}
use verve_os.Base.Array.{update}
use verve_os.Base.Memory.{Mem, load8, store8, load8-store8}
use verve_os.Mboot2.Queries.{load_bytes}
use verve_os.Vfs.{Vfs, file_at, vfs_get_ufd, copy_out, read_slot, read_u}
use verve_os.Vfs.Files.{slice, content-lt, length-content}

-- How far `a` is behind `va`, round the end of the address space.
abbrev pub offset : ℕ → ℕ → ℕ
offset va a = (a + 2 ^ 32 - va) % 2 ^ 32

pub copy_out_lem :
    (n p va : ℕ) (content : List ℕ) (m : Mem) (a : ℕ)
    → n < 2 ^ 32
    → va < 2 ^ 32
    → a < 2 ^ 32
    → load8 (copy_out n p va content m) a
      ≡ (if ltb (offset va a) n then u8 (get_or content (p + offset va a) 0) else load8 m a)
unfolding copy_out
copy_out_lem zero p va content m a hn hva ha = ground arith
copy_out_lem (suc n) p va content m a hn hva ha =
    let rest =
      copy_out_lem n (p + 1) (u32 (va + 1)) content (store8 m va (get_or content p 0)) a
        (omega arith) (omega arith) ha in
    elim (Bool-cases (va == a)) [
      | inl here ↦ ground (arith, rest, load8-store8 m va (get_or content p 0) a)
      | inr away ↦
          let closer : offset va a ≡ suc (offset (u32 (va + 1)) a) = ground arith in
          let index : p + suc (offset (u32 (va + 1)) a) ≡ p + 1 + offset (u32 (va + 1)) a =
            omega arith in
          rw (closer, index) (ground (arith, rest, load8-store8 m va (get_or content p 0) a))
    ]

-- The descriptor `fd` is open at `slot`.
pub record IsOpen (fd slot : ℕ) (s : Vfs) : Type 0 where
  pub number : fd ≡ 3 + slot
  pub in_table : slot < 12
  pub in_use : (s.ufd slot).used ≢ 0

pub vfs_get_ufd-IsOpen : {fd slot : ℕ} {s : Vfs} → IsOpen fd slot s → vfs_get_ufd fd s ≡ some slot
unfolding vfs_get_ufd
vfs_get_ufd-IsOpen {fd} {slot} {s} o = ground (arith, o)

-- The `k` bytes from the `i`th on, of `n` that were copied.
load_bytes-copy_out :
    (n p va file : ℕ) (m : Mem) (i k : ℕ)
    → n < 2 ^ 32
    → va < 2 ^ 32
    → i + k ≤ n
    → load_bytes (copy_out n p va (file_at file).content m) (u32 (va + i)) k
      ≡ slice (file_at file).content (p + i) k
unfolding load_bytes
load_bytes-copy_out n p va file m i zero hn hva fits = refl
load_bytes-copy_out n p va file m i (suc k) hn hva fits =
    let content = (file_at file).content in
    let at : offset va (u32 (va + i)) ≡ i = omega arith in
    let inside : ltb i n ≡ true = ground arith in
    let byte : u8 (get_or content (p + i) 0) ≡ get_or content (p + i) 0 =
      omega (arith, content-lt file (p + i)) in
    let next : u32 (u32 (va + i) + 1) ≡ u32 (va + suc i) = omega arith in
    let index : p + suc i ≡ suc (p + i) = omega arith in
    let rest = load_bytes-copy_out n p va file m (suc i) k hn hva (omega arith) in
    ap₂ ◌∷◌
      (copy_out_lem n p va content m (u32 (va + i)) hn hva (omega arith) ∙ rw (at, inside) byte)
      (rw next (rest ∙ rw index))

-- How many bytes a read of `len` returns at this slot.
abbrev pub amount : ℕ → ℕ → Vfs → ℕ
amount len slot s =
    min (min len 4096) (length (file_at (s.ufd slot).vfidx).content - (s.ufd slot).pos)

-- What a read that succeeds does: the file's next bytes are in the buffer, the position is behind
-- them, and nothing else has changed.
pub record IsRead (buf_va len slot : ℕ) (s : Vfs) (r : ℕ × Vfs) : Type 0 where
  pub count : r.0 ≡ amount len slot s
  pub bytes :
      load_bytes r.1.mem buf_va (amount len slot s)
      ≡ slice (file_at (s.ufd slot).vfidx).content (s.ufd slot).pos (amount len slot s)
  pub elsewhere :
      (a : ℕ) → a < 2 ^ 32 → amount len slot s ≤ offset buf_va a → load8 r.1.mem a ≡ load8 s.mem a
  pub position : r.1.ufd slot ≡ record (s.ufd slot) { pos = (s.ufd slot).pos + amount len slot s }
  pub others : (j : ℕ) → j ≢ slot → r.1.ufd j ≡ s.ufd j

nothing_left :
    (buf_va len slot : ℕ) (s : Vfs) → amount len slot s ≡ 0 → IsRead buf_va len slot s (0, s)
unfolding load_bytes
nothing_left buf_va len slot s e =
    let stays : (s.ufd slot).pos + 0 ≡ (s.ufd slot).pos = omega arith in
    record {
      count = sym e;
      bytes = rw e;
      elsewhere = λ a h k. refl;
      position = rw (e, stays);
      others = λ j ne. refl;
    }

copied :
    (buf_va len slot : ℕ) (s : Vfs)
    → buf_va < 2 ^ 32
    → (s.ufd slot).pos < length (file_at (s.ufd slot).vfidx).content
    → IsRead buf_va len slot s (
      amount len slot s,
      record s {
        ufd =
            update s.ufd slot
              (record (s.ufd slot) { pos = u32 ((s.ufd slot).pos + amount len slot s) });
        mem =
            copy_out
              (amount len slot s)
              (s.ufd slot).pos
              buf_va
              (file_at (s.ufd slot).vfidx).content
              s.mem;
      },
    )
copied buf_va len slot s h before =
    let u = s.ufd slot in
    let n = amount len slot s in
    let start : u32 (buf_va + 0) ≡ buf_va = omega arith in
    let first : u.pos + 0 ≡ u.pos = omega arith in
    let small : u32 (u.pos + n) ≡ u.pos + n = omega (arith, length-content u.vfidx) in
    let self : (slot == slot) ≡ true = ground arith in
    record {
      count = refl;
      bytes =
          rw (start, first) at
            (load_bytes-copy_out n u.pos buf_va u.vfidx s.mem 0 n (omega arith) h (omega arith));
      elsewhere = λ a ha past.
          ground (
            arith,
            copy_out_lem n u.pos buf_va (file_at u.vfidx).content s.mem a (omega arith) h ha,
          );
      position = rw (self, small);
      others = λ j ne. ground arith;
    }

-- A call comes back, and its result is as `P` says.
pub record Gives {A : Type 0} (P : A → Type 0) (r : Option A) : Type 0 where
  pub value : A
  pub comes : r ≡ some value
  pub holds : P value

pub some-Gives : {A : Type 0} {P : A → Type 0} (a : A) → P a → Gives P (some a)
some-Gives a p = record { value = a; comes = refl; holds = p }

-- On an open descriptor, with a buffer that the user may write to, `verve_vfs_read_u` is a read.
pub read_u-IsRead :
    (range_ok : ℕ → ℕ → Bool → Option Bool) (fd slot buf_va len : ℕ) (s : Vfs)
    → IsOpen fd slot s
    → buf_va < 2 ^ 32
    → range_ok buf_va (min len 4096) true ≡ some true
    → Gives (IsRead buf_va len slot s) (read_u range_ok fd buf_va len s)
unfolding read_u read_slot
read_u-IsRead range_ok fd slot buf_va len s o h ok =
    let u = s.ufd slot in
    let content = (file_at u.vfidx).content in
    let capped : (if ltb 4096 len then 4096 else len) ≡ min len 4096 = ground arith in
    let got : (if ltb (min len 4096) (length content - u.pos)
          then min len 4096
          else length content - u.pos)
        ≡ amount len slot s =
      ground arith in
    rw (vfs_get_ufd-IsOpen o, read_u, read_slot, capped, ok, read_slot, capped, got)
      (elim (Bool-cases (len == 0)) [
        | inl none_asked ↦
            rw none_asked
              (some-Gives _ (nothing_left buf_va len slot s (ground (arith, none_asked))))
        | inr asked ↦ elim (Bool-cases (leb (length content) u.pos)) [
          | inl at_end ↦
              rw (asked, read_slot, at_end)
                (some-Gives _ (nothing_left buf_va len slot s (ground (arith, at_end))))
          | inr more ↦
              rw (asked, read_slot, more)
                (some-Gives _ (copied buf_va len slot s h (ground (arith, more))))
        ]
      ])
