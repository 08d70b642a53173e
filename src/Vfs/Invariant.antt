-- ===== src/Vfs/Invariant.antt =====
-- The descriptors stay well formed: each that is in use has a file, and a position inside it.
use verve_os.Base.{
  true, false, ℕ, zero, suc, ◌+◌, ◌^◌, ◌≤◌, ◌<◌, ◌≡◌, ◌≢◌, refl, inl, inr, ◌⊎◌, arith, ltb, leb,
  ◌==◌, Bool, Bool-cases, if◌then◌else◌, Option, none, some, u32, Option-cases, length, u8, List,
  [], ◌∷◌,
}
use verve_os.Base.Array.{update}
use verve_os.Base.Int32.{minus, is_negative}
use verve_os.Vfs.{
  Ufd, Vfs, file_at, files, vfs_find, find_from, ufd_alloc, vfs_get_ufd, copy_path, copy_user_path,
  open_path, open_u, read_slot, read_u, close_u, File,
}
use verve_os.Base.Memory.{Mem, load8}
use verve_os.Vfs.Files.{length-content}
use verve_os.Vfs.Read.{Gives, some-Gives}
use verve_os.Vfs.Table.{opened, ufd_alloc_lem}

pub record IsDescriptor (u : Ufd) : Type 0 where
  pub file : u.vfidx < 2
  pub position : u.pos ≤ length (file_at u.vfidx).content

abbrev pub IsTable : Vfs → Type 0
IsTable s = (j : ℕ) → (s.ufd j).used ≢ 0 → IsDescriptor (s.ufd j)

update-IsTable :
    (s : Vfs) (slot : ℕ) (u : Ufd)
    → IsTable s
    → (u.used ≢ 0 → IsDescriptor u)
    → (j : ℕ) → (update s.ufd slot u j).used ≢ 0
    → IsDescriptor (update s.ufd slot u j)
update-IsTable s slot u h k j = elim (Bool-cases (slot == j)) [
  | inl here ↦ rw here k
  | inr away ↦ rw away (h j)
]

find_from_bound :
    (path : List ℕ) (fs : List File) (i : ℕ)
    → i + length fs < 2 ^ 31
    → (find_from path fs i ≡ minus 1) ⊎ (find_from path fs i < i + length fs)
unfolding find_from
find_from_bound path [] i h = inl refl
find_from_bound path (f ∷ fs) i h = ground (arith, find_from_bound path fs (i + 1))

vfs_find_bound : (path : List ℕ) → is_negative (vfs_find path) ≡ false → vfs_find path < 2
unfolding vfs_find files
vfs_find_bound path good = ground (arith, find_from_bound path files 0 (omega arith))

pub ufd_alloc-IsTable :
    (vfidx : ℕ) (s : Vfs) → IsTable s → vfidx < 2 → IsTable (ufd_alloc vfidx s).1
ufd_alloc-IsTable vfidx s h small = elim (ufd_alloc_lem vfidx s) [
  | inl o ↦ rw o.result (
      update-IsTable s o.slot (opened vfidx) h
        (λ ne. record { file = small; position = omega arith }))
  | inr full ↦ rw full.result h
]

get-used : (fd slot : ℕ) (s : Vfs) → vfs_get_ufd fd s ≡ some slot → (s.ufd slot).used ≢ 0
unfolding vfs_get_ufd
get-used fd slot s e = ground arith

pub close_u-IsTable : (fd : ℕ) (s : Vfs) → IsTable s → IsTable (close_u fd s)
unfolding close_u
close_u-IsTable fd s h = elim (Option-cases (vfs_get_ufd fd s)) [
  | inl bad ↦ rw (bad, close_u) h
  | inr (slot, e) ↦ rw (e, close_u) (update-IsTable s slot _ h (λ ne. absurd (ne refl)))
]

pub open_path-IsTable :
    (path : Option (List ℕ)) (s : Vfs) → IsTable s → IsTable (open_path path s).1
unfolding open_path
open_path-IsTable none s h = h
open_path-IsTable (some path) s h = elim (Bool-cases (is_negative (vfs_find path))) [
  | inl missing ↦ rw missing h
  | inr good ↦
      rw good (ufd_alloc-IsTable (u8 (vfs_find path)) s h (omega (arith, vfs_find_bound path good)))
]

-- Where each check of a range comes back, the calls do, and the table stays well formed.
module _ (range_ok : ℕ → ℕ → Bool → Option Bool)
    (comes : (va len : ℕ) (w : Bool)
      → va < 2 ^ 32
      → (b : Bool) × (range_ok va len w ≡ some b)) where
  copy_more :
      (left va : ℕ) (m : Mem) (b : Bool) (rest : Option (List ℕ))
      → range_ok va 1 false ≡ some b
      → copy_path range_ok left (u32 (va + 1)) m ≡ some rest
      → (path : Option (List ℕ)) × (copy_path range_ok (suc left) va m ≡ some path)
  unfolding copy_path
  copy_more left va m false rest e f = (none, rw (copy_path, e) refl)
  copy_more left va m true rest e f = elim (Bool-cases (load8 m va == 0)) [
    | inl end ↦ (some [], rw (copy_path, e, copy_path, end) refl)
    | inr go ↦ elim (Option-cases rest) [
      | inl fault ↦ (none, rw (copy_path, e, copy_path, go, f, fault) refl)
      | inr (more, p) ↦ (some (load8 m va ∷ more), rw (copy_path, e, copy_path, go, f, p) refl)
    ]
  ]

  copy_path-ends :
      (left va : ℕ) (m : Mem)
      → va < 2 ^ 32
      → (path : Option (List ℕ)) × (copy_path range_ok left va m ≡ some path)
  unfolding copy_path
  copy_path-ends zero va m h = (some [], refl)
  copy_path-ends (suc left) va m h =
      let (b, e) = comes va 1 false h in
      let (rest, f) = copy_path-ends left (u32 (va + 1)) m (omega arith) in
      copy_more left va m b rest e f

  copy_user_path-ends :
      (va : ℕ) (m : Mem)
      → va < 2 ^ 32
      → (path : Option (List ℕ)) × (copy_user_path range_ok va 96 m ≡ some path)
  unfolding copy_user_path
  copy_user_path-ends va m h = copy_path-ends 95 va m h

  pub open_u-IsTable :
      (path_va : ℕ) (s : Vfs)
      → path_va < 2 ^ 32
      → IsTable s
      → Gives (λ (r : ℕ × Vfs). IsTable r.1) (open_u range_ok path_va s)
  unfolding open_u
  open_u-IsTable path_va s small h =
      let (path, e) = copy_user_path-ends path_va s.mem small in
      rw (e, open_u) (some-Gives _ (open_path-IsTable path s h))

  read_slot-IsTable :
      (slot buf_va len : ℕ) (s : Vfs)
      → buf_va < 2 ^ 32
      → IsTable s
      → (s.ufd slot).used ≢ 0
      → Gives (λ (r : ℕ × Vfs). IsTable r.1) (read_slot range_ok slot buf_va len s)
  unfolding read_slot
  read_slot-IsTable slot buf_va len s small h used =
      let content = (file_at (s.ufd slot).vfidx).content in
      let capped = if ltb 4096 len then 4096 else len in
      let d = h slot used in
      let (b, e) = comes buf_va capped true small in
      elim (Bool-cases (len == 0)) [
        | inl empty ↦ rw empty (some-Gives _ h)
        | inr bytes ↦ elim (Bool-cases b) [
          | inr fault ↦ rw (bytes, e, read_slot, fault) (some-Gives _ h)
          | inl ok ↦ elim (Bool-cases (leb (length content) (s.ufd slot).pos)) [
            | inl end ↦ rw (bytes, e, read_slot, ok, end) (some-Gives _ h)
            | inr more ↦
                rw (bytes, e, read_slot, ok, more)
                  (some-Gives _ (
                    update-IsTable s slot _ h (λ ne. record {
                      file = d.file;
                      position = ground (arith, d, more, length-content (s.ufd slot).vfidx);
                    })))
          ]
        ]
      ]

  pub read_u-IsTable :
      (fd buf_va len : ℕ) (s : Vfs)
      → buf_va < 2 ^ 32
      → IsTable s
      → Gives (λ (r : ℕ × Vfs). IsTable r.1) (read_u range_ok fd buf_va len s)
  unfolding read_u
  read_u-IsTable fd buf_va len s small h = elim (Option-cases (vfs_get_ufd fd s)) [
    | inl bad ↦ rw (bad, read_u) (some-Gives _ h)
    | inr (slot, e) ↦
        rw (e, read_u) (read_slot-IsTable slot buf_va len s small h (get-used fd slot s e))
  ]
