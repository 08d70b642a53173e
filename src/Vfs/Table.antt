-- ===== src/Vfs/Table.antt =====
-- The table of descriptors: `ufd_alloc` gives out the lowest free one, `verve_vfs_close_u` takes it back.
use verve_os.Base.{
  ℕ, zero, suc, ◌+◌, ◌<◌, ◌≡◌, ◌≢◌, refl, ap, sym, true, Bool-cases, inl, inr, arith, ◌==◌, ◌⊎◌,
}
use verve_os.Base.Array.{update}
use verve_os.Base.Int32.{minus}
use verve_os.Vfs.{Ufd, Vfs, alloc_from, ufd_alloc, close_u}
use verve_os.Vfs.Read.{IsOpen, vfs_get_ufd-IsOpen}

-- A descriptor as `open` leaves it.
abbrev pub opened : ℕ → Ufd
opened vfidx = record { used = 1; vfidx = vfidx; pos = 0 }

-- The lowest free slot is taken.
pub record Opens (vfidx : ℕ) (s : Vfs) (r : ℕ × Vfs) : Type 0 where
  pub slot : ℕ
  pub in_table : slot < 12
  pub was_free : (s.ufd slot).used ≡ 0
  pub lowest : (j : ℕ) → j < slot → (s.ufd j).used ≢ 0
  pub result : r ≡ (3 + slot, record s { ufd = update s.ufd slot (opened vfidx) })

-- Every slot is in use, and nothing changes.
pub record IsFull (s : Vfs) (r : ℕ × Vfs) : Type 0 where
  pub all_used : (j : ℕ) → j < 12 → (s.ufd j).used ≢ 0
  pub result : r ≡ (minus 24, s)

alloc_from_lem :
    (left slot vfidx : ℕ) (s : Vfs)
    → slot + left ≡ 12
    → ((j : ℕ) → j < slot → (s.ufd j).used ≢ 0)
    → Opens vfidx s (alloc_from left slot vfidx s) ⊎ IsFull s (alloc_from left slot vfidx s)
unfolding alloc_from
alloc_from_lem zero slot vfidx s e below =
    inr (record { all_used = λ j h. below j (omega arith); result = refl })
alloc_from_lem (suc left) slot vfidx s e below = elim (Bool-cases ((s.ufd slot).used == 0)) [
  | inl free ↦ rw free (
      inl (record {
        slot = slot;
        in_table = omega arith;
        was_free = ground (arith, free);
        lowest = below;
        result = refl;
      }))
  | inr busy ↦
      rw busy (
        alloc_from_lem left (slot + 1) vfidx s (omega arith) (λ j h. ground (arith, below j, busy)))
]

-- `ufd_alloc` takes the lowest free slot, or it returns -24 as every slot is in use.
pub ufd_alloc_lem :
    (vfidx : ℕ) (s : Vfs) → Opens vfidx s (ufd_alloc vfidx s) ⊎ IsFull s (ufd_alloc vfidx s)
unfolding ufd_alloc
ufd_alloc_lem vfidx s = alloc_from_lem 12 0 vfidx s refl (λ j h. absurd (omega arith))

pub opened-IsOpen :
    {vfidx : ℕ} {s : Vfs} {r : ℕ × Vfs} → (o : Opens vfidx s r) → IsOpen r.0 o.slot r.1
opened-IsOpen {vfidx} {s} {r} o = record {
  number = ap (λ (t : ℕ × Vfs). t.0) o.result;
  in_table = o.in_table;
  in_use = rw o.result (ground arith);
}

pub opened_slot :
    {vfidx : ℕ} {s : Vfs} {r : ℕ × Vfs} → (o : Opens vfidx s r) → r.1.ufd o.slot ≡ opened vfidx
opened_slot {vfidx} {s} {r} o =
    let self : (o.slot == o.slot) ≡ true = ground arith in rw (o.result, self)

-- The number depends only on which slots are in use.
alloc_from_used :
    (left slot v w : ℕ) (s t : Vfs)
    → ((j : ℕ) → (s.ufd j).used ≡ (t.ufd j).used)
    → (alloc_from left slot v s).0 ≡ (alloc_from left slot w t).0
unfolding alloc_from
alloc_from_used zero slot v w s t same = refl
alloc_from_used (suc left) slot v w s t same =
    ground (arith, same slot, alloc_from_used left (slot + 1) v w s t same)

close_slot :
    (slot j vfidx : ℕ) (s : Vfs)
    → (s.ufd slot).used ≡ 0
    → (update
        (update s.ufd slot (opened vfidx))
        slot
        (record (update s.ufd slot (opened vfidx) slot) { used = 0 })
        j).used
      ≡ (s.ufd j).used
close_slot slot j vfidx s free = elim (Bool-cases (slot == j)) [
  | inl here ↦ let at : j ≡ slot = ground (arith, here) in rw (here, at) (sym free)
  | inr away ↦ rw away
]

-- A descriptor that was just opened and is closed again: every slot is as free as it was before,
-- and a program that opens a file now is given the same number.
pub close_u-ufd_alloc :
    (vfidx vfidx' : ℕ) (s : Vfs)
    → Opens vfidx s (ufd_alloc vfidx s)
    → let (fd, after) = ufd_alloc vfidx s in
      ((j : ℕ) → ((close_u fd after).ufd j).used ≡ (s.ufd j).used)
      × ((ufd_alloc vfidx' (close_u fd after)).0 ≡ fd)
unfolding close_u ufd_alloc
close_u-ufd_alloc vfidx vfidx' s o =
    let r = ufd_alloc vfidx s in
    let get = vfs_get_ufd-IsOpen (opened-IsOpen o) in
    let free : (j : ℕ) → ((close_u r.0 r.1).ufd j).used ≡ (s.ufd j).used =
      λ j. rw (get, close_u, o.result) (close_slot o.slot j vfidx s o.was_free) in
    (free, alloc_from_used 12 0 vfidx' vfidx (close_u r.0 r.1) s free)
