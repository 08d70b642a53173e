-- ===== src/User/Fill.antt =====
-- `store_all` inside a frame.
use verve_os.Base.{
  ℕ, suc, ◌+◌, ◌-◌, ◌≤◌, ◌<◌, ◌≡◌, refl, ◌∙◌, arith, ltb, leb, ◌==◌, ◌&&◌, Bool-cases, inl, inr,
  if◌then◌else◌, List, [], ◌∷◌, length, get_or, u8,
}
use verve_os.Base.Memory.{Mem, load8, store8, load8-store8}
use verve_os.Paging.Tables.{Only, IsFrame}
use verve_os.User.Bringup.{store_all}

-- The bytes that are stored in a frame.
module _ (u : ℕ) (frame : IsFrame u) where
  pub store_all-Only :
      (bs : List ℕ) (off : ℕ) (m : Mem)
      → off + length bs ≤ 4096
      → Only u m (store_all bs (u + off) m)
  unfolding store_all
  store_all-Only [] off m fits a ha out = refl
  store_all-Only (b ∷ bs) off m fits a ha out =
      let next : u + off + 1 ≡ u + (off + 1) = omega arith in
      rw next (
        store_all-Only bs (off + 1) (store8 m (u + off) b) (omega arith) a ha out
        ∙ ground (arith, load8-store8 m (u + off) b a, frame))

  pub store_all_byte :
      (bs : List ℕ) (off i : ℕ) (m : Mem)
      → off + length bs ≤ 4096
      → i < 4096
      → load8 (store_all bs (u + off) m) (u + i) ≡ (
          if leb off i && ltb i (off + length bs)
          then u8 (get_or bs (i - off) 0)
          else load8 m (u + i))
  unfolding store_all
  store_all_byte [] off i m fits hi = ground arith
  store_all_byte (b ∷ bs) off i m fits hi =
      let next : u + off + 1 ≡ u + (off + 1) = omega arith in
      let rest = store_all_byte bs (off + 1) i (store8 m (u + off) b) (omega arith) hi in
      let head = load8-store8 m (u + off) b (u + i) in
      elim (Bool-cases (i == off)) [
        | inl first ↦
            let at : i - off ≡ 0 = ground (arith, first) in
            rw (next, at) (ground (arith, rest, head, first, frame))
        | inr later ↦ elim (Bool-cases (leb (off + 1) i)) [
          | inl past ↦
              let at : i - off ≡ suc (i - (off + 1)) = ground (arith, past) in
              rw (next, at) (ground (arith, rest, head, later, past, frame))
          | inr before ↦ rw next (ground (arith, rest, head, later, before, frame))
        ]
      ]
