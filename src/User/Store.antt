-- ===== src/User/Store.antt =====
-- Stores of the kernel through the page tables, into the frame of one page.
use verve_os.Base.{
  ℕ, zero, suc, ◌+◌, ◌-◌, ◌/◌, ◌%◌, ◌^◌, ◌≤◌, ◌<◌, ◌≡◌, refl, sym, ◌∙◌, inl, inr, arith, ltb, leb,
  ◌==◌, ◌&&◌, Bool-cases, if◌then◌else◌, Option, some, List, [], ◌∷◌, length, get_or, u8, bit_and,
}
use verve_os.Base.Bits.{bit_and_page_mask}
use verve_os.Base.Memory.{Mem, load8, store8, load8-store8}
use verve_os.Pmm.{Pmm}
use verve_os.Paging.{entry, pte_fetch_pd}
use verve_os.Paging.Tables.{IsFrame, Only, entry-Only}
use verve_os.Paging.Space.{table_of, IsPresent, IsSpace, pte_fetch_pd_lem}
use verve_os.User.{store_virtual}
use verve_os.User.Exec.{bzero_user_text, copy_blob}
use verve_os.User.Pages.{IsOwn}

-- What the loops do to the frame `u`, whose byte `i` becomes `byte i`.
pub record Writes (u : ℕ) (m : Mem) (byte : ℕ → ℕ) (r : Option Mem) : Type 0 where
  pub after : Mem
  pub returns : r ≡ some after
  pub only : Only u m after
  pub bytes : (i : ℕ) → i < 4096 → load8 after (u + i) ≡ byte i

module _ (pd u : ℕ) (s : Pmm) (h : IsSpace pd s) (own : IsOwn pd u s) (page : ℕ)
    (aligned : page % 4096 ≡ 0) (in_range : page + 4096 ≤ 2 ^ 32)
    (here : pte_fetch_pd s.mem pd page ≡ some (u + 7)) where
  u-IsFrame : IsFrame u
  u-IsFrame = own.taken.frame

  -- The map is the same after changes in the frame.
  pub fetch-Only :
      (m : Mem) (v : ℕ)
      → Only u s.mem m
      → v < 2 ^ 32
      → pte_fetch_pd m pd v ≡ pte_fetch_pd s.mem pd v
  fetch-Only m v only hv =
      let i = v / 4194304 in
      let n = v / 4096 % 1024 in
      ground (
        arith,
        pte_fetch_pd_lem m pd v,
        pte_fetch_pd_lem s.mem pd v,
        entry-Only u pd i s.mem m u-IsFrame h.directory.frame own.not_directory (omega arith) only,
        λ (p : IsPresent (entry s.mem pd i)).
            entry-Only u (table_of s.mem pd i) n s.mem m u-IsFrame
              (h.tables i (omega arith) p).frame (λ e. own.not_table i (omega arith) p (sym e))
              (omega arith) only,
      )

  fetch_page :
      (m : Mem) (i : ℕ) → Only u s.mem m → i < 4096 → pte_fetch_pd m pd (page + i) ≡ some (u + 7)
  fetch_page m i only hi =
      let dir : (page + i) / 4194304 ≡ page / 4194304 = omega arith in
      let table : (page + i) / 4096 % 1024 ≡ page / 4096 % 1024 = omega arith in
      fetch-Only m (page + i) only (omega arith)
      ∙ rw (pte_fetch_pd_lem s.mem pd (page + i), pte_fetch_pd_lem s.mem pd page, dir, table) refl
      ∙ here

  store_virtual_lem :
      (m : Mem) (i v : ℕ)
      → Only u s.mem m
      → i < 4096
      → store_virtual pd (page + i) v m ≡ some (store8 m (u + i) v)
  unfolding store_virtual
  store_virtual_lem m i v only hi =
      let mask : bit_and (u + 7) 0xffff_f000 ≡ u =
        bit_and_page_mask (u + 7) (omega (arith, u-IsFrame)) ∙ omega (arith, u-IsFrame) in
      let offset : (page + i) % 4096 ≡ i = omega arith in
      rw (store_virtual, fetch_page m i only hi, mask, offset) refl

  store-Only : (m : Mem) (i v : ℕ) → i < 4096 → Only u m (store8 m (u + i) v)
  store-Only m i v hi a ha out = ground (arith, load8-store8 m (u + i) v a, u-IsFrame)

  store_byte :
      (m : Mem) (i v j : ℕ)
      → i < 4096
      → j < 4096
      → load8 (store8 m (u + i) v) (u + j) ≡ (if i == j then u8 v else load8 m (u + j))
  store_byte m i v j hi hj = ground (arith, load8-store8 m (u + i) v (u + j), u-IsFrame)

  pub bzero-Writes :
      (n off : ℕ) (m : Mem)
      → Only u s.mem m
      → off + n ≤ 4096
      → Writes u m
          (λ i. if leb off i && ltb i (off + n) then 0 else load8 m (u + i))
          (bzero_user_text n pd (page + off) m)
  unfolding bzero_user_text
  bzero-Writes zero off m only fits = record {
    after = m;
    returns = refl;
    only = λ a ha out. refl;
    bytes = λ i hi. ground arith;
  }
  bzero-Writes (suc n) off m only fits =
      let m₁ = store8 m (u + off) 0 in
      let step = store-Only m off 0 (omega arith) in
      let next : page + off + 1 ≡ page + (off + 1) = omega arith in
      let rest =
        bzero-Writes n (off + 1) m₁ (λ a ha out. step a ha out ∙ only a ha out) (omega arith) in
      rw (bzero_user_text, store_virtual_lem m off 0 only (omega arith), next)
        (record {
          after = rest.after;
          returns = rest.returns;
          only = λ a ha out. rest.only a ha out ∙ step a ha out;
          bytes = λ i hi. ground (arith, rest.bytes i hi, store_byte m off 0 i);
        })

  pub copy_blob-Writes :
      (bs : List ℕ) (off : ℕ) (m : Mem)
      → Only u s.mem m
      → off + length bs ≤ 4096
      → Writes u m
          (λ i.
            if leb off i && ltb i (off + length bs)
            then u8 (get_or bs (i - off) 0)
            else load8 m (u + i))
          (copy_blob bs pd (page + off) m)
  unfolding copy_blob
  copy_blob-Writes [] off m only fits = record {
    after = m;
    returns = refl;
    only = λ a ha out. refl;
    bytes = λ i hi. ground arith;
  }
  copy_blob-Writes (b ∷ bs) off m only fits =
      let m₁ = store8 m (u + off) b in
      let step = store-Only m off b (omega arith) in
      let next : page + off + 1 ≡ page + (off + 1) = omega arith in
      let rest =
        copy_blob-Writes bs (off + 1) m₁ (λ a ha out. step a ha out ∙ only a ha out)
          (omega arith) in
      rw (copy_blob, store_virtual_lem m off b only (omega arith), next)
        (record {
          after = rest.after;
          returns = rest.returns;
          only = λ a ha out. rest.only a ha out ∙ step a ha out;
          bytes = λ i hi. elim (Bool-cases (i == off)) [
            | inl first ↦
                let at : i - off ≡ 0 = ground (arith, first) in
                rw at (ground (arith, rest.bytes i hi, store_byte m off b i, first))
            | inr later ↦ elim (Bool-cases (leb (off + 1) i)) [
              | inl past ↦
                  let at : i - off ≡ suc (i - (off + 1)) = ground (arith, past) in
                  rw at (ground (arith, rest.bytes i hi, store_byte m off b i, later, past))
              | inr before ↦ ground (arith, rest.bytes i hi, store_byte m off b i, later, before)
            ]
          ];
        })
