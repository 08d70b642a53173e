-- ===== src/Heap/Fit.antt =====
-- The loop over the free blocks takes the first one that fits out of the list.
use verve_os.Base.{
  true, false, ℕ, zero, suc, ◌+◌, ◌%◌, ◌^◌, ◌≤◌, ◌<◌, ◌≡◌, ◌⊎◌, ◌∙◌, inl, inr, sym, Bool-cases,
  refl, arith, leb, ◌==◌, if◌then◌else◌, List, [], ◌∷◌, length, Option, none, some,
}
use verve_os.Base.Memory.{load32, store32, load32-lt, load32-store32}
use verve_os.Heap.{Heap, fit_loop, set_link}
use verve_os.Heap.Blocks.{
  Block, cover, IsBlock, Linked, IsBlock-store, AreBlocks, AreBlocks-store, link-store,
  Linked-store,
}

-- The first block of the size, and the list without it.
abbrev pub chosen : ℕ → List Block → Option Block
chosen need [] = none
chosen need (x ∷ xs) = if leb need x.total then some x else chosen need xs

abbrev pub remaining : ℕ → List Block → List Block
remaining need [] = []
remaining need (x ∷ xs) = if leb need x.total then xs else x ∷ remaining need xs

module _ (base : ℕ) (low : base + 0x4_0000 ≤ 2 ^ 32) (high : 1 ≤ base) (need : ℕ) where
  -- What the loop returns, begun at the block after `p`: nothing, or a block whose link the store
  -- of `v` at `w` has taken out.
  pub data Fits (s : Heap) (p : Block) (xs : List Block) : Option (ℕ × Heap) → Type 0 where
    no_fit : chosen need xs ≡ none → Fits s p xs (some (0, s))
    fit :
        (x : Block) (w v : ℕ)
        → chosen need xs ≡ some x
        → w % 16 ≡ 0
        → w < 2 ^ 32
        → v < 2 ^ 32
        → (w ≡ p.start + 16) ⊎ (1 ≤ cover xs w)
        → IsBlock base (store32 s.mem w v) x
        → Linked base
            (store32 s.mem w v)
            (load32 (store32 s.mem w v) (p.start + 16))
            (remaining need xs)
        → Fits s p xs (some (x.start + 16, record s { mem = store32 s.mem w v }))

  further :
      (s : Heap) (p y : Block) (ys : List Block) (r : Option (ℕ × Heap))
      → leb need y.total ≡ false
      → ((c : ℕ) → cover (p ∷ y ∷ ys) c ≤ 1)
      → IsBlock base s.mem p
      → IsBlock base s.mem y
      → load32 s.mem (p.start + 16) ≡ y.start
      → Fits s y ys r
      → Fits s p (y ∷ ys) r
  further s p y ys r small apart is_p is_y next (no_fit none_fits) = no_fit (rw (small) none_fits)
  further s p y ys r small apart is_p is_y next
        (fit x w v found align_w w_lt v_lt place is_x linked) =
      let at_w = apart w in
      let inside : 1 ≤ cover (y ∷ ys) w = ground (arith, is_y.large) in
      let kept =
        link-store base s.mem w v low align_w w_lt v_lt p (ground (arith, is_p.large)) is_p in
      fit x w v (rw (small) found) align_w w_lt v_lt (inr inside) is_x (
        rw (small, kept, next)
          (
            refl,
            IsBlock-store base s.mem w v low align_w w_lt v_lt y (ground (arith, is_y.large)) is_y,
            linked,
          ))

  take_first :
      (s : Heap) (p y : Block) (ys : List Block)
      → leb need y.total ≡ true
      → ((c : ℕ) → cover (p ∷ y ∷ ys) c ≤ 1)
      → IsBlock base s.mem p
      → IsBlock base s.mem y
      → Linked base s.mem (load32 s.mem (y.start + 16)) ys
      → Fits s p (y ∷ ys) (
          some (
            y.start + 16,
            record s { mem = store32 s.mem (p.start + 16) (load32 s.mem (y.start + 16)) },
          ))
  take_first s p y ys fits apart is_p is_y linked =
      let w = p.start + 16 in
      let v = load32 s.mem (y.start + 16) in
      let v_lt = load32-lt s.mem (y.start + 16) in
      let at_w = apart w in
      let align_w : w % 16 ≡ 0 = omega (arith, is_p.aligned) in
      let w_lt : w < 2 ^ 32 = omega (arith, is_p.below, is_p.large) in
      let reads : load32 (store32 s.mem w v) w ≡ v =
        load32-store32 s.mem w v (omega (arith, is_p.aligned, is_p.below, is_p.large)) v_lt in
      let alone : cover (y ∷ ys) w ≡ 0 = ground (arith, is_p.large) in
      let bare : cover ys w ≡ 0 = omega arith in
      fit y w v (rw fits refl) align_w w_lt v_lt (inl refl)
        (IsBlock-store base s.mem w v low align_w w_lt v_lt y (ground (arith, is_y.large)) is_y)
        (rw (fits, reads) (Linked-store base s.mem w v low align_w w_lt v_lt v ys bare linked))

  pub fit_loop-Fits :
      (fuel : ℕ) (s : Heap) (p : Block) (b : ℕ) (xs : List Block)
      → b ≡ load32 s.mem (p.start + 16)
      → Linked base s.mem b xs
      → IsBlock base s.mem p
      → ((c : ℕ) → cover (p ∷ xs) c ≤ 1)
      → length xs < fuel
      → Fits s p xs (fit_loop fuel need (some (p.start + 16)) b s)
  unfolding fit_loop set_link
  fit_loop-Fits zero s p b xs next linked is_p apart enough = absurd (omega arith)
  fit_loop-Fits (suc fuel) s p b [] next linked is_p apart enough = rw (linked) (no_fit refl)
  fit_loop-Fits (suc fuel) s p b (y ∷ ys) next (here, is_y, linked) is_p apart enough =
      let nonzero : (y.start == 0) ≡ false = ground (arith, is_y.above) in
      elim (Bool-cases (leb need y.total)) [
        | inl fits ↦
            rw (here, nonzero, is_y.header, fits) (take_first s p y ys fits apart is_p is_y linked)
        | inr small ↦
            rw (here, nonzero, is_y.header, small)
              (further s p y ys _ small apart is_p is_y (sym next ∙ here) (
                fit_loop-Fits fuel s y (load32 s.mem (y.start + 16)) ys refl linked is_y
                  (λ c. let at_c = apart c in omega arith) (omega arith)))
      ]

  -- The block that the list gives up, and what the others keep.
  pub data Takes (s : Heap) (xs : List Block) : Option (ℕ × Heap) → Type 0 where
    takes_none : chosen need xs ≡ none → Takes s xs (some (0, s))
    takes :
        (x : Block) (s' : Heap)
        → chosen need xs ≡ some x
        → s'.heap_off ≡ s.heap_off
        → IsBlock base s'.mem x
        → Linked base s'.mem s'.freelist (remaining need xs)
        → ((live : List Block)
            → ((c : ℕ) → cover xs c + cover live c ≤ 1)
            → AreBlocks base s.mem live
            → AreBlocks base s'.mem live)
        → Takes s xs (some (x.start + 16, s'))

  from_second :
      (s : Heap) (y : Block) (ys : List Block) (r : Option (ℕ × Heap))
      → leb need y.total ≡ false
      → ((c : ℕ) → cover (y ∷ ys) c ≤ 1)
      → s.freelist ≡ y.start
      → IsBlock base s.mem y
      → Fits s y ys r
      → Takes s (y ∷ ys) r
  from_second s y ys r small apart first is_y (no_fit none_fits) = takes_none (rw (small) none_fits)
  from_second s y ys r small apart first is_y
        (fit x w v found align_w w_lt v_lt place is_x linked) =
      let at_w = apart w in
      let inside : 1 ≤ cover (y ∷ ys) w = ground (arith, is_y.large) in
      takes x (record s { mem = store32 s.mem w v }) (rw (small) found) refl is_x
        (rw (small, first)
          (
            refl,
            IsBlock-store base s.mem w v low align_w w_lt v_lt y (ground (arith, is_y.large)) is_y,
            linked,
          ))
        (λ live apart_live are.
          AreBlocks-store base s.mem w v low align_w w_lt v_lt live
            (let at_live = apart_live w in omega arith) are)

  pub fit_loop-Takes :
      (fuel : ℕ) (s : Heap) (b : ℕ) (xs : List Block)
      → b ≡ s.freelist
      → Linked base s.mem b xs
      → ((c : ℕ) → cover xs c ≤ 1)
      → length xs < fuel
      → Takes s xs (fit_loop fuel need none b s)
  unfolding fit_loop set_link
  fit_loop-Takes zero s b xs first linked apart enough = absurd (omega arith)
  fit_loop-Takes (suc fuel) s b [] first linked apart enough = rw linked (takes_none refl)
  fit_loop-Takes (suc fuel) s b (y ∷ ys) first (here, is_y, linked) apart enough =
      let nonzero : (y.start == 0) ≡ false = ground (arith, is_y.above) in
      elim (Bool-cases (leb need y.total)) [
        | inl fits ↦
            rw (here, nonzero, is_y.header, fits)
              (takes y (record s { freelist = load32 s.mem (y.start + 16) }) (rw fits refl) refl
                is_y (rw fits linked) (λ live apart_live are. are))
        | inr small ↦
            rw (here, nonzero, is_y.header, small)
              (from_second s y ys _ small apart (sym first ∙ here) is_y (
                fit_loop-Fits fuel s y (load32 s.mem (y.start + 16)) ys refl linked is_y apart
                  (omega arith)))
      ]
