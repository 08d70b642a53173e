-- ===== src/Paging/Range.antt =====
-- `paging_user_range_ok`: which ranges of user addresses pass, and when the loop ends.
use verve_os.Base.{
  true, false, ℕ, zero, suc, ◌+◌, ◌-◌, ◌*◌, ◌/◌, ◌%◌, ◌^◌, ◌≤◌, ◌<◌, ◌≡◌, ◌≢◌, refl, ap, inl, inr,
  ◌⊎◌, arith, ltb, leb, ◌==◌, ◌||◌, Bool, Bool-cases, Option, some, u32,
}
use verve_os.Base.Bits.{bit_and_page_mask}
use verve_os.Paging.{Machine, get_cr3, page_ok, range_loop, user_range_ok, page_rounds}

-- The verdict on the pages from `pg` to `last`.
data Verdict (ok : ℕ → Bool) (pg last : ℕ) (r : Option Bool) : Type 0 where
  accepted :
      r ≡ some true
      → ((p : ℕ) → p % 4096 ≡ 0 → pg ≤ p → p ≤ last → ok p ≡ true)
      → Verdict ok pg last r
  refused :
      (p : ℕ)
      → r ≡ some false
      → p % 4096 ≡ 0
      → pg ≤ p
      → p ≤ last
      → ok p ≡ false
      → Verdict ok pg last r

Verdict-later :
    {ok : ℕ → Bool} {pg last : ℕ} {r : Option Bool}
    → pg % 4096 ≡ 0
    → ok pg ≡ true
    → Verdict ok (pg + 4096) last r
    → Verdict ok pg last r
Verdict-later {ok} {pg} al good (accepted e all) = accepted e (λ p hp lo hi.
    elim (Bool-cases (p == pg)) [
      | inl same ↦ let e' : p ≡ pg = ground arith in rw e' good
      | inr more ↦ all p hp (ground arith) hi
    ])
Verdict-later al good (refused p e hp lo hi bad) = refused p e hp (omega arith) hi bad

range_loop-Verdict :
    (fuel : ℕ) (ok : ℕ → Bool) (pg last : ℕ)
    → pg % 4096 ≡ 0
    → last % 4096 ≡ 0
    → last + 4096 < 2 ^ 32
    → pg ≤ last + 4096
    → last + 4096 < pg + 4096 * fuel
    → Verdict ok pg last (range_loop fuel ok pg last)
unfolding range_loop
range_loop-Verdict zero ok pg last hp hl small bound enough = absurd (omega arith)
range_loop-Verdict (suc fuel) ok pg last hp hl small bound enough =
    elim (Bool-cases (leb pg last)) [
      | inl inside ↦ elim (Bool-cases (ok pg)) [
        | inl good ↦
            let next : u32 (pg + 4096) ≡ pg + 4096 = ground (arith, inside) in
            rw (inside, good, next)
              (Verdict-later hp good (
                range_loop-Verdict fuel ok (pg + 4096) last (omega arith) hl small
                  (ground (arith, inside)) (omega arith)))
        | inr bad ↦ rw (inside, bad) (refused pg refl hp (omega arith) (ground (arith, inside)) bad)
      ]
      | inr past ↦ rw past (accepted refl (λ p k lo hi. absurd (ground (arith, past))))
    ]

-- A page that does not pass ends the loop, also where it goes round the address space.
range_loop-returns :
    (fuel : ℕ) (ok : ℕ → Bool) (pg last q : ℕ)
    → pg % 4096 ≡ 0
    → q % 4096 ≡ 0
    → pg < 2 ^ 32
    → q < 2 ^ 32
    → ok q ≡ false
    → (q + 2 ^ 32 - pg) % 2 ^ 32 < 4096 * fuel
    → (b : Bool) × (range_loop fuel ok pg last ≡ some b)
unfolding range_loop
range_loop-returns zero ok pg last q hp hq sp sq bad enough = absurd (omega arith)
range_loop-returns (suc fuel) ok pg last q hp hq sp sq bad enough =
    elim (Bool-cases (leb pg last)) [
      | inl inside ↦ elim (Bool-cases (ok pg)) [
        | inl good ↦
            let other : pg ≢ q = λ e. absurd (ground (arith, good, ap ok e)) in
            rw (inside, good)
              (range_loop-returns fuel ok (u32 (pg + 4096)) last q (omega arith) hq (omega arith) sq
                bad (omega arith))
        | inr stop ↦ (false, rw (inside, stop))
      ]
      | inr past ↦ (true, rw past)
    ]

-- What the check says of the `len` bytes at `va`, by the test `ok` on pages.
pub data Checks (ok : ℕ → Bool) (va len : ℕ) (r : Option Bool) : Type 0 where
  granted :
      r ≡ some true
      → va + len < 2 ^ 32
      → ((a : ℕ) → va ≤ a → a < va + len → ok (a / 4096 * 4096) ≡ true)
      → Checks ok va len r
  denied :
      (a : ℕ)
      → r ≡ some false
      → va ≤ a
      → a < va + len
      → ok (a / 4096 * 4096) ≡ false
      → Checks ok va len r
  wraps : r ≡ some false → 2 ^ 32 ≤ va + len → Checks ok va len r

Verdict-Checks :
    {ok : ℕ → Bool} (va len : ℕ) {r : Option Bool}
    → len ≢ 0
    → va + len < 2 ^ 32
    → Verdict ok (va / 4096 * 4096) ((va + len - 1) / 4096 * 4096) r
    → Checks ok va len r
Verdict-Checks va len some_bytes room (accepted e all) =
    granted e room (λ a lo hi. all (a / 4096 * 4096) (omega arith) (omega arith) (omega arith))
Verdict-Checks {ok} va len some_bytes room (refused p e hp lo hi bad) =
    elim (Bool-cases (leb va p)) [
      | inl after ↦
          let page : p / 4096 * 4096 ≡ p = omega arith in
          denied p e (ground (arith, after)) (omega arith) (rw page bad)
      | inr before ↦
          let page : va / 4096 * 4096 ≡ p = ground (arith, before) in
          denied va e (omega arith) (omega arith) (rw page bad)
    ]

-- A range that ends below the last page, or runs past the end of the address space: the check
-- grants it exactly if it does not run past the end and all the pages of its bytes pass.
pub user_range_ok_lem :
    (va len : ℕ) (for_write : Bool) (s : Machine)
    → va < 2 ^ 32
    → len < 2 ^ 32
    → (va + len ≤ 2 ^ 32 - 4096) ⊎ (2 ^ 32 ≤ va + len)
    → Checks (page_ok s.pmm.mem (get_cr3 s) for_write) va len (user_range_ok va len for_write s)
unfolding user_range_ok
user_range_ok_lem va len w s hva hlen (inr past) =
    let some_bytes : (len == 0) ≡ false = ground arith in
    let refuse : (ltb (u32 (va + len)) va || u32 (va + len) == 0) ≡ true = ground arith in
    rw (some_bytes, refuse) (wraps refl past)
user_range_ok_lem va len w s hva hlen (inl room) = elim (Bool-cases (len == 0)) [
  | inl empty ↦ rw empty (granted refl (omega arith) (λ a lo hi. absurd (ground (arith, empty))))
  | inr bytes ↦
      let fits : (ltb (u32 (va + len)) va || u32 (va + len) == 0) ≡ false = ground (arith, bytes) in
      let end : u32 (va + len) ≡ va + len = omega arith in
      rw
        (bytes, fits, end, bit_and_page_mask va hva, bit_and_page_mask (va + len - 1) (omega arith))
        (Verdict-Checks va len (ground (arith, bytes)) (omega arith) (
          range_loop-Verdict page_rounds (page_ok s.pmm.mem (get_cr3 s) w) (va / 4096 * 4096)
            ((va + len - 1) / 4096 * 4096) (omega arith) (omega arith) (ground (arith, bytes))
            (omega arith) (omega arith)))
]

-- While some page does not pass, which holds of the kernel's own, the check returns on every range.
pub user_range_ok-returns :
    (va len : ℕ) (for_write : Bool) (s : Machine) (q : ℕ)
    → va < 2 ^ 32
    → q % 4096 ≡ 0
    → q < 2 ^ 32
    → page_ok s.pmm.mem (get_cr3 s) for_write q ≡ false
    → (b : Bool) × (user_range_ok va len for_write s ≡ some b)
unfolding user_range_ok
user_range_ok-returns va len w s q hva hq sq bad = elim (Bool-cases (len == 0)) [
  | inl empty ↦ (true, rw empty)
  | inr bytes ↦ elim (Bool-cases (ltb (u32 (va + len)) va || u32 (va + len) == 0)) [
    | inl past ↦ (false, rw (bytes, past))
    | inr fits ↦
        rw (bytes, fits, bit_and_page_mask va hva)
          (range_loop-returns page_rounds (page_ok s.pmm.mem (get_cr3 s) w) (va / 4096 * 4096) _ q
            (omega arith) hq (omega arith) sq bad (omega arith))
  ]
]
