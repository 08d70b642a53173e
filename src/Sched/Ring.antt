-- ===== src/Sched/Ring.antt =====
-- The deferred ring of a CPU holds a queue of at most fifteen ticks.
use verve_os.Base.{
  ℕ, zero, suc, ◌+◌, ◌-◌, ◌%◌, ◌^◌, ◌<◌, ◌≡◌, refl, ap, ap₂, ◌∙◌, true, false, List, [], ◌∷◌, ◌++◌,
  arith, Bool-cases, inl, inr, ◌==◌, if◌then◌else◌, length, u32, bit_and,
}
use verve_os.Base.Array.{Array, update}
use verve_os.Base.Bits.{bit_and_ones}
use verve_os.Sched.{Sched, defer_push_tick}

-- The `n` entries from index `r` on, round the end of the ring.
abbrev pub window : Array ℕ → ℕ → ℕ → List ℕ
window ring r zero = []
window ring r (suc n) = ring r ∷ window ring ((r + 1) % 16) n

-- The number of entries.
abbrev pub fill : ℕ → Sched → ℕ
fill c s = (s.defer_w c + 16 - s.defer_r c) % 16

-- The ticks that wait on CPU `c`, oldest first.
abbrev pub pending : ℕ → Sched → List ℕ
pending c s = window (s.defer_ring c) (s.defer_r c) (fill c s)

-- Both indices are in the ring.
pub record IsValid (c : ℕ) (s : Sched) : Type 0 where
  pub w_in : s.defer_w c < 16
  pub r_in : s.defer_r c < 16

pub length-window : (ring : Array ℕ) (r n : ℕ) → length (window ring r n) ≡ n
length-window ring r zero = refl
length-window ring r (suc n) = ap suc (length-window ring ((r + 1) % 16) n)

pub window-update :
    (ring : Array ℕ) (w v r n : ℕ)
    → r < 16
    → n < 16
    → w ≡ (r + n) % 16
    → window (update ring w v) r (suc n) ≡ window ring r n ++ v ∷ []
window-update ring w v r zero hr hn e = ground arith
window-update ring w v r (suc n) hr hn e =
    ap₂ ◌∷◌ (ground arith)
      (window-update ring w v ((r + 1) % 16) n (omega arith) (omega arith) (omega arith))

full_iff :
    (c : ℕ) (s : Sched)
    → IsValid c s
    → (u32 (s.defer_w c + 1) % 16 == s.defer_r c) ≡ (length (pending c s) == 15)
full_iff c s v = ground (arith, length-window (s.defer_ring c) (s.defer_r c) (fill c s), v)

-- What one push does to the ring of CPU `c`.
pub record Pushed (c tick : ℕ) (s s' : Sched) : Type 0 where
  pub queue :
      pending c s'
      ≡ (if length (pending c s) == 15 then pending c s else pending c s ++ (tick % 2 ^ 32) ∷ [])
  pub overflow :
      s'.defer_overflow c
      ≡ (if length (pending c s) == 15 then u32 (s.defer_overflow c + 1) else s.defer_overflow c)
  pub valid : IsValid c s'

grown :
    (c tick : ℕ) (s : Sched)
    → IsValid c s
    → (length (pending c s) == 15) ≡ false
    → pending c (record s {
      defer_ring =
          update s.defer_ring c (update (s.defer_ring c) (s.defer_w c) (bit_and tick 0xffff_ffff));
      defer_w = update s.defer_w c (u32 (s.defer_w c + 1) % 16);
    })
      ≡ pending c s ++ bit_and tick 0xffff_ffff ∷ []
grown c tick s v room =
    let self : (c == c) ≡ true = ground arith in
    let longer : (u32 (s.defer_w c + 1) % 16 + 16 - s.defer_r c) % 16 ≡ suc (fill c s) =
      ground (arith, v, room, length-window (s.defer_ring c) (s.defer_r c) (fill c s)) in
    rw (self, longer)
      (window-update (s.defer_ring c) (s.defer_w c) (bit_and tick 0xffff_ffff) (s.defer_r c)
        (fill c s) v.r_in (omega arith) (omega (arith, v.w_in, v.r_in)))

-- On a ring that is full the tick is dropped and counted; else it goes to the end of the queue.
pub defer_push_tick-Pushed :
    (c tick : ℕ) (s : Sched) → IsValid c s → Pushed c tick s (defer_push_tick c tick s)
unfolding defer_push_tick
defer_push_tick-Pushed c tick s v = elim (Bool-cases (length (pending c s) == 15)) [
  | inl full ↦
      rw (full_iff c s v, full)
        (record { queue = rw full; overflow = ground (arith, full); valid = ground (arith, v) })
  | inr room ↦
      rw (full_iff c s v, room)
        (record {
          queue = rw room (
              grown c tick s v room ∙ ap (λ (t : ℕ). pending c s ++ t ∷ []) (bit_and_ones 32 tick));
          overflow = rw room;
          valid = ground (arith, v);
        })
]
