-- ===== src/Thread/Ring.antt =====
-- The ring as a list of threads, and `pick_next` along it.
use verve_os.Base.{
  true, false, ℕ, zero, suc, ◌<◌, ◌≡◌, ◌≢◌, inl, inr, ap, Bool-cases, arith, ◌==◌, if◌then◌else◌,
  List, [], ◌∷◌, length, Option, none, some,
}
use verve_os.Thread.{Threads, is_ready, claim, pick_loop, pick_next}

-- The pointer `from` leads along the threads of the list, and then to `cur`, which is none of them.
abbrev pub Leads : Threads → Option ℕ → List ℕ → ℕ → Type 0
Leads s from [] cur = from ≡ some cur
Leads s from (t ∷ ts) cur = (from ≡ some t) × (t ≢ cur) × Leads s (s.slots t).next ts cur

-- The first thread of the list that is ready for the CPU.
abbrev pub first_ready : ℕ → Threads → List ℕ → Option ℕ
first_ready me s [] = none
first_ready me s (t ∷ ts) = if is_ready me (s.slots t) then some t else first_ready me s ts

-- `pick_next` gives that thread, claimed, or the present one where there is none.
abbrev pub picked : ℕ → ℕ → Threads → Option ℕ → ℕ × Threads
picked me cur s none = (cur, s)
picked me cur s (some t) = (t, claim me t s)

pick_loop_lem :
    (fuel me cur : ℕ) (from : Option ℕ) (s : Threads) (ts : List ℕ)
    → Leads s from ts cur
    → length ts < fuel
    → pick_loop fuel me cur from s ≡ some (picked me cur s (first_ready me s ts))
unfolding pick_loop
pick_loop_lem zero me cur from s ts leads enough = absurd (omega arith)
pick_loop_lem (suc fuel) me cur from s [] leads enough =
    let self : (cur == cur) ≡ true = ground arith in rw (leads, self)
pick_loop_lem (suc fuel) me cur from s (t ∷ ts) (here, other, leads) enough =
    let apart : (t == cur) ≡ false = ground arith in
    elim (Bool-cases (is_ready me (s.slots t))) [
      | inl ready ↦ rw (here, apart, ready)
      | inr busy ↦
          rw (here, apart, busy)
            (pick_loop_lem fuel me cur (s.slots t).next s ts leads (omega arith))
    ]

pub pick_next_lem :
    (me cur : ℕ) (s : Threads) (ts : List ℕ)
    → Leads s (s.slots cur).next ts cur
    → length ts < 65
    → pick_next me cur s ≡ some (picked me cur s (first_ready me s ts))
unfolding pick_next
pick_next_lem me cur s ts leads few = pick_loop_lem 65 me cur (s.slots cur).next s ts leads few

abbrev pub from_some : ℕ → Option ℕ → ℕ
from_some d none = d
from_some d (some t) = t

pub first_ready-ready :
    (me : ℕ) (s : Threads) (ts : List ℕ) (t : ℕ)
    → first_ready me s ts ≡ some t
    → is_ready me (s.slots t) ≡ true
first_ready-ready me s [] t found = absurd (ground arith)
first_ready-ready me s (x ∷ xs) t found = elim (Bool-cases (is_ready me (s.slots x))) [
  | inl ready ↦
      let found' = rw ready at found in
      let same : x ≡ t = ap (from_some x) found' in rw (← same) ready
  | inr busy ↦ first_ready-ready me s xs t (rw busy at found)
]
