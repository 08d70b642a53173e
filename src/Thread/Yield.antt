-- ===== src/Thread/Yield.antt =====
-- `sched_yield`: the CPUs run different threads.
use verve_os.Base.{
  true, false, ℕ, ◌<◌, ◌≡◌, ◌≢◌, ◌∙◌, inl, inr, sym, ap, Bool-cases, Option-cases, ◌&&◌, refl,
  arith, ◌==◌, if◌then◌else◌, List, [], ◌∷◌, length, Option, none, some,
}
use verve_os.Thread.{
  Thread, Threads, is_ready, is_runnable, claim, no_token, hand_over, switch_to, sched_yield,
}
use verve_os.Thread.Ring.{Leads, first_ready, from_some, pick_next_lem, first_ready-ready}

-- Each CPU has claimed the thread that it runs.
pub record IsExclusive (s : Threads) : Type 0 where
  pub claimed : (cpu t : ℕ) → cpu < 32 → s.current cpu ≡ some t → (s.slots t).sched_token ≡ cpu

-- Then no thread is run by two CPUs.
pub IsExclusive-one :
    (s : Threads) (a b t : ℕ)
    → IsExclusive s
    → a < 32
    → b < 32
    → s.current a ≡ some t
    → s.current b ≡ some t
    → a ≡ b
IsExclusive-one s a b t is ha hb at_a at_b = sym (is.claimed a t ha at_a) ∙ is.claimed b t hb at_b

first_ready-other :
    (me cur : ℕ) (s : Threads) (from : Option ℕ) (ts : List ℕ) (t : ℕ)
    → Leads s from ts cur
    → first_ready me s ts ≡ some t
    → t ≢ cur
first_ready-other me cur s from [] t leads found = absurd (ground arith)
first_ready-other me cur s from (x ∷ xs) t (here, other, leads) found =
    elim (Bool-cases (is_ready me (s.slots x))) [
      | inl ready ↦
          let found' = rw ready at found in
          let same : x ≡ t = ap (from_some x) found' in rw (← same) other
      | inr busy ↦ first_ready-other me cur s (s.slots x).next xs t leads (rw busy at found)
    ]

-- The state after the switch of `cpu` from `old` to `next`.
pub record Switched (cpu old next : ℕ) (s s' : Threads) : Type 0 where
  pub runs : s'.current cpu ≡ some next
  pub token : (s'.slots next).sched_token ≡ cpu
  pub freed :
      (s'.slots old).sched_token
      ≡ (if is_runnable (s.slots old).state then no_token else (s.slots old).sched_token)
  pub others : (c : ℕ) → c ≢ cpu → s'.current c ≡ s.current c
  pub ring : (t : ℕ) → (s'.slots t).next ≡ (s.slots t).next
  pub left : s'.yield_from ≡ some old
  pub exclusive : IsExclusive s'

-- What `sched_yield` does on the CPU that runs `old`, where the ring leads from it along `ts`.
pub data Yields (cpu old : ℕ) (s : Threads) (ts : List ℕ)
    : Option (Option (ℕ × ℕ) × Threads) → Type 0 where
  stays : first_ready cpu s ts ≡ none → Yields cpu old s ts (some (none, s))
  switches :
      (next : ℕ) (s' : Threads)
      → first_ready cpu s ts ≡ some next
      → Switched cpu old next s s'
      → Yields cpu old s ts (some (some (old, next), s'))

ready_token : (me : ℕ) (t : Thread) → is_ready me t ≡ true → t.sched_token ≡ no_token
unfolding is_ready
ready_token me t ready = ground arith

module _ (cpu old next : ℕ) (s : Threads) (other : next ≢ old) where
  abbrev after : Threads
  after = hand_over cpu old next (claim cpu next s)

  after_token :
      (t : ℕ)
      → (after.slots t).sched_token ≡ (
          if next == t
          then cpu
          else if old == t && is_runnable (s.slots old).state
          then no_token
          else (s.slots t).sched_token)
  unfolding hand_over claim
  after_token t = ground arith

  after_next : (t : ℕ) → (after.slots t).next ≡ (s.slots t).next
  unfolding hand_over claim
  after_next t = ground arith

  after_current : (c : ℕ) → after.current c ≡ (if cpu == c then some next else s.current c)
  unfolding hand_over claim
  after_current c = refl

  after-IsExclusive :
      cpu < 32
      → s.current cpu ≡ some old
      → is_ready cpu (s.slots next) ≡ true
      → IsExclusive s
      → IsExclusive after
  after-IsExclusive small runs ready is = record {
    claimed = λ c t c_lt at_c. elim (Bool-cases (cpu == c)) [
      | inl same ↦
          let found : some next ≡ some t = rw (same) at (sym (after_current c) ∙ at_c) in
          let now : next ≡ t = ap (from_some next) found in
          let token = after_token t in ground arith
      | inr elsewhere ↦
          let at_c' : s.current c ≡ some t = rw (elsewhere) at (sym (after_current c) ∙ at_c) in
          let held = is.claimed c t c_lt at_c' in
          let held_old = is.claimed cpu old small runs in
          let unclaimed = ready_token cpu (s.slots next) ready in
          let not_next : (next == t) ≡ false = ground arith in
          let not_old : (old == t) ≡ false = ground arith in
          after_token t ∙ rw (not_next, not_old) held
    ];
  }

  after-Switched :
      cpu < 32
      → s.current cpu ≡ some old
      → is_ready cpu (s.slots next) ≡ true
      → IsExclusive s
      → Switched cpu old next s after
  unfolding hand_over claim
  after-Switched small runs ready is = record {
    runs = let self : (cpu == cpu) ≡ true = ground arith in rw (self) refl;
    token = let token = after_token next in ground arith;
    freed = let token = after_token old in ground arith;
    others = λ c elsewhere. let apart : (cpu == c) ≡ false = ground arith in rw (apart) refl;
    ring = after_next;
    left = refl;
    exclusive = after-IsExclusive small runs ready is;
  }

-- On a CPU that runs `old`, in a ring of 65 threads at most where each CPU has claimed the thread
-- that it runs, `sched_yield` returns: it switches to the first thread of the ring after `old` that
-- is runnable, unclaimed and not bound to another CPU, or changes nothing where there is none. After
-- a switch each CPU has still claimed the thread that it runs, and only this one runs another.
pub sched_yield-Yields :
    (cpu old : ℕ) (s : Threads) (ts : List ℕ)
    → cpu < 32
    → s.current cpu ≡ some old
    → Leads s (s.slots old).next ts old
    → length ts < 65
    → IsExclusive s
    → Yields cpu old s ts (sched_yield false cpu s)
unfolding sched_yield switch_to
sched_yield-Yields cpu old s ts small runs leads few is =
    elim (Option-cases (first_ready cpu s ts)) [
      | inl idle ↦
          let self : (old == old) ≡ true = ground arith in
          rw (runs, pick_next_lem cpu old s ts leads few, idle, self) (stays idle)
      | inr (next, found) ↦
          let other = first_ready-other cpu old s (s.slots old).next ts next leads found in
          let apart : (next == old) ≡ false = ground arith in
          let ready = first_ready-ready cpu s ts next found in
          rw (runs, pick_next_lem cpu old s ts leads few, found, apart)
            (switches next (hand_over cpu old next (claim cpu next s)) found
              (after-Switched cpu old next s other small runs ready is))
    ]
