-- ===== src/Sched/Start.antt =====
-- What `sched_init` sets up, and the history of a CPU from there.
use verve_os.Base.{
  ℕ, zero, suc, ◌+◌, ◌/◌, ◌^◌, ◌≤◌, ◌<◌, ◌≡◌, some, List, arith, Bool-cases, inl, inr, ◌⊎◌, ◌==◌,
}
use verve_os.Sched.{Sched, cpu_ix, clear_from, sched_init}
use verve_os.Sched.Ring.{IsValid}
use verve_os.Sched.History.{Event, unreported, ticks, run, run-quanta}

-- A CPU that has counted nothing yet.
pub record IsCleared (j : ℕ) (s : Sched) : Type 0 where
  pub tick : s.tick j ≡ 0
  pub need_resched : s.need_resched j ≡ 0
  pub w : s.defer_w j ≡ 0
  pub r : s.defer_r j ≡ 0
  pub overflow : s.defer_overflow j ≡ 0

clear_from-IsCleared :
    (left i j : ℕ) (s : Sched)
    → ((i ≤ j) × (j < i + left)) ⊎ IsCleared j s
    → IsCleared j (clear_from left i s)
unfolding clear_from
clear_from-IsCleared zero i j s (inl h) = absurd (omega arith)
clear_from-IsCleared zero i j s (inr c) = c
clear_from-IsCleared (suc left) i j s h =
    clear_from-IsCleared left (i + 1) j _ (elim (Bool-cases (i == j)) [
      | inl here ↦ inr (record {
        tick = ground (arith, here);
        need_resched = ground (arith, here);
        w = ground (arith, here);
        r = ground (arith, here);
        overflow = ground (arith, here);
      })
      | inr away ↦ elim h [
        | inl ahead ↦ inl (ground (arith, away, ahead), ground (arith, ahead))
        | inr c ↦ inr (record {
          tick = ground (arith, away, c.tick);
          need_resched = ground (arith, away, c.need_resched);
          w = ground (arith, away, c.w);
          r = ground (arith, away, c.r);
          overflow = ground (arith, away, c.overflow);
        })
      ]
    ])

pub sched_init-IsCleared : (j : ℕ) (s : Sched) → j < 32 → IsCleared j (sched_init s)
unfolding sched_init
sched_init-IsCleared j s h =
    let c = clear_from-IsCleared 32 0 j s (inl (omega arith, omega arith)) in
    record { tick = c.tick; need_resched = c.need_resched; w = c.w; r = c.r; overflow = c.overflow }

cpu_ix-lt : (cpu : ℕ) → cpu_ix cpu < 32
unfolding cpu_ix
cpu_ix-lt cpu = ground arith

-- From `sched_init` on, whatever timer interrupts and drains a CPU sees, with less than 2 ^ 32
-- ticks: each drain returns, and of every five ticks one quantum was reported or is unreported.
pub run-sched_init :
    (cpu : ℕ) (s : Sched) (es : List Event)
    → ticks es < 2 ^ 32
    → (s' : Sched) × (sum : ℕ) × (run cpu (sched_init s, 0) es ≡ some (s', sum))
      × (sum + unreported (cpu_ix cpu) s' ≡ ticks es / 5)
run-sched_init cpu s es h =
    let c = sched_init-IsCleared (cpu_ix cpu) s (cpu_ix-lt cpu) in
    let valid : IsValid (cpu_ix cpu) (sched_init s) = record {
      w_in = omega (arith, c.w);
      r_in = omega (arith, c.r);
    } in
    let fresh : unreported (cpu_ix cpu) (sched_init s) ≡ 0 = rw (c.w, c.r, c.overflow) in
    let (s', sum, returns, total) =
      run-quanta cpu (sched_init s) 0 es valid (omega (arith, c.tick)) (omega (arith, fresh)) in
    (s', sum, returns, omega (arith, total, fresh, c.tick))
