-- ===== src/Sched/Loop.antt =====
-- The loop of `sched_process_deferred` empties the ring of its CPU.
use verve_os.Base.{
  ℕ, zero, suc, ◌+◌, ◌-◌, ◌%◌, ◌^◌, ◌<◌, ◌≡◌, ◌≢◌, refl, ap, sym, ◌∙◌, true, Option, some, List, [],
  ◌∷◌, arith, Bool-cases, inl, inr, ◌==◌, length, u32,
}
use verve_os.Base.Array.{update}
use verve_os.Sched.{Drain, drain, sched_defer_cap}
use verve_os.Sched.Ring.{IsValid, pending, fill}

abbrev pub last_of : ℕ → List ℕ → ℕ
last_of tick [] = tick
last_of tick (x ∷ xs) = last_of x xs

-- What the loop leaves: it returns, has counted the queue, and changed the read index only.
pub record Drained (c : ℕ) (d : Drain) (r : Option Drain) : Type 0 where
  pub final : Drain
  pub returns : r ≡ some final
  pub count : final.drained ≡ d.drained + length (pending c d.state)
  pub newest : final.last_tick ≡ last_of d.last_tick (pending c d.state)
  pub same : final.state ≡ record d.state { defer_r = final.state.defer_r }
  pub empty : final.state.defer_r c ≡ d.state.defer_w c
  pub others : (j : ℕ) → j ≢ c → final.state.defer_r j ≡ d.state.defer_r j

-- One round, as the loop makes it.
abbrev round : ℕ → Drain → Drain
round c d = record {
  state = record d.state {
    defer_r = update d.state.defer_r c (u32 (d.state.defer_r c + 1) % sched_defer_cap);
  };
  drained = u32 (d.drained + 1);
  last_tick = d.state.defer_ring c (d.state.defer_r c);
}

fill-suc :
    (r w : ℕ) → r < 16 → w < 16 → r ≢ w → (w + 16 - r) % 16 ≡ suc ((w + 16 - (r + 1) % 16) % 16)
fill-suc r w hr hw ne = omega arith

pending-round :
    (c : ℕ) (d : Drain)
    → IsValid c d.state
    → d.state.defer_r c ≢ d.state.defer_w c
    → pending c d.state ≡ d.state.defer_ring c (d.state.defer_r c) ∷ pending c (round c d).state
pending-round c d v ne =
    let self : (c == c) ≡ true = ground arith in
    let next : u32 (d.state.defer_r c + 1) % 16 ≡ (d.state.defer_r c + 1) % 16 =
      omega (arith, v.r_in) in
    rw (self, next, fill-suc (d.state.defer_r c) (d.state.defer_w c) v.r_in v.w_in ne)

round-IsValid : (c : ℕ) (d : Drain) → IsValid c d.state → IsValid c (round c d).state
round-IsValid c d v = ground (arith, v)

fill-round :
    (c : ℕ) (d : Drain)
    → IsValid c d.state
    → d.state.defer_r c ≢ d.state.defer_w c
    → fill c d.state ≡ suc (fill c (round c d).state)
fill-round c d v ne =
    let self : (c == c) ≡ true = ground arith in
    let next : u32 (d.state.defer_r c + 1) % 16 ≡ (d.state.defer_r c + 1) % 16 =
      omega (arith, v.r_in) in
    rw (self, next) (fill-suc (d.state.defer_r c) (d.state.defer_w c) v.r_in v.w_in ne)

stop :
    (c : ℕ) (d : Drain)
    → IsValid c d.state
    → d.state.defer_r c ≡ d.state.defer_w c
    → Drained c d (some d)
stop c d v done =
    let none_left : fill c d.state ≡ 0 = omega (arith, v.w_in) in
    record {
      final = d;
      returns = refl;
      count = rw none_left (omega arith);
      newest = rw none_left;
      same = refl;
      empty = done;
      others = λ j ne. refl;
    }

later :
    (c : ℕ) (d : Drain) {r : Option Drain}
    → IsValid c d.state
    → d.state.defer_r c ≢ d.state.defer_w c
    → d.drained + 1 < 2 ^ 32
    → Drained c (round c d) r
    → Drained c d r
later c d v ne small rest =
    let queue = pending-round c d v ne in
    record {
      final = rest.final;
      returns = rest.returns;
      count = omega (arith, rest.count, ap length queue);
      newest = rest.newest ∙ ap (last_of d.last_tick) (sym queue);
      same = rest.same;
      empty = rest.empty;
      others = λ j other. ground (arith, rest.others j other);
    }

pub drain-Drained :
    (fuel c : ℕ) (d : Drain)
    → IsValid c d.state
    → fill c d.state < fuel
    → d.drained + fill c d.state < 2 ^ 32
    → Drained c d (drain fuel c d)
unfolding drain
drain-Drained zero c d v enough small = absurd (omega arith)
drain-Drained (suc fuel) c d v enough small =
    elim (Bool-cases (d.state.defer_r c == d.state.defer_w c)) [
      | inl done ↦ rw done (stop c d v (ground arith))
      | inr more ↦
          let ne : d.state.defer_r c ≢ d.state.defer_w c = ground arith in
          let shorter = fill-round c d v ne in
          rw more (
            later c d v ne (omega (arith, small)) (
              drain-Drained fuel c (round c d) (round-IsValid c d v) (omega (arith, shorter))
                (omega (arith, shorter))))
    ]
