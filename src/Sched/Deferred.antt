-- ===== src/Sched/Deferred.antt =====
-- `sched_process_deferred`: what a call returns, changes and prints.
use native.Mathlib.Nat.{zero-add}
use verve_os.Base.{
  ℕ, ◌≡◌, ◌≢◌, refl, ap, ◌∙◌, true, false, ◌&&◌, Option, some, if◌then◌else◌, List, arith,
  Bool-cases, inl, inr, ◌==◌, length,
}
use verve_os.Base.Array.{update}
use verve_os.Sched.{Sched, Drain, cpu_ix, report, finish_drain, process_deferred}
use verve_os.Sched.Ring.{IsValid, pending}
use verve_os.Sched.Loop.{Drained, last_of, drain-Drained}

-- The line that a call prints tells the count and the newest of the ticks that waited, and how many
-- were dropped; there is none if there is nothing to tell.
abbrev pub told : ℕ → Sched → List ℕ
told c s =
    if length (pending c s) == 0 && s.defer_overflow c == 0
    then s.serial
    else report (s.defer_overflow c)
        (record { state = s; drained = length (pending c s); last_tick = last_of 0 (pending c s) })
        s.serial

report_same :
    (ovf ovf' : ℕ) (d d' : Drain) (out out' : List ℕ)
    → ovf ≡ ovf'
    → d.drained ≡ d'.drained
    → d.last_tick ≡ d'.last_tick
    → out ≡ out'
    → report ovf d out ≡ report ovf' d' out'
unfolding report
report_same ovf ovf' d d' out out' o e f same = rw (o, e, f, same)

-- What a call on CPU index `c` leaves: an empty ring and no overflow there, the count of what
-- waited as its result, what it printed, and all else as before.
pub record Processed (c : ℕ) (s : Sched) (r : Option (ℕ × Sched)) : Type 0 where
  pub after : Sched
  pub returns : r ≡ some (length (pending c s), after)
  pub same : after ≡ record s {
    defer_r = after.defer_r;
    defer_overflow = update s.defer_overflow c 0;
    serial = after.serial;
  }
  pub output : after.serial ≡ told c s
  pub empty : after.defer_r c ≡ s.defer_w c
  pub others : (j : ℕ) → j ≢ c → after.defer_r j ≡ s.defer_r j

module _ (c : ℕ) (s : Sched) {r : Option Drain}
    (h : Drained c (record { state = s; drained = 0; last_tick = 0 }) r) where
  -- The call's result, whatever it has printed.
  silent_or_not :
      (out : List ℕ) (n : ℕ)
      → n ≡ h.final.drained
      → out ≡ told c s
      → Processed c s (
          some (
            n,
            record h.final.state {
              defer_overflow = update h.final.state.defer_overflow c 0;
              serial = out;
            },
          ))
  silent_or_not out n e printed =
      let fs = h.final.state in
      record {
        after = record fs { defer_overflow = update fs.defer_overflow c 0; serial = out };
        returns =
            ap
              (λ (k : ℕ).
                some (k, record fs { defer_overflow = update fs.defer_overflow c 0; serial = out }))
              (e ∙ h.count ∙ zero-add _);
        same =
            ap
              (λ (t : Sched). record t {
                defer_r = fs.defer_r;
                defer_overflow = update t.defer_overflow c 0;
                serial = out;
              })
              h.same;
        output = printed;
        empty = h.empty;
        others = h.others;
      }

  overflow_same : h.final.state.defer_overflow c ≡ s.defer_overflow c
  overflow_same = ap (λ (t : Sched). t.defer_overflow c) h.same

  serial_same : h.final.state.serial ≡ s.serial
  serial_same = ap (λ (t : Sched). t.serial) h.same

  count_same : h.final.drained ≡ length (pending c s)
  count_same = h.count ∙ zero-add _

  finish-Processed : Processed c s (some (finish_drain c h.final))
  unfolding finish_drain
  finish-Processed =
      elim (Bool-cases (h.final.drained == 0 && h.final.state.defer_overflow c == 0)) [
        | inl quiet ↦ rw quiet (
            silent_or_not h.final.state.serial 0 (ground arith) (
              let none_told : (length (pending c s) == 0 && s.defer_overflow c == 0) ≡ true =
                rw (count_same, overflow_same) at quiet in
              rw none_told serial_same))
        | inr loud ↦ rw loud (
            silent_or_not _ h.final.drained refl (
              let some_told : (length (pending c s) == 0 && s.defer_overflow c == 0) ≡ false =
                rw (count_same, overflow_same) at loud in
              rw some_told (
                report_same _ (s.defer_overflow c) h.final _ _ s.serial overflow_same count_same
                  h.newest serial_same)))
      ]

-- `sched_process_deferred` returns on every valid ring, with the number of ticks that waited; it has
-- emptied the ring and the overflow counter of its CPU, printed what it found, and changed no more.
pub process_deferred-Processed :
    (cpu : ℕ) (s : Sched)
    → IsValid (cpu_ix cpu) s
    → Processed (cpu_ix cpu) s (process_deferred cpu s)
unfolding process_deferred
process_deferred-Processed cpu s v =
    let c = cpu_ix cpu in
    let h =
      drain-Drained 16 c (record { state = s; drained = 0; last_tick = 0 }) v (omega arith)
        (omega arith) in
    rw (h.returns, process_deferred) (finish-Processed c s h)
