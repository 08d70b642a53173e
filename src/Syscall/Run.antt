-- ===== src/Syscall/Run.antt =====
-- A program as the sequence of its calls: it gets an answer to each, up to an exit.
use verve_os.Base.{
  ℕ, suc, ◌^◌, ◌<◌, ◌≡◌, false, refl, ap, if◌then◌else◌, inl, inr, arith, ◌==◌, Bool-cases, List,
  [], ◌∷◌, length,
}
use verve_os.Syscall.{Frame, Kernel, returned, halted, hangs, sys_exit, syscall_invoke}
use verve_os.Syscall.Invariant.{IsKernel, syscall_invoke-Returns}

-- The answers that the program received, and how it ended.
pub data Trace : Type 0 where
  finished : List ℕ → Kernel → Trace
  exited : List ℕ → Kernel → Trace
  stuck : Trace

abbrev after_answer : ℕ → Trace → Trace
after_answer n (finished ns k) = finished (n ∷ ns) k
after_answer n (exited ns k) = exited (n ∷ ns) k
after_answer n stuck = stuck

-- The calls are given by the registers at the interrupt.
unfoldable pub run : List Frame → Kernel → Trace
run [] k = finished [] k
run (f ∷ fs) k = elim (syscall_invoke f k) [
  | returned f' k' ↦ after_answer f'.eax (run fs k')
  | halted k' ↦ exited [] k'
  | hangs ↦ stuck
]

abbrev pub AreWords : List Frame → Type 0
AreWords [] = Unit {0}
AreWords (f ∷ fs) = (f.ebx < 2 ^ 32) × (f.ecx < 2 ^ 32) × AreWords fs

-- The calls before the first exit.
abbrev pub before_exit : List Frame → ℕ
before_exit [] = 0
before_exit (f ∷ fs) = if f.eax == 3 then 0 else suc (before_exit fs)

-- The program's end: there was no exit and every call was answered, or every call before the first exit.
-- In the list of answers each call has one.
pub data Ends (fs : List Frame) (t : Trace) : Type 0 where
  answered :
      (ns : List ℕ) (k : Kernel)
      → t ≡ finished ns k
      → length ns ≡ length fs
      → before_exit fs ≡ length fs
      → IsKernel k
      → Ends fs t
  left :
      (ns : List ℕ) (k : Kernel)
      → t ≡ exited ns k
      → length ns ≡ before_exit fs
      → before_exit fs < length fs
      → Ends fs t

Ends-after :
    {f : Frame} {fs : List Frame} (n : ℕ) {t : Trace}
    → (f.eax == 3) ≡ false
    → Ends fs t
    → Ends (f ∷ fs) (after_answer n t)
Ends-after n call (answered ns k e same no_exit h) =
    answered (n ∷ ns) k (ap (after_answer n) e) (ap suc same) (rw call (ap suc no_exit)) h
Ends-after n call (left ns k e same less) =
    left (n ∷ ns) k (ap (after_answer n) e) (rw call (ap suc same)) (rw call (omega arith))

exit_halts : (f : Frame) (k : Kernel) → f.eax ≡ 3 → (k' : Kernel) × (syscall_invoke f k ≡ halted k')
unfolding syscall_invoke
exit_halts f k e = (sys_exit f.ebx k, rw e)

-- From a well-formed kernel state, whatever system calls a program makes, with 32-bit arguments, each
-- check of a user range comes back, and so does each call before the first exit, with an answer: no call
-- hangs. A program that makes no exit ends in a well-formed state.
pub run-Ends : (fs : List Frame) (k : Kernel) → IsKernel k → AreWords fs → Ends fs (run fs k)
unfolding run
run-Ends [] k h w = answered [] k refl refl refl h
run-Ends (f ∷ fs) k h w = elim (Bool-cases (f.eax == 3)) [
  | inl exit ↦
      let (k', e) = exit_halts f k (ground (arith, exit)) in
      rw (e, run) (left [] k' refl (rw exit refl) (rw exit (omega arith)))
  | inr call ↦
      let r = syscall_invoke-Returns f k h (ground (arith, call)) w.0 w.1 in
      rw (r.comes, run) (Ends-after r.result call (run-Ends fs r.after r.valid w.2))
]
