-- ===== src/Thread.antt =====
-- kernel/thread.c: the threads, the ring that links them, and the claims of the CPUs. A pointer to a
-- thread is a number: below 64 an index of `threads`, and 64 for `main_thread`; `none` is `NULL`.
-- `cpu` is what `smp_cpu_index` returns. A claim -1 is its 32-bit value. The code runs under
-- the lock of the ring, so that each operation is one step.
pub mod Start
pub mod Ring
pub mod Yield
pub mod Unlink
pub mod Checkpoint
pub mod Check
pub mod Demo
mod Tests
use verve_os.Base.{
  ℕ, zero, suc, ◌+◌, ◌-◌, Bool, true, false, not, ◌&&◌, ◌||◌, Option, none, some, List, ltb, leb,
  ◌==◌, if◌then◌else◌, u32,
}
use verve_os.Base.Array.{Array, update}
use verve_os.Base.Memory.{store32}
use verve_os.Heap.{Heap, kfree}

pub data ThreadState : Type 0 where
  unused : ThreadState
  runnable : ThreadState
  zombie : ThreadState

-- `state == THREAD_UNUSED`, and the other two tests.
abbrev pub is_unused : ThreadState → Bool
is_unused unused = true
is_unused runnable = false
is_unused zombie = false

abbrev pub is_runnable : ThreadState → Bool
is_runnable unused = false
is_runnable runnable = true
is_runnable zombie = false

abbrev pub is_zombie : ThreadState → Bool
is_zombie unused = false
is_zombie runnable = false
is_zombie zombie = true

pub record Thread : Type 0 where
  pub esp : ℕ
  pub next : Option ℕ
  pub fn : ℕ
  pub state : ThreadState
  pub kstack : ℕ
  pub affinity_cpu : ℕ
  pub sched_token : ℕ

pub record Threads : Type 0 where
  pub slots : Array Thread
  pub current : Array (Option ℕ)
  pub idle_for_cpu : Array (Option ℕ)
  pub yield_from : Option ℕ
  pub heap : Heap
  pub serial : List ℕ

-- The addresses that the linker gives `g_heap` and the two functions.
pub record Image : Type 0 where
  pub heap_base : ℕ
  pub thread_trampoline : ℕ
  pub ap_idle_fn : ℕ

abbrev pub max_threads : ℕ
max_threads = 64

abbrev pub max_smp_cpu : ℕ
max_smp_cpu = 32

abbrev pub stack_size : ℕ
stack_size = 4096

abbrev pub aff_any : ℕ
aff_any = 0xffff_ffff

abbrev pub no_token : ℕ
no_token = 0xffff_ffff

abbrev pub main_thread : ℕ
main_thread = 64

-- `*t = v` for the thread `t`.
abbrev pub put : Threads → ℕ → Thread → Threads
put s t v = record s { slots = update s.slots t v }

unfoldable pub thread_current_slot : ℕ → Threads → Option ℕ
thread_current_slot cpu s = s.current (if leb max_smp_cpu cpu then 0 else cpu)

unfoldable pub thread_set_current_slot : ℕ → Option ℕ → Threads → Threads
thread_set_current_slot ix t s =
    if ltb ix max_smp_cpu then record s { current = update s.current ix t } else s

-- The pointer is to the thread `t`.
abbrev pub points_to : Option ℕ → ℕ → Bool
points_to none t = false
points_to (some p) t = p == t

-- `p->next = t->next; t->next = NULL`
unfoldable pub unlink_after : ℕ → ℕ → Threads → Threads
unlink_after p t s =
    let s₁ = put s p (record (s.slots p) { next = (s.slots t).next }) in
    put s₁ t (record (s₁.slots t) { next = none })

-- The loop of `unlink_thread`, at `p`. `none` means that the fuel ran out or that the ring is broken.
unfoldable pub unlink_loop : ℕ → ℕ → ℕ → Threads → Option Threads
unlink_loop zero p t s = none
unlink_loop (suc fuel) p t s =
    let rest : Option Threads = elim ((s.slots p).next) [
      | none ↦ none
      | some q ↦
          let further = unlink_loop fuel q t s in if q == main_thread then some s else further
    ] in
    if points_to (s.slots p).next t then some (unlink_after p t s) else rest

-- A ring has the 65 threads at most.
unfoldable pub unlink_thread : ℕ → Threads → Option Threads
unlink_thread t s = unlink_loop 65 main_thread t s

-- The end of `thread_reap_yield_from`, after the thread has left the ring.
unfoldable pub release_slot : Image → ℕ → ℕ → Threads → Threads
release_slot im z stk s =
    let freed = put s z (record (s.slots z) { state = unused; kstack = 0 }) in
    record freed { heap = kfree im.heap_base stk freed.heap }

unfoldable pub thread_reap_yield_from : Image → Threads → Option Threads
thread_reap_yield_from im s =
    let s₁ = record s { yield_from = none } in
    elim s.yield_from [
      | none ↦ some s₁
      | some z ↦
          let removed : Option Threads = elim (unlink_thread z s₁) [
            | none ↦ none
            | some s₂ ↦ some (release_slot im z (s.slots z).kstack s₂)
          ] in
          if z == main_thread
          then some s₁
          else if not (is_zombie (s.slots z).state) || (s.slots z).kstack == 0
          then some s₁
          else removed
    ]

unfoldable pub enqueue_thread : ℕ → Threads → Threads
enqueue_thread t s =
    let s₁ = put s t (record (s.slots t) { next = (s.slots main_thread).next }) in
    put s₁ main_thread (record (s₁.slots main_thread) { next = some t })

-- The thread can run on `me`, and no CPU has claimed it.
unfoldable pub is_ready : ℕ → Thread → Bool
is_ready me t =
    is_runnable t.state
    && not (not (t.affinity_cpu == aff_any) && not (t.affinity_cpu == me))
    && t.sched_token == no_token

unfoldable pub claim : ℕ → ℕ → Threads → Threads
claim me t s = put s t (record (s.slots t) { sched_token = me })

-- The loop of `pick_next`, at the pointer `t`.
unfoldable pub pick_loop : ℕ → ℕ → ℕ → Option ℕ → Threads → Option (ℕ × Threads)
pick_loop zero me cur t s = none
pick_loop (suc fuel) me cur none s = none
pick_loop (suc fuel) me cur (some t) s =
    let rest = pick_loop fuel me cur (s.slots t).next s in
    if t == cur
    then some (cur, s)
    else if is_ready me (s.slots t)
    then some (t, claim me t s)
    else rest

unfoldable pub pick_next : ℕ → ℕ → Threads → Option (ℕ × Threads)
pick_next me cur s = pick_loop 65 me cur (s.slots cur).next s

-- A thread that can still run gives up its claim; `g_current` and `g_yield_from` are set.
unfoldable pub hand_over : ℕ → ℕ → ℕ → Threads → Threads
hand_over cpu old next s =
    let token = if is_runnable (s.slots old).state then no_token else (s.slots old).sched_token in
    record s {
      slots = update s.slots old (record (s.slots old) { sched_token = token });
      current = update s.current cpu (some next);
      yield_from = some old;
    }

-- What `sched_yield` does with the thread that `pick_next` gives: the pair for `cpu_switch`, if it
-- is called.
unfoldable pub switch_to : ℕ → ℕ → ℕ × Threads → Option (ℕ × ℕ) × Threads
switch_to cpu old (next, s) =
    if next == old then (none, s) else (some (old, next), hand_over cpu old next s)

-- `sched_yield` up to the switch; `thread_reap_yield_from` is what follows the switch. `disabled`
-- is `sched_preempt_disabled()`.
unfoldable pub sched_yield : Bool → ℕ → Threads → Option (Option (ℕ × ℕ) × Threads)
sched_yield disabled cpu s =
    let pick : Option (Option (ℕ × ℕ) × Threads) = elim (s.current cpu) [
      | none ↦ none
      | some old ↦ elim (pick_next cpu old s) [ none ↦ none | some r ↦ some (switch_to cpu old r) ]
    ] in
    if disabled then some (none, s) else pick
