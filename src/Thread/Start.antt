-- ===== src/Thread/Start.antt =====
-- kernel/thread.c: new threads, the start of the subsystem, and the end of a thread.
use verve_os.Base.{
  ℕ, zero, suc, ◌+◌, ◌-◌, Bool, true, false, ◌||◌, Option, none, some, List, ltb, leb, ◌==◌,
  if◌then◌else◌, u32,
}
use verve_os.Base.Array.{Array, update, codes}
use verve_os.Base.Memory.{store32}
use verve_os.Heap.{Heap, kmalloc}
use verve_os.Serial.{puts, put_u64_hex}
use verve_os.Thread.{
  unused, runnable, zombie, is_unused, Thread, Threads, Image, put, max_threads, max_smp_cpu,
  stack_size, aff_any, no_token, main_thread, thread_current_slot, thread_set_current_slot,
  enqueue_thread,
}

-- The loop from slot `i` on.
unfoldable pub slot_loop : ℕ → ℕ → Threads → Option ℕ
slot_loop zero i s = none
slot_loop (suc left) i s =
    let rest = slot_loop left (i + 1) s in if is_unused (s.slots i).state then some i else rest

unfoldable pub thread_alloc_slot : Threads → Option ℕ
thread_alloc_slot s = slot_loop max_threads 0 s

unfoldable pub setup_initial_stack : Image → ℕ → Threads → Threads
setup_initial_stack im t s =
    let sp = u32 ((s.slots t).kstack + stack_size) - 20 in
    let m₀ = store32 s.heap.mem sp 0 in
    let m₁ = store32 m₀ (sp + 4) 0 in
    let m₂ = store32 m₁ (sp + 8) 0 in
    let m₃ = store32 m₂ (sp + 12) 0 in
    let m₄ = store32 m₃ (sp + 16) im.thread_trampoline in
    record (put s t (record (s.slots t) { esp = sp })) { heap = record s.heap { mem = m₄ } }

-- A thread that has a stack at `stack` becomes runnable, and joins the ring.
unfoldable pub start_thread : Image → ℕ → ℕ → ℕ → ℕ → Threads → Threads
start_thread im t stack fn affinity s =
    let filled = put s t (record (s.slots t) {
      kstack = stack;
      fn = fn;
      state = runnable;
      affinity_cpu = affinity;
      sched_token = no_token;
    }) in
    setup_initial_stack im t filled

unfoldable pub print : List ℕ → Threads → Threads
print text s = record s { serial = puts text s.serial }

-- `thread_spawn` after `kmalloc` has returned `stack` and the heap.
unfoldable pub spawn_on : Image → ℕ → ℕ → ℕ × Heap → Threads → Threads
spawn_on im t fn (stack, h) s =
    let s₁ = record s { heap = h } in
    if stack == 0
    then print (codes "[VerveOS] thread_spawn: kmalloc(kernel stack) failed\r\n")
        (put s₁ t (record (s₁.slots t) { kstack = 0 }))
    else enqueue_thread t (start_thread im t stack fn aff_any s₁)

unfoldable pub thread_spawn : Image → ℕ → Threads → Option Threads
thread_spawn im fn s =
    let failed = print (codes "[VerveOS] thread_spawn: failed (null or pool full)\r\n") s in
    elim (thread_alloc_slot s) [
      | none ↦ some failed
      | some t ↦
          let spawned : Option Threads = elim (kmalloc im.heap_base stack_size s.heap) [
            | none ↦ none
            | some r ↦ some (spawn_on im t fn r s)
          ] in
          if fn == 0 then some failed else spawned
    ]

abbrev pub empty_thread : Thread
empty_thread = record {
  esp = 0;
  next = none;
  fn = 0;
  state = unused;
  kstack = 0;
  affinity_cpu = aff_any;
  sched_token = no_token;
}

unfoldable pub clear_slots : ℕ → ℕ → Array Thread → Array Thread
clear_slots zero i a = a
clear_slots (suc left) i a = clear_slots left (i + 1) (update a i empty_thread)

unfoldable pub clear_cpus : ℕ → ℕ → Array (Option ℕ) → Array (Option ℕ)
clear_cpus zero k a = a
clear_cpus (suc left) k a = clear_cpus left (k + 1) (update a k none)

-- The part of `thread_subsystem_early_init` before the idle threads.
unfoldable pub reset : Threads → Threads
reset s = record s {
  slots = update (clear_slots max_threads 0 s.slots) main_thread (record empty_thread {
    next = some main_thread;
    state = runnable;
    affinity_cpu = 0;
    sched_token = 0;
  });
  current = update (clear_cpus max_smp_cpu 0 s.current) 0 (some main_thread);
  idle_for_cpu = clear_cpus max_smp_cpu 0 s.idle_for_cpu;
}

-- An idle thread for the CPU `k`: the state, and whether the loop goes on.
unfoldable pub idle_on : Image → ℕ → ℕ → ℕ × Heap → Threads → Bool × Threads
idle_on im t k (stack, h) s =
    let s₁ = record s { heap = h } in
    let s₂ = start_thread im t stack im.ap_idle_fn k s₁ in
    if stack == 0
    then (
      false,
      put (print (codes "[VerveOS] thread: kmalloc idle stack failed\r\n") s₁) t
          (record (s₁.slots t) { kstack = 0; state = unused }),
    )
    else (true, enqueue_thread t (record s₂ { idle_for_cpu = update s₂.idle_for_cpu k (some t) }))

unfoldable pub add_idle : Image → ℕ → Threads → Option (Bool × Threads)
add_idle im k s = elim (thread_alloc_slot s) [
  | none ↦ some (false, print (codes "[VerveOS] thread: idle pool full\r\n") s)
  | some t ↦ elim (kmalloc im.heap_base stack_size s.heap) [
    | none ↦ none
    | some r ↦ some (idle_on im t k r s)
  ]
]

unfoldable pub idle_loop : ℕ → Image → ℕ → Threads → Option Threads
idle_loop zero im k s = some s
idle_loop (suc left) im k s = elim (add_idle im k s) [
  | none ↦ none
  | some (more, s') ↦ let rest = idle_loop left im (k + 1) s' in if more then rest else some s'
]

unfoldable pub thread_subsystem_early_init : Image → ℕ → Threads → Option Threads
thread_subsystem_early_init im logical_cpus s =
    let one = if logical_cpus == 0 then 1 else logical_cpus in
    let lim = if ltb max_smp_cpu one then max_smp_cpu else one in
    elim (idle_loop (lim - 1) im 1 (reset s)) [
      | none ↦ none
      | some s' ↦ some (record s' {
        serial = puts (codes "\r\n") (
            put_u64_hex lim
              (puts (codes "[VerveOS] thread: subsystem early init logical_cpus=") s'.serial));
      })
    ]

unfoldable pub thread_system_init : Image → Threads → Option Threads
thread_system_init im s = thread_subsystem_early_init im 1 s

-- `thread_trampoline` after the thread's function has returned.
unfoldable pub end_thread : ℕ → Threads → Threads
end_thread cpu s = elim (thread_current_slot cpu s) [
  | none ↦ s
  | some self ↦
      if self == main_thread then s else put s self (record (s.slots self) { state = zombie })
]

-- `thread_ap_online` up to its endless loop.
unfoldable pub thread_ap_online : ℕ → Threads → Threads
thread_ap_online ix s = elim (s.idle_for_cpu ix) [
  | none ↦ s
  | some t ↦
      let s₁ = thread_set_current_slot ix (some t) s in
      let s₂ = put s₁ t (record (s₁.slots t) { sched_token = ix }) in
      if ix == 0 || leb max_smp_cpu ix then s else record s₂ {
        serial =
            puts (codes "\r\n")
              (put_u64_hex ix (puts (codes "[VerveOS] thread: AP sched online cpu=") s₂.serial));
      }
]
