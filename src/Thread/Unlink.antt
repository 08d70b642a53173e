-- ===== src/Thread/Unlink.antt =====
-- Threads that join the ring and leave it.
use verve_os.Base.{
  true, false, ℕ, zero, suc, ◌≤◌, ◌<◌, ◌≡◌, ◌≢◌, sym, refl, arith, ◌==◌, if◌then◌else◌, List, [],
  ◌∷◌, ◌++◌, length, Option, none, some,
}
use verve_os.Thread.{Threads, main_thread, unlink_after, unlink_loop, unlink_thread, enqueue_thread}
use verve_os.Thread.Ring.{Leads}

-- The thread is not in the list.
abbrev pub IsAway : ℕ → List ℕ → Type 0
IsAway t [] = Unit {0}
IsAway t (u ∷ us) = (u ≢ t) × IsAway t us

abbrev pub AreDistinct : List ℕ → Type 0
AreDistinct [] = Unit {0}
AreDistinct (t ∷ ts) = IsAway t ts × AreDistinct ts

-- The way along a list is that of its links alone.
Leads-same :
    (s s' : Threads) (from : Option ℕ) (ts : List ℕ) (cur p t : ℕ)
    → ((u : ℕ) → u ≢ p → u ≢ t → (s'.slots u).next ≡ (s.slots u).next)
    → IsAway p ts
    → IsAway t ts
    → Leads s from ts cur
    → Leads s' from ts cur
Leads-same s s' from [] cur p t same away_p away_t leads = leads
Leads-same s s' from (u ∷ us) cur p t same (not_p, away_p) (not_t, away_t) (here, other, leads) =
    let rest = Leads-same s s' (s.slots u).next us cur p t same away_p away_t leads in
    (here, other, rw (same u not_p not_t) rest)

after_next :
    (p t : ℕ) (s : Threads) (u : ℕ)
    → t ≢ p
    → ((unlink_after p t s).slots u).next
      ≡ (if t == u then none else if p == u then (s.slots t).next else (s.slots u).next)
unfolding unlink_after
after_next p t s u other = ground arith

-- What `unlink_thread` leaves, seen from `p`, where the list before the thread is `front`.
pub record Unlinked (s : Threads) (p t : ℕ) (front back : List ℕ) (result : Option Threads)
    : Type 0 where
  pub after : Threads
  pub returns : result ≡ some after
  pub linked : Leads after (after.slots p).next (front ++ back) main_thread
  pub alone : (after.slots t).next ≡ none
  pub kept : (u : ℕ) → u ≢ p → IsAway u front → u ≢ t → (after.slots u).next ≡ (s.slots u).next

unlink_here :
    (s : Threads) (p t : ℕ) (back : List ℕ)
    → t ≢ p
    → IsAway p back
    → IsAway t back
    → Leads s (s.slots t).next back main_thread
    → Unlinked s p t [] back (some (unlink_after p t s))
unlink_here s p t back other away_p away_t leads = record {
  after = unlink_after p t s;
  returns = refl;
  linked =
      let at_p : ((unlink_after p t s).slots p).next ≡ (s.slots t).next =
        let changed = after_next p t s p other in ground arith in
      rw at_p (
        Leads-same s (unlink_after p t s) (s.slots t).next back main_thread p t
          (λ u not_p not_t. let at_u = after_next p t s u other in ground arith) away_p away_t
          leads);
  alone = let at_t = after_next p t s t other in ground arith;
  kept = λ u not_p away not_t. let at_u = after_next p t s u other in ground arith;
}

IsAway-middle :
    (u : ℕ) (front : List ℕ) (t : ℕ) (back : List ℕ)
    → IsAway u (front ++ (t ∷ back))
    → IsAway u front × (t ≢ u)
IsAway-middle u [] t back (other, away) = (tt, other)
IsAway-middle u (x ∷ front) t back (not_x, away) =
    let rest = IsAway-middle u front t back away in ((not_x, rest.0), rest.1)

unlink_further :
    (s : Threads) (p q t : ℕ) (front back : List ℕ) (r : Option Threads)
    → (s.slots p).next ≡ some q
    → q ≢ main_thread
    → t ≢ p
    → IsAway p (q ∷ front)
    → Unlinked s q t front back r
    → Unlinked s p t (q ∷ front) back r
unlink_further s p q t front back r next not_main not_t (not_q, away) is =
    let same = is.kept p (λ e. not_q (sym e)) away (λ e. not_t (sym e)) in
    record {
      after = is.after;
      returns = is.returns;
      linked = rw (same, next) (refl, not_main, is.linked);
      alone = is.alone;
      kept = λ u not_p (not_q', away') not_t'. is.kept u (λ e. not_q' (sym e)) away' not_t';
    }

unlink_loop-Unlinked :
    (fuel p t : ℕ) (s : Threads) (front back : List ℕ)
    → Leads s (s.slots p).next (front ++ (t ∷ back)) main_thread
    → IsAway p (front ++ (t ∷ back))
    → AreDistinct (front ++ (t ∷ back))
    → length front < fuel
    → Unlinked s p t front back (unlink_loop fuel p t s)
unfolding unlink_loop
unlink_loop-Unlinked zero p t s front back leads away distinct enough = absurd (omega arith)
unlink_loop-Unlinked (suc fuel) p t s [] back (here, not_main, leads) (not_p, away)
      (away_t, distinct) enough =
    let self : (t == t) ≡ true = ground arith in
    rw (here, self) (unlink_here s p t back not_p away away_t leads)
unlink_loop-Unlinked (suc fuel) p t s (q ∷ front) back (here, not_main, leads) (not_q, away)
      (away_q, distinct) enough =
    let at_p = IsAway-middle p front t back away in
    let at_q = IsAway-middle q front t back away_q in
    let apart : (q == t) ≡ false = ground arith in
    let inner : (q == main_thread) ≡ false = ground arith in
    rw (here, apart, inner)
      (unlink_further s p q t front back _ here not_main at_p.1 (not_q, at_p.0)
        (unlink_loop-Unlinked fuel q t s front back leads away_q distinct (omega arith)))

Leads-IsAway :
    (s : Threads) (from : Option ℕ) (ts : List ℕ) (cur : ℕ) → Leads s from ts cur → IsAway cur ts
Leads-IsAway s from [] cur leads = tt
Leads-IsAway s from (u ∷ us) cur (here, other, leads) =
    (other, Leads-IsAway s (s.slots u).next us cur leads)

-- Where the ring leads from the main thread along distinct threads, one of them `t` and at most 64
-- before it, `unlink_thread` returns: the ring leads along the others in their order, and `t`
-- links to nothing.
pub unlink_thread-Unlinked :
    (t : ℕ) (s : Threads) (front back : List ℕ)
    → Leads s (s.slots main_thread).next (front ++ (t ∷ back)) main_thread
    → AreDistinct (front ++ (t ∷ back))
    → length front ≤ 64
    → Unlinked s main_thread t front back (unlink_thread t s)
unfolding unlink_thread
unlink_thread-Unlinked t s front back leads distinct few =
    unlink_loop-Unlinked 65 main_thread t s front back leads
      (Leads-IsAway s (s.slots main_thread).next (front ++ (t ∷ back)) main_thread leads) distinct
      (omega arith)

enqueued_next :
    (t : ℕ) (s : Threads) (u : ℕ)
    → t ≢ main_thread
    → ((enqueue_thread t s).slots u).next ≡ (
        if main_thread == u
        then some t
        else if t == u
        then (s.slots main_thread).next
        else (s.slots u).next)
unfolding enqueue_thread
enqueued_next t s u other = ground arith

-- `enqueue_thread` puts a thread that is not in the ring right behind the main thread.
pub enqueue_thread-Leads :
    (t : ℕ) (s : Threads) (ts : List ℕ)
    → t ≢ main_thread
    → IsAway t ts
    → Leads s (s.slots main_thread).next ts main_thread
    → Leads (enqueue_thread t s) ((enqueue_thread t s).slots main_thread).next (t ∷ ts) main_thread
unfolding enqueue_thread
enqueue_thread-Leads t s ts other away leads =
    let at_t = enqueued_next t s t other in
    let behind : ((enqueue_thread t s).slots t).next ≡ (s.slots main_thread).next = ground arith in
    let along =
      Leads-same s (enqueue_thread t s) (s.slots main_thread).next ts main_thread main_thread t
        (λ u not_main not_t. let at_u = enqueued_next t s u other in ground arith)
        (Leads-IsAway s (s.slots main_thread).next ts main_thread leads) away leads in
    (refl, other, rw (enqueue_thread, behind) along)
