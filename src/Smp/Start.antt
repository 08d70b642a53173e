-- ===== src/Smp/Start.antt =====
-- The start of the other CPUs: what is written, in which order, and with which stacks.
use verve_os.Base.{
  true, false, ℕ, ◌+◌, ◌^◌, ◌<◌, ◌≡◌, ◌≢◌, refl, ◌∙◌, ap, arith, inl, inr, ◌⊎◌, Option, none, some,
  List, [], ◌∷◌, ◌++◌, append_assoc, ◌==◌, if◌then◌else◌, u32, length,
}
use verve_os.Pmm.{Pmm, bm_get}
use verve_os.Pmm.Bitmap.{bm_get-bm_set, bm_set-Within}
use verve_os.Devices.{Answers, words_written}
use verve_os.Devices.Lapic.Send.{Delivers}
use verve_os.Smp.{Smp, start_one, start_all}
use verve_os.Smp.Mail.{IsMailed}
use verve_os.Smp.Round.{
  Boot, NoFrameFree, boot_words, Starts, is_first, lacks, woken, start_one-Starts,
}

-- For several CPUs, the first one at the end.
abbrev pub all_words : ℕ → ℕ → List Boot → List (ℕ × ℕ)
all_words cr3 entry [] = []
all_words cr3 entry (b ∷ bs) = all_words cr3 entry bs ++ boot_words cr3 entry b

-- The identifiers but that of the first CPU.
abbrev pub others : ℕ → List ℕ → List ℕ
others bsp [] = []
others bsp (id ∷ ids) = if id == bsp then others bsp ids else id ∷ others bsp ids

abbrev pub ids_of : List Boot → List ℕ
ids_of [] = []
ids_of (b ∷ bs) = b.id ∷ ids_of bs

abbrev pub IsAwayFrom : ℕ → List Boot → Type 0
IsAwayFrom q [] = Unit {0}
IsAwayFrom q (b ∷ bs) = (q ≢ b.frame) × IsAwayFrom q bs

-- Stacks that were free in `s`, are in use in `u`, and are all different.
abbrev pub AreFresh : Pmm → Pmm → List Boot → Type 0
AreFresh s u [] = Unit {0}
AreFresh s u (b ∷ bs) =
    (bm_get s b.frame ≡ 0) × (bm_get u b.frame ≡ 1) × IsAwayFrom b.frame bs × AreFresh s u bs

-- A list without some of the entries of another one, in its order.
pub data IsSublist : List ℕ → List ℕ → Type 0 where
  both_empty : IsSublist [] []
  keeps : {x : ℕ} {xs ys : List ℕ} → IsSublist xs ys → IsSublist (x ∷ xs) (x ∷ ys)
  skips : {y : ℕ} {xs ys : List ℕ} → IsSublist xs ys → IsSublist xs (y ∷ ys)

pub record Boots (entry bsp : ℕ) (ids : List ℕ) (s : Smp) (r : Option Smp) : Type 0 where
  pub after : Smp
  pub returns : r ≡ some after
  pub boots : List Boot
  pub wrote : words_written after.log ≡ all_words s.machine.cr3 entry boots ++ words_written s.log
  pub online : after.cpus_online ≡ u32 (s.cpus_online + length boots)
  pub fresh : AreFresh s.machine.pmm after.machine.pmm boots
  pub in_order : IsSublist (ids_of boots) (others bsp ids)
  pub everyone : (ids_of boots ≡ others bsp ids) ⊎ NoFrameFree after.machine.pmm
  pub used : (q : ℕ) → bm_get s.machine.pmm q ≡ 1 → bm_get after.machine.pmm q ≡ 1
  pub count : after.machine.pmm.frame_count ≡ s.machine.pmm.frame_count

fresh-woken :
    (s t u : Pmm) (q : ℕ) (bs : List Boot)
    → ((x : ℕ) → bm_get t x ≡ 0 → (q ≢ x) × (bm_get s x ≡ 0))
    → AreFresh t u bs
    → IsAwayFrom q bs × AreFresh s u bs
fresh-woken s t u q [] before fresh = (record {}, record {})
fresh-woken s t u q (b ∷ bs) before (free, used, away, more) =
    let rest = fresh-woken s t u q bs before more in
    (((before _ free).0, rest.0), ((before _ free).1, used, away, rest.1))

-- One round and the rest of the loop.
after_round :
    (entry bsp id : ℕ) (ids : List ℕ) (s : Smp) (dev : Answers) (polls : ℕ)
    → s.cpus_online < 2 ^ 32
    → (r : Option Smp) → Starts entry bsp id s r
    → IsMailed s.machine.pmm
    → ((s' : Smp)
        → IsMailed s'.machine.pmm
        → s'.cpus_online < 2 ^ 32
        → Boots entry bsp ids s' (start_all dev polls entry bsp ids s'))
    → Boots entry bsp
        (id ∷ ids)
        s
        (elim r [ none ↦ none | some s' ↦ start_all dev polls entry bsp ids s' ])
after_round entry bsp id ids s dev polls small _ (is_first e) h rest =
    let same : (id == bsp) ≡ true = ground arith in
    let b = rest s h small in
    record {
      after = b.after;
      returns = b.returns;
      boots = b.boots;
      wrote = b.wrote;
      online = b.online;
      fresh = b.fresh;
      in_order = rw same b.in_order;
      everyone = rw same b.everyone;
      used = b.used;
      count = b.count;
    }
after_round entry bsp id ids s dev polls small _ (lacks out ne all) h rest =
    let b = rest (record s { machine = record s.machine { serial = out } }) h small in
    let other : (id == bsp) ≡ false = ground arith in
    record {
      after = b.after;
      returns = b.returns;
      boots = b.boots;
      wrote = b.wrote;
      online = b.online;
      fresh = b.fresh;
      in_order = rw other (skips b.in_order);
      everyone = inr (λ q lo hi. b.used q (all q lo (omega (arith, hi, b.count))));
      used = b.used;
      count = b.count;
    }
after_round entry bsp id ids s dev polls small _ (woken q s' ne free same cr3 words online) h rest =
    let b = rest s' same.mailed (omega (arith, online)) in
    let other : (id == bsp) ≡ false = ground arith in
    let now : (x : ℕ) → bm_get s'.machine.pmm x ≡ (if q == x then 1 else bm_get s.machine.pmm x) =
      λ x. same.used x ∙ bm_get-bm_set s.machine.pmm q x h.valid in
    let before : (x : ℕ) → bm_get s'.machine.pmm x ≡ 0 → (q ≢ x) × (bm_get s.machine.pmm x ≡ 0) =
      λ x e. (λ eq. absurd (ground (arith, now x, e, eq)), ground (arith, now x, e)) in
    let stays : (x : ℕ) → bm_get s.machine.pmm x ≡ 1 → bm_get s'.machine.pmm x ≡ 1 =
      λ x e. ground (arith, now x, e) in
    let here : Boot = record { id = id; frame = q } in
    let fresh =
      fresh-woken s.machine.pmm s'.machine.pmm b.after.machine.pmm q b.boots before b.fresh in
    record {
      after = b.after;
      returns = b.returns;
      boots = here ∷ b.boots;
      wrote =
          b.wrote
          ∙ ap (λ (c : ℕ). all_words c entry b.boots ++ words_written s'.log) cr3
          ∙ rw (words, append_assoc (all_words s.machine.cr3 entry b.boots)) refl;
      online = omega (arith, b.online, online);
      fresh = (free, b.used q (ground (arith, now q)), fresh.0, fresh.1);
      in_order = rw other (keeps b.in_order);
      everyone = elim b.everyone [ inl e ↦ inl (rw (other, e) refl) | inr all ↦ inr all ];
      used = λ x e. b.used x (stays x e);
      count = b.count ∙ same.count ∙ (bm_set-Within s.machine.pmm q h.valid).frame_count;
    }

-- Where each wait ends within `polls` reads and the mailbox is clear of the bitmap, the loop of `smp_init`
-- returns. It has started CPUs of the list but the first one, in its order, each with a stack of a frame
-- that was free, and all different; for each it wrote the mailbox, `INIT` and two `SIPI`, before those
-- of the next; it counted them. It started all of them, or no frame is free at the end.
pub start_all-Boots :
    (dev : Answers) (polls entry bsp : ℕ) (ids : List ℕ) (s : Smp)
    → Delivers dev polls
    → IsMailed s.machine.pmm
    → s.cpus_online < 2 ^ 32
    → Boots entry bsp ids s (start_all dev polls entry bsp ids s)
unfolding start_all
start_all-Boots dev polls entry bsp [] s delivers h small = record {
  after = s;
  returns = refl;
  boots = [];
  wrote = refl;
  online = omega (arith, small);
  fresh = record {};
  in_order = both_empty;
  everyone = inl refl;
  used = λ q e. e;
  count = refl;
}
start_all-Boots dev polls entry bsp (id ∷ ids) s delivers h small =
    after_round entry bsp id ids s dev polls small (start_one dev polls entry bsp id s)
      (start_one-Starts dev polls entry bsp id s delivers h) h
      (λ s'. start_all-Boots dev polls entry bsp ids s' delivers)
