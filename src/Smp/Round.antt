-- ===== src/Smp/Round.antt =====
-- One round of the loop that starts CPUs.
use verve_os.Base.{
  false, ℕ, ◌+◌, ◌*◌, ◌^◌, ◌≤◌, ◌<◌, ◌≡◌, ◌≢◌, refl, ◌∙◌, arith, inl, inr, Bool-cases, Option, some,
  List, [], ◌∷◌, ◌++◌, ◌==◌, u32,
}
use verve_os.Base.Array.{codes}
use verve_os.Pmm.{Pmm, bm_get, bm_set}
use verve_os.Pmm.Alloc.{exhausted, found, alloc_frame-Allocates}
use verve_os.Devices.{Log, Answers, words_written}
use verve_os.Devices.Lapic.Send.{Delivers, Sends, lapic_send_init-Sends, lapic_send_sipi-Sends}
use verve_os.Smp.{Smp, print_number, mail_store, wake, start_one}
use verve_os.Smp.Mail.{IsMailed, SameFrames, mail_store-SameFrames, bm_set-IsMailed}

-- A CPU that was started, and the frame of its stack.
pub record Boot : Type 0 where
  pub id : ℕ
  pub frame : ℕ

abbrev pub NoFrameFree : Pmm → Type 0
NoFrameFree s = (q : ℕ) → 1 ≤ q → q < s.frame_count → bm_get s q ≡ 1

-- The words for one CPU, the newest first: the mailbox with the directory, the end of the stack and the
-- entry; then `INIT` and two `SIPI` with page 8 to its identifier.
abbrev pub ipi : ℕ → ℕ → List (ℕ × ℕ)
ipi id order = (0xfee0_0300, order) ∷ (0xfee0_0310, u32 (id * 2 ^ 24)) ∷ []

abbrev pub boot_words : ℕ → ℕ → Boot → List (ℕ × ℕ)
boot_words cr3 entry b =
    ipi b.id 0x608
    ++ ipi b.id 0x608
    ++ ipi b.id 0x4500
    ++ (0x9008, u32 entry) ∷ (0x9004, u32 (b.frame * 4096 + 4096)) ∷ (0x9000, u32 cr3) ∷ []

wake-Sends :
    (dev : Answers) (polls id : ℕ) (log : Log)
    → Delivers dev polls
    → Sends (ipi id 0x608 ++ ipi id 0x608 ++ ipi id 0x4500) log (wake dev polls id log)
unfolding wake
wake-Sends dev polls id log delivers =
    let one = lapic_send_init-Sends dev polls delivers id log in
    let two = lapic_send_sipi-Sends dev polls delivers id one.after 8 in
    let three = lapic_send_sipi-Sends dev polls delivers id two.after 8 in
    rw (wake, one.returns, two.returns)
      (record {
        after = three.after;
        returns = three.returns;
        wrote = three.wrote ∙ rw (two.wrote, one.wrote) refl;
      })

-- What one round does.
pub data Starts (entry bsp id : ℕ) (s : Smp) : Option Smp → Type 0 where
  is_first : id ≡ bsp → Starts entry bsp id s (some s)
  lacks :
      (out : List ℕ)
      → id ≢ bsp
      → NoFrameFree s.machine.pmm
      → Starts entry bsp id s (some (record s { machine = record s.machine { serial = out } }))
  woken :
      (q : ℕ) (s' : Smp)
      → id ≢ bsp
      → bm_get s.machine.pmm q ≡ 0
      → SameFrames (bm_set s.machine.pmm q) s'.machine.pmm
      → s'.machine.cr3 ≡ s.machine.cr3
      → words_written s'.log
        ≡ boot_words s.machine.cr3 entry (record { id = id; frame = q }) ++ words_written s.log
      → s'.cpus_online ≡ u32 (s.cpus_online + 1)
      → Starts entry bsp id s (some s')

SameFrames-trans : {s t u : Pmm} → SameFrames s t → SameFrames t u → SameFrames s u
SameFrames-trans a b = record {
  used = λ q. b.used q ∙ a.used q;
  mailed = b.mailed;
  count = b.count ∙ a.count;
}

pub start_one-Starts :
    (dev : Answers) (polls entry bsp id : ℕ) (s : Smp)
    → Delivers dev polls
    → IsMailed s.machine.pmm
    → Starts entry bsp id s (start_one dev polls entry bsp id s)
unfolding start_one words_written mail_store
start_one-Starts dev polls entry bsp id s delivers h = elim (Bool-cases (id == bsp)) [
  | inl first ↦ rw first (is_first (ground (arith, first)))
  | inr other ↦ elim (alloc_frame-Allocates s.machine.pmm h.high) [
    | exhausted e all ↦ rw (other, e) (lacks _ (ground (arith, other)) all)
    | found q e lo below small free before ↦
        let given : (q * 4096 == 0) ≡ false = ground arith in
        let top : u32 (u32 (q * 4096 + 4096)) ≡ u32 (q * 4096 + 4096) = omega arith in
        let p₁ = bm_set s.machine.pmm q in
        let h₁ = bm_set-IsMailed s.machine.pmm q h in
        let s₀ : Smp = record s { machine = record s.machine { pmm = p₁ } } in
        let s₁ = mail_store 0 s.machine.cr3 s₀ in
        let s₂ = mail_store 1 (u32 (q * 4096 + 4096)) s₁ in
        let s₃ = mail_store 2 entry s₂ in
        let f₁ = mail_store-SameFrames 0 s.machine.cr3 s₀ (omega arith) h₁ in
        let f₂ = mail_store-SameFrames 1 (u32 (q * 4096 + 4096)) s₁ (omega arith) f₁.mailed in
        let f₃ = mail_store-SameFrames 2 entry s₂ (omega arith) f₂.mailed in
        let sent = wake-Sends dev polls id s₃.log delivers in
        let s' : Smp =
          print_number (codes "[VerveOS] SMP: SIPI sent to APIC id=") id
            (record s₃ { log = sent.after; cpus_online = u32 (s₃.cpus_online + 1) }) in
        rw (other, e, given, sent.returns)
          (woken q s' (ground (arith, other)) free (SameFrames-trans (SameFrames-trans f₁ f₂) f₃)
            refl (sent.wrote ∙ rw top refl) refl)
  ]
]
