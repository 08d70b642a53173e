-- ===== src/Devices/Lapic/Send.antt =====
-- Interrupts between CPUs: the words that are written, and the wait for the delivery.
use verve_os.Base.{
  true, ℕ, zero, suc, ◌*◌, ◌^◌, ◌<◌, ◌≡◌, refl, arith, Option, some, List, [], ◌∷◌, ◌++◌, ◌==◌,
  Bool-cases, inl, inr, u32, bit_and, bit_or,
}
use verve_os.Devices.{Log, Answers, read_word, words_written}
use verve_os.Devices.Lapic.{lapic_icr_wait, lapic_send_init, lapic_send_sipi}

-- After `reads` more reads of the command register.
abbrev pub polled : ℕ → Log → Log
polled zero log = log
polled (suc n) log = polled n (read_word 0xfee0_0300 ∷ log)

-- Whenever the driver polls, the delivery is over within `polls` reads.
abbrev pub Delivers : Answers → ℕ → Type 0
Delivers dev polls =
    (log : Log) → (n : ℕ) × (n < polls) × (bit_and (dev.word (polled n log) 0xfee0_0300) 0x1000 ≡ 0)

-- The call returned, and wrote these words.
pub record Sends (words : List (ℕ × ℕ)) (log : Log) (r : Option Log) : Type 0 where
  pub after : Log
  pub returns : r ≡ some after
  pub wrote : words_written after ≡ words ++ words_written log

lapic_icr_wait-Sends :
    (dev : Answers) (fuel n : ℕ) (log : Log)
    → n < fuel
    → bit_and (dev.word (polled n log) 0xfee0_0300) 0x1000 ≡ 0
    → Sends [] log (lapic_icr_wait dev fuel log)
unfolding lapic_icr_wait words_written
lapic_icr_wait-Sends dev zero n log h e = absurd (omega arith)
lapic_icr_wait-Sends dev (suc fuel) zero log h e =
    let over : (bit_and (dev.word log 0xfee0_0300) 0x1000 == 0) ≡ true = ground (arith, e) in
    rw (lapic_icr_wait, over)
      (record { after = read_word 0xfee0_0300 ∷ log; returns = refl; wrote = refl })
lapic_icr_wait-Sends dev (suc fuel) (suc n) log h e =
    let read : Log = read_word 0xfee0_0300 ∷ log in
    elim (Bool-cases (bit_and (dev.word log 0xfee0_0300) 0x1000 == 0)) [
      | inl over ↦ rw (lapic_icr_wait, over) (record { after = read; returns = refl; wrote = refl })
      | inr busy ↦
          let r = lapic_icr_wait-Sends dev fuel n read (omega arith) e in
          rw (lapic_icr_wait, busy)
            (record { after = r.after; returns = r.returns; wrote = r.wrote })
    ]

module _ (dev : Answers) (polls : ℕ) (delivers : Delivers dev polls) (id : ℕ) (log : Log) where
  pub lapic_send_init-Sends :
      Sends
        ((0xfee0_0300, 0x4500) ∷ (0xfee0_0310, u32 (id * 2 ^ 24)) ∷ [])
        log
        (lapic_send_init dev polls id log)
  unfolding lapic_send_init words_written
  lapic_send_init-Sends =
      let (n, h, e) = delivers _ in
      let r = lapic_icr_wait-Sends dev polls n _ h e in
      record { after = r.after; returns = r.returns; wrote = r.wrote }

  pub lapic_send_sipi-Sends :
      (vector : ℕ)
      → Sends
          ((0xfee0_0300, u32 (bit_or 0x600 vector)) ∷ (0xfee0_0310, u32 (id * 2 ^ 24)) ∷ [])
          log
          (lapic_send_sipi dev polls id vector log)
  unfolding lapic_send_sipi words_written
  lapic_send_sipi-Sends vector =
      let (n, h, e) = delivers _ in
      let r = lapic_icr_wait-Sends dev polls n _ h e in
      record { after = r.after; returns = r.returns; wrote = r.wrote }
