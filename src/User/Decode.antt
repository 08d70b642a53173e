-- ===== src/User/Decode.antt =====
-- The instructions of the i386 that the program of kernel/user_bringup.c is made of, and the system
-- calls that a program of them makes.
use verve_os.Base.{
  ℕ, zero, suc, ◌+◌, ◌-◌, ◌*◌, ◌/◌, ◌%◌, ◌^◌, ◌<◌, ◌≡◌, refl, List, [], ◌∷◌, ◌==◌, ◌&&◌, leb, ltb,
  if◌then◌else◌, u8, Option, none, some, arith,
}
use verve_os.Syscall.{Frame}
use verve_os.User.Bringup.{phase3}

-- Registers by their numbers: 0 `eax`, 1 `ecx`, 2 `edx`, 3 `ebx`, 6 `esi`, 7 `edi`.
pub data Instruction : Type 0 where
  load_word : (reg word : ℕ) → Instruction
  move : (dst src : ℕ) → Instruction
  int_80 : Instruction

abbrev and_then : Instruction → Option (List Instruction) → Option (List Instruction)
and_then i none = none
and_then i (some is) = some (i ∷ is)

-- The word at the head of the bytes, and what follows.
abbrev take_word : List ℕ → Option (ℕ × List ℕ)
take_word (a ∷ b ∷ c ∷ d ∷ rest) = some (a + b * 256 + c * 65536 + d * 16777216, rest)
take_word _ = none

abbrev take_two : ℕ → List ℕ → Option (Instruction × List ℕ)
take_two op [] = none
take_two op (b ∷ rest) =
    if op == 0xcd && b == 0x80
    then some (int_80, rest)
    else if op == 0x89 && leb 0xc0 b
    then some (move (b % 8) (b / 8 % 8), rest)
    else none

abbrev take_one : List ℕ → Option (Instruction × List ℕ)
take_one [] = none
take_one (op ∷ rest) =
    if leb 0xb8 op && ltb op 0xc0
    then elim (take_word rest) [
      | none ↦ none
      | some (w, after) ↦ some (load_word (op - 0xb8) w, after)
    ]
    else take_two op rest

-- Each instruction has a byte at least, so the number of bytes is enough fuel.
unfoldable pub decode : ℕ → List ℕ → Option (List Instruction)
decode fuel [] = some []
decode zero (b ∷ bs) = none
decode (suc fuel) (b ∷ bs) = elim (take_one (b ∷ bs)) [
  | none ↦ none
  | some (i, after) ↦ and_then i (decode fuel after)
]

-- The calls of a program, where `answers` are what they return.
unfoldable pub calls : List Instruction → (ℕ → ℕ) → List ℕ → List Frame
calls [] regs answers = []
calls (load_word r w ∷ is) regs answers = calls is (λ q. if q == r then w else regs q) answers
calls (move d s ∷ is) regs answers = calls is (λ q. if q == d then regs s else regs q) answers
calls (int_80 ∷ is) regs answers =
    record { eax = regs 0; ebx = regs 3; ecx = regs 1; edx = regs 2 }
    ∷ elim answers [ [] ↦ [] | a ∷ more ↦ calls is (λ q. if q == 0 then a else regs q) more ]

abbrev word_at : ℕ → ℕ
word_at w = u8 w + u8 (w / 256) * 256 + u8 (w / 65536) * 65536 + u8 (w / 16777216) * 16777216

word_back : (w : ℕ) → w < 2 ^ 32 → word_at w ≡ w
word_back w h = omega arith

abbrev pub program : (goal path buf msg len : ℕ) → List Instruction
program goal path buf msg len =
    load_word 0 45
    ∷ load_word 3 goal
    ∷ int_80
    ∷ load_word 0 5
    ∷ load_word 3 path
    ∷ int_80
    ∷ move 6 0
    ∷ load_word 0 6
    ∷ move 3 6
    ∷ load_word 1 buf
    ∷ load_word 2 128
    ∷ int_80
    ∷ move 7 0
    ∷ load_word 0 1
    ∷ load_word 3 1
    ∷ load_word 1 buf
    ∷ move 2 7
    ∷ int_80
    ∷ load_word 0 7
    ∷ move 3 6
    ∷ int_80
    ∷ load_word 0 1
    ∷ load_word 3 1
    ∷ load_word 1 msg
    ∷ load_word 2 len
    ∷ int_80
    ∷ load_word 0 2
    ∷ int_80
    ∷ load_word 0 3
    ∷ load_word 3 0
    ∷ int_80
    ∷ []

decoded :
    (goal path buf msg len : ℕ)
    → decode 200 (phase3 goal path buf msg len)
      ≡ some (program (word_at goal) (word_at path) (word_at buf) (word_at msg) (word_at len))
unfolding decode phase3
decoded goal path buf msg len = refl

decode-phase3 :
    (goal path buf msg len : ℕ)
    → goal < 2 ^ 32
    → path < 2 ^ 32
    → buf < 2 ^ 32
    → msg < 2 ^ 32
    → len < 2 ^ 32
    → decode 200 (phase3 goal path buf msg len) ≡ some (program goal path buf msg len)
decode-phase3 goal path buf msg len hg hp hb hm hl =
    rw (word_back goal hg, word_back path hp, word_back buf hb, word_back msg hm, word_back len hl)
      at (decoded goal path buf msg len)

-- The calls that a decoded program makes.
abbrev pub requests : Option (List Instruction) → (ℕ → ℕ) → List ℕ → List Frame
requests none regs answers = []
requests (some is) regs answers = calls is regs answers

abbrev pub request : ℕ → ℕ → ℕ → ℕ → Frame
request eax ebx ecx edx = record { eax = eax; ebx = ebx; ecx = ecx; edx = edx }

-- For 32-bit arguments, whatever the registers hold at the start and whatever the calls answer, the
-- bytes that `emit_user_phase3` writes decode to instructions that make eight calls: `brk` of the
-- goal; `open` of the path; `read` of 128 bytes from the descriptor that `open` gave; `write` of as
-- many bytes of the buffer as `read` gave to descriptor 1; `close` of the descriptor; `write` of the
-- message; `getpid`; and `exit` with 0.
pub phase3-requests :
    (goal path buf msg len : ℕ) (regs : ℕ → ℕ) (broke fd got wrote closed told pid : ℕ)
    → goal < 2 ^ 32
    → path < 2 ^ 32
    → buf < 2 ^ 32
    → msg < 2 ^ 32
    → len < 2 ^ 32
    → requests
        (decode 200 (phase3 goal path buf msg len))
        regs
        (broke ∷ fd ∷ got ∷ wrote ∷ closed ∷ told ∷ pid ∷ [])
      ≡ request 45 goal (regs 1) (regs 2)
        ∷ request 5 path (regs 1) (regs 2)
        ∷ request 6 fd buf 128
        ∷ request 1 1 buf got
        ∷ request 7 fd buf got
        ∷ request 1 1 msg len
        ∷ request 2 1 msg len
        ∷ request 3 0 msg len
        ∷ []
unfolding calls
phase3-requests goal path buf msg len regs broke fd got wrote closed told pid hg hp hb hm hl =
    rw (decode-phase3 goal path buf msg len hg hp hb hm hl) refl
