-- ===== src/Pmm/Bitmap.antt =====
-- The bitmap as a set of frames: what one write to it changes.
use verve_os.Base.{
  ℕ, ◌+◌, ◌*◌, ◌/◌, ◌%◌, ◌^◌, ◌≤◌, ◌<◌, ◌≡◌, ◌⊎◌, inl, inr, Bool-cases, ◌&&◌, refl, ◌∙◌, arith, ltb,
  leb, ◌==◌, if◌then◌else◌, u8, ◌<<<◌, not32, bit_and, bit_or,
}
use verve_os.Base.Memory.{load8, store8, load8-store8}
use verve_os.Base.Bits.{
  digit, digit-shift, digit-lt, digit-set_bit, digit-clear_bit, bit_and_seven, bit_and-one,
}
use verve_os.Pmm.{Pmm, byte_address, bm_set, bm_clear, bm_get}

-- The bitmap has a bit for each frame, and lies in the address space.
pub record IsValid (s : Pmm) : Type 0 where
  pub covers : s.frame_count ≤ 8 * s.bitmap_byte_len
  pub in_memory : s.bitmap + s.bitmap_byte_len ≤ 2 ^ 32

-- `bm_get` inside the bitmap, as a digit of a byte.
pub bm_get-digit :
    (s : Pmm) (pfn : ℕ)
    → pfn < s.frame_count
    → bm_get s pfn ≡ digit (load8 s.mem (byte_address s pfn)) (pfn % 8)
unfolding bm_get
bm_get-digit s pfn h = ground (
  arith,
  bit_and_seven pfn,
  bit_and-one (load8 s.mem (byte_address s pfn) / 2 ^ (pfn % 8)),
  digit-shift (load8 s.mem (byte_address s pfn)) (pfn % 8),
)

pub bm_get-outside : (s : Pmm) (pfn : ℕ) → s.frame_count ≤ pfn → bm_get s pfn ≡ 1
unfolding bm_get
bm_get-outside s pfn h = ground arith

-- The address of a byte of the bitmap does not wrap.
pub byte_address_lem :
    {s : Pmm} (pfn : ℕ)
    → IsValid s
    → pfn < s.frame_count
    → (byte_address s pfn ≡ s.bitmap + pfn / 8) × (s.bitmap + pfn / 8 < 2 ^ 32)
byte_address_lem pfn v h = omega arith

module _ (s : Pmm) (p q : ℕ) (v : IsValid s) (hp : p < s.frame_count) (hq : q < s.frame_count) where
  set_inside : bm_get (bm_set s p) q ≡ (if p == q then 1 else bm_get s q)
  unfolding bm_set
  set_inside = ground (
    arith,
    byte_address_lem p v hp,
    byte_address_lem q v hq,
    bm_get-digit (bm_set s p) q,
    bm_get-digit s q,
    bit_and_seven p,
    load8-store8 s.mem (byte_address s p)
        (u8 (bit_or (load8 s.mem (byte_address s p)) (u8 (1 <<< (p % 8))))) (byte_address s q),
    digit-set_bit (load8 s.mem (byte_address s p)) (p % 8) (q % 8),
  )

  clear_inside : bm_get (bm_clear s p) q ≡ (if p == q then 0 else bm_get s q)
  unfolding bm_clear
  clear_inside = ground (
    arith,
    byte_address_lem p v hp,
    byte_address_lem q v hq,
    bm_get-digit (bm_clear s p) q,
    bm_get-digit s q,
    bit_and_seven p,
    load8-store8 s.mem (byte_address s p)
        (u8 (bit_and (load8 s.mem (byte_address s p)) (u8 (not32 (1 <<< (p % 8))))))
        (byte_address s q),
    digit-clear_bit (load8 s.mem (byte_address s p)) (p % 8) (q % 8),
  )

-- `t` differs from `s` in bytes of the bitmap only.
pub record Within (s t : Pmm) : Type 0 where
  pub bitmap : t.bitmap ≡ s.bitmap
  pub byte_len : t.bitmap_byte_len ≡ s.bitmap_byte_len
  pub frame_count : t.frame_count ≡ s.frame_count
  pub outside :
      (a : ℕ)
      → a < 2 ^ 32
      → (a < s.bitmap) ⊎ (s.bitmap + s.bitmap_byte_len ≤ a)
      → load8 t.mem a ≡ load8 s.mem a

pub Within-refl : (s : Pmm) → Within s s
Within-refl s = record {
  bitmap = refl;
  byte_len = refl;
  frame_count = refl;
  outside = λ a h k. refl;
}

pub Within-trans : {s t u : Pmm} → Within s t → Within t u → Within s u
Within-trans f g = record {
  bitmap = g.bitmap ∙ f.bitmap;
  byte_len = g.byte_len ∙ f.byte_len;
  frame_count = g.frame_count ∙ f.frame_count;
  outside = λ a h k. g.outside a h (ground arith) ∙ f.outside a h k;
}

pub Within-IsValid : {s t : Pmm} → Within s t → IsValid s → IsValid t
Within-IsValid f v = ground arith

-- A store into the byte of a frame.
store-Within :
    (s : Pmm) (p w : ℕ)
    → IsValid s
    → p < s.frame_count
    → Within s (record s { mem = store8 s.mem (byte_address s p) w })
store-Within s p w v h = record {
  bitmap = refl;
  byte_len = refl;
  frame_count = refl;
  outside =
      λ a k out. ground (arith, byte_address_lem p v h, load8-store8 s.mem (byte_address s p) w a);
}

pub bm_set-Within : (s : Pmm) (p : ℕ) → IsValid s → Within s (bm_set s p)
unfolding bm_set
bm_set-Within s p v = elim (Bool-cases (leb s.frame_count p)) [
  | inl past ↦ rw past (Within-refl s)
  | inr inside ↦ rw inside (store-Within s p _ v (ground arith))
]

pub bm_clear-Within : (s : Pmm) (p : ℕ) → IsValid s → Within s (bm_clear s p)
unfolding bm_clear
bm_clear-Within s p v = elim (Bool-cases (leb s.frame_count p)) [
  | inl past ↦ rw past (Within-refl s)
  | inr inside ↦ rw inside (store-Within s p _ v (ground arith))
]

bm_set-past : (s : Pmm) (p : ℕ) → s.frame_count ≤ p → bm_set s p ≡ s
unfolding bm_set
bm_set-past s p h = ground arith

bm_clear-past : (s : Pmm) (p : ℕ) → s.frame_count ≤ p → bm_clear s p ≡ s
unfolding bm_clear
bm_clear-past s p h = ground arith

-- The laws of the bitmap as a set: a write changes its own frame, and no other.
pub bm_get-bm_set :
    (s : Pmm) (p q : ℕ) → IsValid s → bm_get (bm_set s p) q ≡ (if p == q then 1 else bm_get s q)
bm_get-bm_set s p q v = ground (
  arith,
  set_inside s p q v,
  bm_set-past s p,
  bm_get-outside s q,
  (bm_set-Within s p v).frame_count,
  bm_get-outside (bm_set s p) q,
)

pub bm_get-bm_clear :
    (s : Pmm) (p q : ℕ)
    → IsValid s
    → bm_get (bm_clear s p) q ≡ (if ltb p s.frame_count && p == q then 0 else bm_get s q)
bm_get-bm_clear s p q v = ground (
  arith,
  clear_inside s p q v,
  bm_clear-past s p,
  bm_get-outside s q,
  (bm_clear-Within s p v).frame_count,
  bm_get-outside (bm_clear s p) q,
)

pub bm_get-lt : (s : Pmm) (p : ℕ) → bm_get s p < 2
bm_get-lt s p =
    ground (
      arith,
      bm_get-outside s p,
      bm_get-digit s p,
      digit-lt (load8 s.mem (byte_address s p)) (p % 8),
    )
