-- ===== src/Devices/Gdt.antt =====
-- arch/i386/gdt.c: the segments and the task state segment.
pub mod Segments
use verve_os.Base.{
  ℕ, zero, suc, ◌+◌, ◌-◌, ◌*◌, ◌/◌, ◌%◌, ◌^◌, ◌<◌, ◌≡◌, refl, arith, ltb, leb, ◌==◌, if◌then◌else◌,
  u8, u32, ◌>>>◌, bit_and, bit_or,
}
use verve_os.Base.Array.{Array, update}
use verve_os.Base.Memory.{Mem, store8, store32}

pub record GdtEntry : Type 0 where
  pub limit_lo : ℕ
  pub base_lo : ℕ
  pub base_mid : ℕ
  pub access : ℕ
  pub gran : ℕ
  pub base_hi : ℕ

-- `gdt_desc`, the bytes of `g_tss` from 0 on, and the limit that `lgdt` gets.
pub record Gdt : Type 0 where
  pub desc : Array GdtEntry
  pub tss : Mem
  pub limit : ℕ

-- `sizeof(struct tss_i386)`
abbrev pub tss_size : ℕ
tss_size = 104

unfoldable pub gdt_set_gate : (i base limit access gran : ℕ) → Array GdtEntry → Array GdtEntry
gdt_set_gate i base limit access gran desc = update desc i (record {
  limit_lo = bit_and limit 0xffff;
  base_lo = bit_and base 0xffff;
  base_mid = bit_and (base >>> 16) 0xff;
  access = access;
  gran = bit_or (bit_and (limit >>> 16) 0x0f) (bit_and gran 0xf0);
  base_hi = bit_and (base >>> 24) 0xff;
})

unfoldable pub gdt_set_tss : (i base limit : ℕ) → Array GdtEntry → Array GdtEntry
gdt_set_tss i base limit desc = update desc i (record {
  limit_lo = bit_and limit 0xffff;
  base_lo = bit_and base 0xffff;
  base_mid = bit_and (base >>> 16) 0xff;
  access = 0x89;
  gran = bit_and (limit >>> 16) 0x0f;
  base_hi = bit_and (base >>> 24) 0xff;
})

unfoldable pub tss_set_esp0 : ℕ → Gdt → Gdt
tss_set_esp0 esp g = record g { tss = store32 g.tss 4 (u32 esp) }

abbrev null_entry : GdtEntry
null_entry = record { limit_lo = 0; base_lo = 0; base_mid = 0; access = 0; gran = 0; base_hi = 0 }

unfoldable pub clear_desc : ℕ → ℕ → Array GdtEntry → Array GdtEntry
clear_desc zero k desc = desc
clear_desc (suc left) k desc = clear_desc left (k + 1) (update desc k null_entry)

unfoldable pub clear_tss : ℕ → ℕ → Mem → Mem
clear_tss zero j tss = tss
clear_tss (suc left) j tss = clear_tss left (j + 1) (store8 tss j 0)

-- `tss` and `null_kstack` are the addresses of `g_tss` and `g_null_kstack`.
unfoldable pub gdt_init : (tss null_kstack : ℕ) → Gdt → Gdt
gdt_init tss null_kstack g =
    let desc = clear_desc 6 0 g.desc in
    let desc = gdt_set_gate 1 0 0xfffff 0x9a 0xcf desc in
    let desc = gdt_set_gate 2 0 0xfffff 0x92 0xcf desc in
    let desc = gdt_set_gate 3 0 0xfffff 0xfa 0xcf desc in
    let desc = gdt_set_gate 4 0 0xfffff 0xf2 0xcf desc in
    let bytes = clear_tss tss_size 0 g.tss in
    let ss0 = store8 (store8 bytes 8 0x10) 9 0 in
    record {
      desc = gdt_set_tss 5 (u32 tss) (tss_size - 1) desc;
      tss = store32 ss0 4 (u32 (null_kstack + 2048));
      limit = 6 * 8 - 1;
    }
