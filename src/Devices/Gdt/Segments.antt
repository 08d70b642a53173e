-- ===== src/Devices/Gdt/Segments.antt =====
-- The descriptors as the processor reads them.
use verve_os.Base.{
  ℕ, ◌+◌, ◌-◌, ◌*◌, ◌/◌, ◌%◌, ◌^◌, ◌<◌, ◌≡◌, refl, ◌∙◌, arith, inr, ◌==◌, if◌then◌else◌, u32, ◌>>>◌,
  bit_and,
}
use verve_os.Base.Bits.{bit_and_ones}
use verve_os.Base.Memory.{Mem, load8, store8, load32, load32-store32, load32-store32_ne}
use verve_os.Devices.Gdt.{
  GdtEntry, Gdt, gdt_set_gate, gdt_set_tss, tss_set_esp0, clear_desc, clear_tss, gdt_init,
}

pub record Segment : Type 0 where
  pub base : ℕ
  pub limit : ℕ
  pub access : ℕ
  pub flags : ℕ

-- The limit counts pages of 4096 bytes where bit 3 of the flags is set.
abbrev pub segment : GdtEntry → Segment
segment e =
    let limit = e.limit_lo + e.gran % 16 * 2 ^ 16 in
    record {
      base = e.base_lo + e.base_mid * 2 ^ 16 + e.base_hi * 2 ^ 24;
      limit = if e.gran / 128 % 2 == 1 then limit * 4096 + 4095 else limit;
      access = e.access;
      flags = e.gran / 16;
    }

abbrev pub flat : ℕ → Segment
flat access = record { base = 0; limit = 2 ^ 32 - 1; access = access; flags = 12 }

-- The null segment, code and data of the kernel, code and data of programs, and the task state.
pub record IsFlat (tss null_kstack : ℕ) (g : Gdt) : Type 0 where
  pub null : segment (g.desc 0) ≡ record { base = 0; limit = 0; access = 0; flags = 0 }
  pub kernel_code : segment (g.desc 1) ≡ flat 0x9a
  pub kernel_data : segment (g.desc 2) ≡ flat 0x92
  pub user_code : segment (g.desc 3) ≡ flat 0xfa
  pub user_data : segment (g.desc 4) ≡ flat 0xf2
  pub task : segment (g.desc 5) ≡ record { base = u32 tss; limit = 103; access = 0x89; flags = 0 }
  pub esp0 : load32 g.tss 4 ≡ u32 (null_kstack + 2048)
  pub ss0 : load32 g.tss 8 ≡ 0x10
  pub limit : g.limit ≡ 47

base_lem :
    (b : ℕ)
    → b < 2 ^ 32
    → bit_and b 0xffff + bit_and (b >>> 16) 0xff * 2 ^ 16 + bit_and (b >>> 24) 0xff * 2 ^ 24 ≡ b
base_lem b h =
    omega (arith, bit_and_ones 16 b, bit_and_ones 8 (b >>> 16), bit_and_ones 8 (b >>> 24))

abbrev cleared : Gdt → Mem
cleared g = store8 (store8 (clear_tss 104 0 g.tss) 8 0x10) 9 0

stack_segment : (g : Gdt) → load32 (cleared g) 8 ≡ 0x10
unfolding load32 load8 store8 clear_tss
stack_segment g = refl

-- Whatever the tables held, after `gdt_init` the descriptors are the null one, flat segments of 4 GiB
-- for code and data of rings 0 and 3, and the task state segment of 104 bytes, whose stack for ring 0
-- is the end of `g_null_kstack` in the data segment of the kernel.
pub gdt_init-IsFlat :
    (tss null_kstack : ℕ) (g : Gdt) → IsFlat tss null_kstack (gdt_init tss null_kstack g)
unfolding gdt_init gdt_set_gate gdt_set_tss clear_desc
gdt_init-IsFlat tss null_kstack g = record {
  null = refl;
  kernel_code = refl;
  kernel_data = refl;
  user_code = refl;
  user_data = refl;
  task = rw (base_lem (u32 tss) (omega arith)) refl;
  esp0 = load32-store32 (cleared g) 4 (u32 (null_kstack + 2048)) (omega arith) (omega arith);
  ss0 =
      load32-store32_ne (cleared g) 4 (u32 (null_kstack + 2048)) (omega arith) 8 (omega arith)
        (inr (omega arith))
      ∙ stack_segment g;
  limit = refl;
}

-- `tss_set_esp0` changes only the stack for ring 0.
pub tss_set_esp0_lem :
    (tss null_kstack esp : ℕ) (g : Gdt)
    → IsFlat tss null_kstack g
    → esp < 2 ^ 32
    → (load32 (tss_set_esp0 esp g).tss 4 ≡ esp) × (load32 (tss_set_esp0 esp g).tss 8 ≡ 0x10)
unfolding tss_set_esp0
tss_set_esp0_lem tss null_kstack esp g flat h =
    let same : u32 esp ≡ esp = omega arith in
    rw same (
      load32-store32 g.tss 4 esp (omega arith) h,
      load32-store32_ne g.tss 4 esp (omega arith) 8 (omega arith) (inr (omega arith)) ∙ flat.ss0,
    )
