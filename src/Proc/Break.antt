-- ===== src/Proc/Break.antt =====
-- `verve_proc_sys_brk`: the pages that the heap gets.
use verve_os.Base.{
  false, ℕ, ◌+◌, ◌*◌, ◌/◌, ◌%◌, ◌^◌, ◌≤◌, ◌<◌, ◌≡◌, ◌≢◌, refl, sym, ◌∙◌, ap, inl, inr, ◌⊎◌, arith,
  ◌==◌, Bool-cases, if◌then◌else◌, some,
}
use verve_os.Pmm.{Pmm, bm_get}
use verve_os.Pmm.Bitmap.{Within, bm_get-lt}
use verve_os.Paging.{Machine, pte_fetch_pd}
use verve_os.Paging.Space.{IsSpace}
use verve_os.Proc.Space.{Within-IsSpace, Within-fetch}

-- The pages from `va` up to `to` are mapped now, each to a frame of its own that was free.
pub record Grown (pd va to : ℕ) (s s' : Machine) : Type 0 where
  pub frame : ℕ → ℕ
  pub new_pages :
      (p : ℕ)
      → p % 4096 ≡ 0
      → va ≤ p
      → p < to
      → pte_fetch_pd s'.pmm.mem pd p ≡ some (frame p * 4096 + 7)
  pub was_free : (p : ℕ) → p % 4096 ≡ 0 → va ≤ p → p < to → bm_get s.pmm (frame p) ≡ 0
  pub distinct :
      (p q : ℕ) → p % 4096 ≡ 0 → q % 4096 ≡ 0 → va ≤ p → p < q → q < to → frame p ≢ frame q
  pub outside :
      (v : ℕ)
      → v < 2 ^ 32
      → (v < va) ⊎ (to ≤ v)
      → pte_fetch_pd s'.pmm.mem pd v ≡ pte_fetch_pd s.pmm.mem pd v
  pub space : IsSpace pd s'.pmm
  pub used : (q : ℕ) → bm_get s.pmm q ≡ 1 → bm_get s'.pmm q ≡ 1
  pub same : s' ≡ record s { pmm = s'.pmm }

-- One round that maps the page `va`.
pub record Round (pd va pfn : ℕ) (s s' : Machine) : Type 0 where
  pub was_free : bm_get s.pmm pfn ≡ 0
  pub is_used : bm_get s'.pmm pfn ≡ 1
  pub fetch :
      (v : ℕ)
      → v < 2 ^ 32
      → pte_fetch_pd s'.pmm.mem pd v
        ≡ (if v / 4096 == va / 4096 then some (pfn * 4096 + 7) else pte_fetch_pd s.pmm.mem pd v)
  pub used : (q : ℕ) → bm_get s.pmm q ≡ 1 → bm_get s'.pmm q ≡ 1
  pub same : s' ≡ record s { pmm = s'.pmm }

was_free_before :
    {pd va pfn : ℕ} {s s' : Machine} (r : Round pd va pfn s s') (q : ℕ)
    → bm_get s'.pmm q ≡ 0
    → bm_get s.pmm q ≡ 0
was_free_before {s} r q e = ground (arith, bm_get-lt s.pmm q, r.used q)

pub Grown-Round :
    {pd va pfn to : ℕ} {s s₁ s₂ : Machine}
    → va % 4096 ≡ 0
    → va + 4096 ≤ to
    → to < 2 ^ 32
    → to % 4096 ≡ 0
    → Round pd va pfn s s₁
    → Grown pd (va + 4096) to s₁ s₂
    → Grown pd va to s s₂
Grown-Round {pd} {va} {pfn} {to} {s} {s₁} {s₂} al room small hto r g = record {
  frame = λ p. if p == va then pfn else g.frame p;
  new_pages = λ p hp lo hi. elim (Bool-cases (p == va)) [
    | inl here ↦
        let at : p ≡ va = ground (arith, here) in
        rw here (g.outside p (omega arith) (inl (omega arith)) ∙ ground (arith, r.fetch p, at))
    | inr later ↦ rw later (g.new_pages p hp (ground (arith, later)) hi)
  ];
  was_free = λ p hp lo hi. elim (Bool-cases (p == va)) [
    | inl here ↦ rw here r.was_free
    | inr later ↦
        rw later (was_free_before r (g.frame p) (g.was_free p hp (ground (arith, later)) hi))
  ];
  distinct = λ p q hp hq lo lt hi. elim (Bool-cases (p == va)) [
    | inl here ↦
        let other : (q == va) ≡ false = ground (arith, here) in
        let free = g.was_free q hq (ground (arith, here)) hi in
        rw (here, other) (λ e. absurd (omega (arith, r.is_used, ap (bm_get s₁.pmm) e, free)))
    | inr later ↦
        let other : (q == va) ≡ false = ground (arith, later) in
        rw (later, other) (g.distinct p q hp hq (ground (arith, later)) lt hi)
  ];
  outside = λ v hv out. g.outside v hv (ground arith) ∙ ground (arith, r.fetch v);
  space = g.space;
  used = λ q e. g.used q (r.used q e);
  same = g.same ∙ ap (λ (m : Machine). record m { pmm = s₂.pmm }) r.same;
}

-- No page is mapped, and the same frames are in use.
pub Grown-none :
    (pd va : ℕ) (s : Machine) (p : Pmm)
    → IsSpace pd s.pmm
    → Within s.pmm p
    → ((q : ℕ) → bm_get p q ≡ bm_get s.pmm q)
    → Grown pd va va s (record s { pmm = p })
Grown-none pd va s p h w same =
    let used = λ (q : ℕ) (e : bm_get s.pmm q ≡ 1). same q ∙ e in
    let free = λ (q : ℕ) (e : bm_get p q ≡ 0). sym (same q) ∙ e in
    record {
      frame = λ p. 0;
      new_pages = λ p hp lo hi. absurd (omega arith);
      was_free = λ p hp lo hi. absurd (omega arith);
      distinct = λ p q hp hq lo lt hi. absurd (omega arith);
      outside = λ v hv out. Within-fetch h w used free v hv;
      space = Within-IsSpace h w used free;
      used = used;
      same = refl;
    }
