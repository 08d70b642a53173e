-- ===== src/Paging/Link.antt =====
-- What `paging_map_page` writes: in a table that is there, or in a new one.
use verve_os.Base.{
  true, false, ℕ, ◌+◌, ◌/◌, ◌%◌, ◌^◌, ◌≤◌, ◌<◌, ◌≡◌, ◌≢◌, sym, ◌∙◌, ◌⊎◌, arith, ◌==◌, if◌then◌else◌,
}
use verve_os.Base.Memory.{Mem, Agree}
use verve_os.Pmm.{Pmm, bm_get}
use verve_os.Paging.{entry, set_entry}
use verve_os.Paging.Tables.{IsFrame, Only, entry-set_entry, set_entry-Only}
use verve_os.Paging.Space.{table_of, IsPresent, IsClear, IsTaken, IsSound, IsSpace, bm_get-Only}

-- The old entry `k` of the table at index `i`, 0 where there is no table.
abbrev pub old_entry : Mem → ℕ → ℕ → ℕ → ℕ
old_entry m pd i k = if entry m pd i % 2 == 0 then 0 else entry m (table_of m pd i) k

-- The table `t` at index `i` has the new entry `pte` at `k`.
pub record Linked (pd i k pte t : ℕ) (s s' : Pmm) : Type 0 where
  pub here : IsPresent (entry s'.mem pd i)
  pub points : table_of s'.mem pd i ≡ t
  pub rights : (entry s.mem pd i % 2 == 0) ≡ true → entry s'.mem pd i ≡ t + 3
  pub dirs : (j : ℕ) → j < 1024 → j ≢ i → entry s'.mem pd j ≡ entry s.mem pd j
  pub apart : t ≢ pd
  pub old : (j : ℕ) → j < 1024 → j ≢ i → IsPresent (entry s.mem pd j) → table_of s.mem pd j ≢ t
  pub words :
      (j : ℕ) → j < 1024 → entry s'.mem t j ≡ (if j == k then pte else old_entry s.mem pd i j)
  pub frames : (u : ℕ) → IsTaken u s → u ≢ pd → u ≢ t → Agree s.mem s'.mem u (u + 4096)
  pub taken : IsTaken t s'
  pub kept : (u : ℕ) → IsTaken u s → IsTaken u s'
  pub used : (q : ℕ) → bm_get s q ≡ 1 → bm_get s' q ≡ 1
  pub sound : IsSound s'

module _ (s : Pmm) (t : ℕ) (m' : Mem) (sound : IsSound s) (clear : IsClear t s)
    (same : Only t s.mem m') where
  -- A change inside one frame leaves the allocator as it was.
  pub Only-IsTaken : (u : ℕ) → IsTaken u s → IsTaken u (record s { mem = m' })
  Only-IsTaken u h = record {
    frame = h.frame;
    used = bm_get-Only s t m' (u / 4096) sound.valid clear same ∙ h.used;
    clear = h.clear;
  }

  pub Only-IsSound : IsSound (record s { mem = m' })
  Only-IsSound = record {
    valid = record { covers = sound.valid.covers; in_memory = sound.valid.in_memory };
    high = λ q h. bm_get-Only s t m' q sound.valid clear same ∙ sound.high q h;
    free_clear = λ q h. sound.free_clear q (sym (bm_get-Only s t m' q sound.valid clear same) ∙ h);
  }

pub frame_apart :
    (u t a : ℕ) → IsFrame u → IsFrame t → u ≢ t → u ≤ a → a < u + 4096 → (a < t) ⊎ (t + 4096 ≤ a)
frame_apart u t a hu ht ne lo hi = ground (arith, hu, ht)

present_zero : (e : ℕ) → IsPresent e → (e % 2 == 0) ≡ false
present_zero e h = ground arith

-- The table is there already.
pub Linked-present :
    (s : Pmm) (pd i k pte : ℕ)
    → IsSpace pd s
    → i < 1024
    → k < 1024
    → pte < 2 ^ 32
    → IsPresent (entry s.mem pd i)
    → Linked pd i k pte
        (table_of s.mem pd i)
        s
        (record s { mem = set_entry (table_of s.mem pd i) k pte s.mem })
Linked-present s pd i k pte h hi hk small here =
    let t = table_of s.mem pd i in
    let tt' = h.tables i hi here in
    let ne = h.below i hi here in
    let dir = λ (j : ℕ) (hj : j < 1024).
      entry-set_entry s.mem t k pte pd j tt'.frame h.directory.frame hk hj small in
    let other : (t == pd) ≡ false = ground (arith, ne) in
    let same = set_entry-Only s.mem t k pte tt'.frame hk in
    record {
      here = rw (dir i hi, other) here;
      points = rw (dir i hi, other);
      rights = λ absent. absurd (ground arith);
      dirs = λ j hj ne'. rw (dir j hj, other);
      apart = ne;
      old = λ j hj ne' p. h.distinct j i hj hi ne' p here;
      words = λ j hj. ground (
        arith,
        entry-set_entry s.mem t k pte t j tt'.frame tt'.frame hk hj small,
        present_zero (entry s.mem pd i) here,
      );
      frames = λ u hu np nt a lo bound.
          same a (omega (arith, hu.frame)) (frame_apart u t a hu.frame tt'.frame nt lo bound);
      taken = Only-IsTaken s t _ h.sound tt'.clear same t tt';
      kept = Only-IsTaken s t _ h.sound tt'.clear same;
      used = λ q e. bm_get-Only s t _ q h.sound.valid tt'.clear same ∙ e;
      sound = Only-IsSound s t _ h.sound tt'.clear same;
    }
