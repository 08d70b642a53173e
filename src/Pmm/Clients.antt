-- ===== src/Pmm/Clients.antt =====
-- Clients that take frames and give back frames that they hold: no frame is held twice.
use verve_os.Base.{
  ℕ, zero, suc, ◌*◌, ◌/◌, ◌%◌, ◌^◌, ◌<◌, ◌≡◌, ◌≢◌, List, [], ◌∷◌, false, arith, ◌==◌, if◌then◌else◌,
  get_or, ap,
}
use verve_os.Pmm.{Pmm, bm_set, bm_get, alloc_frame, free_frame}
use verve_os.Pmm.Bitmap.{IsValid, Within-IsValid, bm_set-Within, bm_get-bm_set}
use verve_os.Pmm.Alloc.{
  HighUsed, Allocates, exhausted, found, alloc_frame-Allocates, free_frame_lem, free_frame-Within,
}

pub data Request : Type 0 where
  take : Request
  give : ℕ → Request

abbrev pub remove_at : List ℕ → ℕ → List ℕ
remove_at [] i = []
remove_at (a ∷ held) zero = held
remove_at (a ∷ held) (suc i) = a ∷ remove_at held i

abbrev receive : ℕ × Pmm → List ℕ → List ℕ × Pmm
receive (a, s) held = if a == 0 then (held, s) else (a ∷ held, s)

-- `give i` frees the frame in place `i` of those held; past the end it frees address 0.
unfoldable pub serve : List ℕ × Pmm → Request → List ℕ × Pmm
serve (held, s) take = receive (alloc_frame s) held
serve (held, s) (give i) = (remove_at held i, free_frame (get_or held i 0) s)

unfoldable pub serve_all : List ℕ × Pmm → List Request → List ℕ × Pmm
unfolding serve
serve_all c [] = c
serve_all c (r ∷ rs) = serve_all (serve c r) rs

abbrev pub Apart : ℕ → List ℕ → Type 0
Apart a [] = Unit {0}
Apart a (b ∷ held) = (a ≢ b) × Apart a held

-- The addresses held are those of frames below the end but frame 0, marked used, no two the same.
abbrev pub Owned : Pmm → List ℕ → Type 0
Owned s [] = Unit {0}
Owned s (a ∷ held) =
    (a % 4096 ≡ 0)
    × (a ≢ 0)
    × (a / 4096 < s.frame_count)
    × (bm_get s (a / 4096) ≡ 1)
    × Apart a held
    × (a < 2 ^ 32)
    × Owned s held

Apart-remove : (a : ℕ) (held : List ℕ) (i : ℕ) → Apart a held → Apart a (remove_at held i)
Apart-remove a [] i h = tt
Apart-remove a (b ∷ held) zero h = h.1
Apart-remove a (b ∷ held) (suc i) h = (h.0, Apart-remove a held i h.1)

Apart-get : (a : ℕ) (held : List ℕ) (i : ℕ) → Apart a held → a ≢ 0 → a ≢ get_or held i 0
Apart-get a [] i h n = n
Apart-get a (b ∷ held) zero h n = h.0
Apart-get a (b ∷ held) (suc i) h n = Apart-get a held i h.1 n

-- A frame that is free is not among those held.
Apart-free :
    (s : Pmm) (pfn : ℕ) (held : List ℕ) → bm_get s pfn ≡ 0 → Owned s held → Apart (pfn * 4096) held
Apart-free s pfn [] free o = tt
Apart-free s pfn (b ∷ held) free o =
    (λ e. ground (arith, o.3, ap (λ (x : ℕ). x / 4096) e), Apart-free s pfn held free o.6)

Owned-set :
    (s : Pmm) (pfn : ℕ) (held : List ℕ) → IsValid s → Owned s held → Owned (bm_set s pfn) held
Owned-set s pfn [] v o = tt
Owned-set s pfn (a ∷ held) v o = (
  o.0,
  o.1,
  ground (arith, (bm_set-Within s pfn v).frame_count, o.2),
  ground (arith, bm_get-bm_set s pfn (a / 4096) v, o.3),
  o.4,
  o.5,
  Owned-set s pfn held v o.6,
)

-- Freeing an address takes nothing from the frames that it is not.
Owned-free :
    (s : Pmm) (a : ℕ) (held : List ℕ)
    → IsValid s
    → Owned s held
    → Apart a held
    → Owned (free_frame a s) held
Owned-free s a [] v o apart = tt
Owned-free s a (b ∷ held) v o apart = (
  o.0,
  o.1,
  ground (arith, (free_frame-Within a s v).frame_count, o.2),
  ground (arith, free_frame_lem a s (b / 4096) v, o.0, o.3, apart.0),
  o.4,
  o.5,
  Owned-free s a held v o.6 apart.1,
)

Owned-give :
    (s : Pmm) (held : List ℕ) (i : ℕ)
    → IsValid s
    → Owned s held
    → Owned (free_frame (get_or held i 0) s) (remove_at held i)
Owned-give s [] i v o = tt
Owned-give s (a ∷ held) zero v o = Owned-free s a held v o.6 o.4
Owned-give s (a ∷ held) (suc i) v o = (
  o.0,
  o.1,
  ground (arith, (free_frame-Within (get_or held i 0) s v).frame_count, o.2),
  ground (
    arith,
    free_frame_lem (get_or held i 0) s (a / 4096) v,
    o.0,
    o.3,
    Apart-get a held i o.4 o.1,
  ),
  Apart-remove a held i o.4,
  o.5,
  Owned-give s held i v o.6,
)

get-lt : (s : Pmm) (held : List ℕ) (i : ℕ) → Owned s held → get_or held i 0 < 2 ^ 32
get-lt s [] i o = omega arith
get-lt s (a ∷ held) zero o = o.5
get-lt s (a ∷ held) (suc i) o = get-lt s held i o.6

-- What holds between the requests.
pub record IsSound (c : List ℕ × Pmm) : Type 0 where
  pub valid : IsValid c.1
  pub high : HighUsed c.1
  pub owned : Owned c.1 c.0

take-IsSound :
    (held : List ℕ) (s : Pmm) (r : ℕ × Pmm)
    → Allocates s 1 r
    → IsSound (held, s)
    → IsSound (receive r held)
take-IsSound held s r (exhausted e all) c = rw e c
take-IsSound held s r (found pfn e pos below low free before) c =
    let nonzero : (pfn * 4096 == 0) ≡ false = ground arith in
    rw (e, nonzero)
      (record {
        valid = Within-IsValid (bm_set-Within s pfn c.valid) c.valid;
        high = λ q h. ground (arith, bm_get-bm_set s pfn q c.valid, c.high q h);
        owned = (
          omega arith,
          omega arith,
          ground (arith, (bm_set-Within s pfn c.valid).frame_count),
          ground (arith, bm_get-bm_set s pfn (pfn * 4096 / 4096) c.valid),
          Apart-free s pfn held free c.owned,
          omega arith,
          Owned-set s pfn held c.valid c.owned,
        );
      })

pub serve-IsSound : (c : List ℕ × Pmm) (r : Request) → IsSound c → IsSound (serve c r)
unfolding serve
serve-IsSound (held, s) take c =
    take-IsSound held s (alloc_frame s) (alloc_frame-Allocates s c.high) c
serve-IsSound (held, s) (give i) c = record {
  valid = Within-IsValid (free_frame-Within (get_or held i 0) s c.valid) c.valid;
  high = λ q h.
      ground
        (arith, free_frame_lem (get_or held i 0) s q c.valid, get-lt s held i c.owned, c.high q h);
  owned = Owned-give s held i c.valid c.owned;
}

-- Whatever sequence of frames clients take and give back, starting from a valid bitmap with the frames
-- past 4 GiB marked used and holding frames that satisfy this already, the frames that they hold are
-- aligned, not frame 0, below the end, marked used, and no two of them are the same; the bitmap stays
-- valid and the frames past 4 GiB marked used.
pub serve_all-IsSound :
    (c : List ℕ × Pmm) (rs : List Request) → IsSound c → IsSound (serve_all c rs)
unfolding serve_all
serve_all-IsSound c [] h = h
serve_all-IsSound c (r ∷ rs) h = serve_all-IsSound (serve c r) rs (serve-IsSound c r h)
