-- ===== src/Loader/Segments.antt =====
-- The loop over the headers: every loadable segment ends up in place.
use pindos.Base.{ℕ, ◌≤◌, ◌<◌, ◌≡◌, refl, List, [], ◌∷◌, All, inl, inr, ◌⊎◌}
use pindos.Mm.Paging.{PageFlags}
use pindos.Mm.Paging.Walk.{Role}
use pindos.Loader.{
  ProgramHeader, SegmentType, loadable, dynamic, other, Space, Outcome, ok, err, panic, fault,
}
use pindos.Loader.Place.{IsShort}
use pindos.Loader.Segment.{Fits, first_page, page_end}
use pindos.Loader.Load.{IsLoaded, Kept, Apart}

pub SegmentType-cases : (t : SegmentType) → (t ≡ loadable) ⊎ (t ≡ dynamic) ⊎ (t ≡ other)
SegmentType-cases loadable = inl refl
SegmentType-cases dynamic = inr (inl refl)
SegmentType-cases other = inr (inr refl)

module _ (bs : List ℕ) (off : ℕ) where
  -- The page `n` belongs to no segment.
  abbrev pub FarFromAll : List ProgramHeader → ℕ → Type 0
  FarFromAll [] n = Unit
  FarFromAll (ph ∷ headers) n =
      (ph.segment_type ≡ loadable → (n < first_page bs off ph) ⊎ (page_end bs off ph ≤ n))
      × FarFromAll headers n

  -- The loadable segments are in range, and no two of them share a page.
  abbrev pub AreLoadable : List ProgramHeader → Type 0
  AreLoadable [] = Unit
  AreLoadable (ph ∷ headers) =
      (ph.segment_type ≡ loadable
        → Fits bs off ph
          × ((n : ℕ) → first_page bs off ph ≤ n → n < page_end bs off ph → FarFromAll headers n))
      × AreLoadable headers

  module _ (page_flags : PageFlags) (pml4 : ℕ) where
    abbrev pub AreLoaded : (ℕ → Role) → (ℕ → Role) → Space → List ProgramHeader → Type 0
    AreLoaded first role s headers =
        All (λ ph. ph.segment_type ≡ loadable → IsLoaded page_flags pml4 bs off first role s ph)
          headers

    abbrev pub Loaded :
        (ℕ → Role) → (ℕ → Role) → Space → List ProgramHeader → Outcome Unit × Space → Type 0
    Loaded first role s headers (ok u, s') =
        (role' : ℕ → Role) × Kept page_flags pml4 bs off first role' s s'
        × Apart page_flags pml4 bs off first role s role' s' (FarFromAll headers)
        × AreLoaded first role' s' headers
    Loaded first role s headers (err e, s') =
        (role' : ℕ → Role) × Kept page_flags pml4 bs off first role' s s'
        × Apart page_flags pml4 bs off first role s role' s' (FarFromAll headers)
        × IsShort e
    Loaded first role s headers (panic, s') = ⊥
    Loaded first role s headers (fault, s') = ⊥
