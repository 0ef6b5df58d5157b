-- ===== src/Loader/Load.antt =====
-- All segments of a file, one after the other.
use pindos.Base.{false, ℕ, ◌+◌, ◌*◌, ◌/◌, ◌≤◌, ◌<◌, ◌≡◌, ◌≢◌, refl, List, arith, ◌∙◌, ap, sym, ◌⊎◌}
use mathlib.Core.Path.{subst}
use pindos.Mm.Buddy.{add64}
use pindos.Mm.Paging.{PageFlags, Memory, translate}
use pindos.Mm.Paging.Walk.{Role, no_table, IsTree}
use pindos.Mm.Paging.Backed.{IsBacked}
use pindos.Mm.Paging.Address.{page_number}
use pindos.Loader.{
  ProgramHeader, Space, Outcome, ok, err, panic, fault, and_then, byte_at, copy_file, zero_bss,
  num_pages, page_floor, load_segment, map_pages, on_memory, segment_flags,
}
use pindos.Loader.Place.{Keeps, Keeps-trans, IsPlaced, IsAfter, Placed, IsShort}
use pindos.Loader.Pages.{IsPlaced-after, IsPlaced-before, map_pages-Placed}
use pindos.Loader.Store.{HasPage, Returned, address_limit}
use pindos.Loader.Segment.{
  Fits, first_page, page_end, image_byte, page_floor_lem, num_pages_lem, AllPlaced, Filled,
  fill-Filled,
}

module _ (page_flags : PageFlags) (pml4 : ℕ) (bs : List ℕ) (off : ℕ) where
  -- A segment is in place: its addresses have pages that were unused, and read as the file says.
  pub record IsLoaded (first role : ℕ → Role) (s : Space) (ph : ProgramHeader) : Type 0 where
    pub pages :
        (n : ℕ)
        → first_page bs off ph ≤ n
        → n < page_end bs off ph
        → IsPlaced page_flags pml4 first role s.memory.tables n
    pub image :
        (i : ℕ)
        → i < ph.mem_size
        → byte_at page_flags pml4 s (ph.virtual_addr + off + i) ≡ image_byte bs off ph i

  -- What is in use at first is not written, and its tables stay a tree.
  pub record Kept (first role : ℕ → Role) (s s' : Space) : Type 0 where
    pub keeps : Keeps first role
    pub tree : IsTree page_flags role pml4 s'.memory.tables
    pub backed : IsBacked role s'.memory
    pub used : (p : ℕ) → first (p / 4096 * 4096) ≢ no_table → s'.bytes p ≡ s.bytes p

  -- Placed addresses that a set of pages does not contain are where they were, and read as before.
  pub record Apart (first role : ℕ → Role) (s : Space) (role' : ℕ → Role) (s' : Space)
      (far : ℕ → Type 0) : Type 0 where
    pub where_it_was :
        (w : ℕ)
        → far (page_number w)
        → translate page_flags pml4 s'.memory.tables w ≡ translate page_flags pml4 s.memory.tables w
    pub stays :
        (n : ℕ)
        → far n
        → IsPlaced page_flags pml4 first role s.memory.tables n
        → IsPlaced page_flags pml4 first role' s'.memory.tables n
    pub reads :
        (w : ℕ)
        → w < address_limit
        → far (page_number w)
        → HasPage page_flags pml4 first role s w
        → byte_at page_flags pml4 s' w ≡ byte_at page_flags pml4 s w

  -- The page `n` is not one of the segment's.
  abbrev pub FarFrom : ProgramHeader → ℕ → Type 0
  FarFrom ph n = (n < first_page bs off ph) ⊎ (page_end bs off ph ≤ n)

  abbrev pub SegmentLoaded :
      (ℕ → Role) → (ℕ → Role) → Space → ProgramHeader → Outcome Unit × Space → Type 0
  SegmentLoaded first role s ph (ok u, s') =
      (role' : ℕ → Role) × Kept first role' s s'
      × Apart first role s role' s' (FarFrom ph)
      × IsLoaded first role' s' ph
  SegmentLoaded first role s ph (err e, s') =
      (role' : ℕ → Role) × Kept first role' s s'
      × Apart first role s role' s' (FarFrom ph)
      × IsShort e
  SegmentLoaded first role s ph (panic, s') = ⊥
  SegmentLoaded first role s ph (fault, s') = ⊥

  module _ (first role : ℕ → Role) (s : Space) (keeps : Keeps first role) (ph : ProgramHeader)
      (fits : Fits bs off ph) where
    Apart-mapped :
        (role' : ℕ → Role) (m' : Memory)
        → IsAfter page_flags pml4 role s.memory (first_page bs off ph) (page_end bs off ph) role' m'
        → Apart first role s role' (record s { memory = m' }) (FarFrom ph)
    unfolding byte_at
    Apart-mapped role' m' after = record {
      where_it_was = λ w far. after.others w far;
      stays =
          λ n far p. IsPlaced-after page_flags pml4 first role role' s.memory m' _ _ n after far p;
      reads = λ w low far p. rw (after.others w far, byte_at) refl;
    }

    Kept-mapped :
        (role' : ℕ → Role) (m' : Memory)
        → IsAfter page_flags pml4 role s.memory (first_page bs off ph) (page_end bs off ph) role' m'
        → Kept first role' s (record s { memory = m' })
    Kept-mapped role' m' after = record {
      keeps = Keeps-trans keeps after.keeps;
      tree = after.tree;
      backed = after.backed;
      used = λ p u. refl;
    }

    module _ (role' : ℕ → Role) (m' : Memory)
        (after : IsAfter page_flags pml4 role s.memory
          (first_page bs off ph)
          (page_end bs off ph)
          role'
          m')
        (pages : (n : ℕ)
          → first_page bs off ph ≤ n
          → n < page_end bs off ph
          → IsPlaced page_flags pml4 first role' m'.tables n)
        (vaddr : ℕ) (at : vaddr ≡ ph.virtual_addr + off) where
      abbrev mapped : Space
      mapped = record s { memory = m' }

      all_placed : AllPlaced bs off page_flags pml4 first role' ph fits vaddr at mapped
      all_placed w lo hi =
          pages (page_number w) (omega (arith, lo, hi, at, fits.placed))
            (omega (arith, lo, hi, at, fits.placed))

      loaded :
          (s' : Space)
          → Filled bs off page_flags pml4 first role' ph fits vaddr at mapped s'
          → (Kept first role' s s'
              × Apart first role s role' s' (FarFrom ph)
              × IsLoaded first role' s' ph)
      loaded s' f =
          let apart : Apart first role s role' mapped (FarFrom ph) = Apart-mapped role' m' after in
          (
            record {
              keeps = Keeps-trans keeps after.keeps;
              tree = subst (λ m. IsTree page_flags role' pml4 m.tables) (sym f.same) after.tree;
              backed = subst (λ m. IsBacked role' m) (sym f.same) after.backed;
              used = f.used;
            },
            record {
              where_it_was = λ w far.
                  ap (λ m. translate page_flags pml4 m.tables w) f.same ∙ apart.where_it_was w far;
              stays = λ n far p.
                  subst (λ m. IsPlaced page_flags pml4 first role' m.tables n) (sym f.same)
                    (apart.stays n far p);
              reads = λ w low far p.
                  f.others w low (apart.stays (page_number w) far p)
                    (omega (arith, far, low, at, fits.placed))
                  ∙ apart.reads w low far p;
            },
            record {
              pages = λ n lo hi.
                  subst (λ m. IsPlaced page_flags pml4 first role' m.tables n) (sym f.same)
                    (pages n lo hi);
              image =
                  λ i low. ap (λ v. byte_at page_flags pml4 s' (v + i)) (sym at) ∙ f.image i low;
            },
          )

    segment_done :
        (role' : ℕ → Role) (m' : Memory)
        (after : IsAfter page_flags pml4 role s.memory
          (first_page bs off ph)
          (page_end bs off ph)
          role'
          m')
        → ((n : ℕ)
            → first_page bs off ph ≤ n
            → n < page_end bs off ph
            → IsPlaced page_flags pml4 first role' m'.tables n)
        → (vaddr : ℕ) (at : vaddr ≡ ph.virtual_addr + off) (r : Outcome Unit × Space)
        → Returned page_flags pml4 first role'
            (Filled bs off page_flags pml4 first role' ph fits vaddr at (record s { memory = m' }))
            r
        → SegmentLoaded first role s ph r
    segment_done role' m' after placed vaddr at (ok u, s') f =
        let (kept, apart, here) = loaded role' m' after placed vaddr at s' f in
        (role', kept, apart, here)
    segment_done role' m' after placed vaddr at (err e, s') f = elim f [ ]
    segment_done role' m' after placed vaddr at (panic, s') f = f
    segment_done role' m' after placed vaddr at (fault, s') f = f

    vaddr_lem : add64 ph.virtual_addr off ≡ ph.virtual_addr + off
    vaddr_lem = omega (arith, fits.placed)

    floor_lem : page_floor (ph.virtual_addr + off) + 0 * 4096 ≡ first_page bs off ph * 4096
    floor_lem = omega (arith, page_floor_lem (ph.virtual_addr + off) (omega (arith, fits.placed)))

    -- The pages are placed; then the bytes are stored.
    load_after :
        (r : Outcome Unit × Memory) (vaddr : ℕ)
        → vaddr ≡ ph.virtual_addr + off
        → Placed page_flags pml4 role s.memory (first_page bs off ph) (page_end bs off ph) r
        → SegmentLoaded first role s ph (
            and_then (on_memory s r) (λ _ s1.
              and_then
                (copy_file page_flags pml4 false bs ph vaddr s1)
                (λ _ s2. zero_bss page_flags pml4 false ph vaddr s2)))
    unfolding on_memory
    load_after (ok u, m') vaddr at (role', after, pages) =
        let placed : (n : ℕ)
            → first_page bs off ph ≤ n
            → n < page_end bs off ph
            → IsPlaced page_flags pml4 first role' m'.tables n =
          λ n lo hi.
            IsPlaced-before page_flags pml4 first role role' m'.tables n keeps (pages n lo hi) in
        segment_done role' m' after placed vaddr at _ (
          fill-Filled bs off page_flags pml4 first role' ph fits vaddr at (record s { memory = m' })
            (all_placed role' m' after placed vaddr at))
    load_after (err e, m') vaddr at (role', after, short) =
        (role', Kept-mapped role' m' after, Apart-mapped role' m' after, short)
    load_after (panic, m') vaddr at h = h
    load_after (fault, m') vaddr at h = h

    pub load_segment-SegmentLoaded :
        IsTree page_flags role pml4 s.memory.tables
        → IsBacked role s.memory
        → SegmentLoaded first role s ph (load_segment page_flags pml4 false bs off ph s)
    unfolding load_segment
    load_segment-SegmentLoaded tree backed =
        let at : add64 ph.virtual_addr off ≡ ph.virtual_addr + off = vaddr_lem in
        load_after
          (map_pages page_flags pml4 (num_pages (add64 ph.virtual_addr off) ph.mem_size) 0
            (page_floor (add64 ph.virtual_addr off)) (segment_flags page_flags ph) s.memory)
          (add64 ph.virtual_addr off) at
          (subst
            (λ b. Placed page_flags pml4 role s.memory (first_page bs off ph) b (
              map_pages page_flags pml4 (num_pages (add64 ph.virtual_addr off) ph.mem_size) 0
                (page_floor (add64 ph.virtual_addr off)) (segment_flags page_flags ph) s.memory))
            (ap (λ v. first_page bs off ph + num_pages v ph.mem_size) at
              ∙ num_pages_lem (ph.virtual_addr + off) ph.mem_size fits.placed)
            (map_pages-Placed page_flags pml4 (segment_flags page_flags ph) _ _ 0
              (first_page bs off ph) role s.memory
              (ap (λ v. page_floor v + 0 * 4096) at ∙ floor_lem)
              (omega (
                arith,
                at,
                fits.placed,
                num_pages_lem (ph.virtual_addr + off) ph.mem_size fits.placed,
                ap (λ v. num_pages v ph.mem_size) at,
              ))
              tree backed))
