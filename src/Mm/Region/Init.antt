-- ===== src/Mm/Region/Init.antt =====
-- `init`: the free bytes after the whole memory map.
use pindos.Base.{
  ℕ, ◌+◌, ◌-◌, ◌*◌, ◌/◌, ◌%◌, ◌^◌, ◌≤◌, ◌<◌, ◌≡◌, refl, true, some, List, [], ◌∷◌, All, arith, ltb,
  if◌then◌else◌, bit, Bool-cases, inl, inr, bit_and, ap, ◌∙◌,
}
use pindos.Base.Bits.{bit_and_high}
use pindos.Mm.Buddy.{BuddyAllocator, page_size, add64, new}
use pindos.Mm.Buddy.Cover.{FreeLists, cover, frames, cover-nil, frames-nil}
use pindos.Mm.Buddy.Free.{IsValid}
use pindos.Mm.Region.{MemoryRegion, is_usable, add_memory_region, init, page_mask, ◌>>=◌}
use pindos.Mm.Region.Boot.{KernelImage, handed, Grown, add_memory_region-Grown}

abbrev pub align_down : ℕ → ℕ
align_down x = x / page_size * page_size

abbrev pub align_up : ℕ → ℕ
align_up x = align_down (x + page_size - 1)

-- The mask of `init` rounds down.
pub page_mask_lem : (x : ℕ) → x < 2 ^ 64 → bit_and x page_mask ≡ align_down x
page_mask_lem x h = omega (arith, bit_and_high 12 52 x)

-- Which bytes the regions hand out, and a bound on their pages.
abbrev pub handed_by : ℕ → ℕ → List MemoryRegion → ℕ → ℕ
handed_by kstart kend [] p = 0
handed_by kstart kend (r ∷ rest) p =
    (if is_usable r.kind
      then bit (handed kstart kend (align_up r.start) (align_down r.end) p)
      else 0)
    + handed_by kstart kend rest p

abbrev pub pages_of : List MemoryRegion → ℕ
pages_of [] = 0
pages_of (r ∷ rest) = 2 * (r.end / page_size) + pages_of rest

-- The region lies in the address space, and the loop's rounds suffice for it.
abbrev pub IsListed : ℕ → MemoryRegion → Type 0
IsListed rounds r = (r.start + page_size ≤ 2 ^ 64) × (r.end < 2 ^ 64) × (r.end / page_size < rounds)

abbrev pub nothing : FreeLists
nothing _ = []

pub new-IsValid : IsValid new nothing
new-IsValid = record {
  linked = record {
    chain = λ k h. refl;
    aligned = λ k. tt;
    disjoint = λ p. omega (arith, cover-nil p);
  };
  counted = omega (arith, frames-nil);
}

module _ (kstart kend fuel rounds : ℕ) (image : KernelImage kstart kend) where
  -- One region of the map.
  region-Grown :
      (s : BuddyAllocator) (fl : FreeLists) (a b : ℕ)
      → a + page_size ≤ 2 ^ 64
      → b < 2 ^ 64
      → b / page_size < rounds
      → frames fl + 2 * (b / page_size) < fuel
      → IsValid s fl
      → ((p : ℕ) → bit (handed kstart kend (align_up a) (align_down b) p) + cover fl p ≤ 1)
      → (t : BuddyAllocator) × (gl : FreeLists) × ((if ltb (align_up a) (align_down b)
            then add_memory_region kstart kend fuel rounds s (align_up a) (align_down b)
            else some s)
          ≡ some t)
        × Grown s fl
            (λ p. bit (handed kstart kend (align_up a) (align_down b) p))
            (2 * (b / page_size))
            t
            gl
  region-Grown s fl a b ha hb h e v free = elim (Bool-cases (ltb (align_up a) (align_down b))) [
    | inl go ↦
        let (t, gl, run, r) =
          add_memory_region-Grown kstart kend fuel rounds image s fl (align_up a) (align_down b)
            (omega arith) (omega arith) (omega arith) (omega arith) (omega arith) v free in
        (
          t,
          gl,
          rw go run,
          record {
            valid = r.valid;
            covered = r.covered;
            budget = omega (arith, r.budget);
            total = r.total;
          },
        )
    | inr empty ↦ (
      s,
      fl,
      rw empty,
      record {
        valid = v;
        covered = λ p. ground (arith, empty);
        budget = omega arith;
        total = refl;
      },
    )
  ]

  -- The masks of `init` are the rounding of one region.
  init-step :
      (s t : BuddyAllocator) (region : MemoryRegion) (rest : List MemoryRegion)
      → IsListed rounds region
      → is_usable region.kind ≡ true
      → (if ltb (align_up region.start) (align_down region.end)
          then add_memory_region kstart kend fuel rounds s
              (align_up region.start)
              (align_down region.end)
          else some s)
        ≡ some t
      → init kstart kend fuel rounds s (region ∷ rest) ≡ init kstart kend fuel rounds t rest
  unfolding init
  init-step s t region rest here usable run =
      let start : bit_and (add64 region.start (page_size - 1)) page_mask ≡ align_up region.start =
        page_mask_lem (add64 region.start (page_size - 1)) (omega arith)
        ∙ ap align_down (omega (arith, here.0)) in
      let end : bit_and region.end page_mask ≡ align_down region.end =
        page_mask_lem region.end here.1 in
      rw (usable, start, end, run, ◌>>=◌) refl

  init-Grown :
      (regions : List MemoryRegion) (s : BuddyAllocator) (fl : FreeLists)
      → All (IsListed rounds) regions
      → frames fl + pages_of regions < fuel
      → IsValid s fl
      → ((p : ℕ) → handed_by kstart kend regions p + cover fl p ≤ 1)
      → (t : BuddyAllocator) × (gl : FreeLists) × (init kstart kend fuel rounds s regions ≡ some t)
        × Grown s fl (handed_by kstart kend regions) (pages_of regions) t gl
  unfolding init
  init-Grown [] s fl listed e v free = (
    s,
    fl,
    refl,
    record { valid = v; covered = λ p. omega arith; budget = omega arith; total = refl },
  )
  init-Grown (region ∷ rest) s fl (here, later) e v free =
      elim (Bool-cases (is_usable region.kind)) [
        | inr other ↦
            let (t, gl, run, r) =
              init-Grown rest s fl later (omega arith) v (λ p. ground (arith, other, free p)) in
            (
              t,
              gl,
              rw other run,
              record {
                valid = r.valid;
                covered = λ p. ground (arith, other, r.covered p);
                budget = omega (arith, r.budget);
                total = r.total;
              },
            )
        | inl usable ↦
            let (t, gl, run, r) =
              region-Grown s fl region.start region.end here.0 here.1 here.2 (omega arith) v
                (λ p. ground (arith, usable, free p)) in
            let (u, hl, run', q) =
              init-Grown rest t gl later (omega (arith, r.budget)) r.valid
                (λ p. ground (arith, usable, r.covered p, free p)) in
            (
              u,
              hl,
              init-step s t region rest here usable run ∙ run',
              record {
                valid = q.valid;
                covered = λ p. ground (arith, usable, r.covered p, q.covered p);
                budget = omega (arith, r.budget, q.budget);
                total = omega (arith, r.total, q.total);
              },
            )
      ]

  -- For a kernel image between page boundaries, `init` of a new allocator returns for every memory map whose usable regions lie in the address
  -- space and hand out no byte twice, with one round of fuel for every page and one for every block
  -- of a region. The free bytes are then exactly those of the whole pages of the usable regions,
  -- less page 0 and the kernel's image; no two free blocks overlap, and both page counters hold the
  -- free pages.
  pub init-new :
      (regions : List MemoryRegion)
      → All (IsListed rounds) regions
      → pages_of regions < fuel
      → ((p : ℕ) → handed_by kstart kend regions p ≤ 1)
      → (t : BuddyAllocator) × (gl : FreeLists) × (init kstart kend fuel rounds new regions
          ≡ some t)
        × IsValid t gl
        × ((p : ℕ) → cover gl p ≡ handed_by kstart kend regions p)
        × (t.total_frames % 2 ^ 64 ≡ frames gl % 2 ^ 64)
  init-new regions listed e once =
      let (t, gl, run, r) =
        init-Grown regions new nothing listed (omega (arith, frames-nil)) new-IsValid
          (λ p. omega (arith, cover-nil p, once p)) in
      (
        t,
        gl,
        run,
        r.valid,
        (λ p. omega (arith, cover-nil p, r.covered p)),
        omega (arith, frames-nil, r.total),
      )
