-- ===== src/Mm/Region/Boot.antt =====
-- `add_memory_region` and `init`: which bytes are free after the memory map has been read.
use pindos.Base.{
  ℕ, ◌+◌, ◌*◌, ◌/◌, ◌%◌, ◌^◌, ◌≤◌, ◌<◌, ◌≡◌, Bool, not, ◌&&◌, some, arith, ltb, leb, bit, min, max,
}
use pindos.Mm.Buddy.{BuddyAllocator, page_size}
use pindos.Mm.Buddy.Cover.{FreeLists, within, cover, frames}
use pindos.Mm.Buddy.Free.{IsValid}
use pindos.Mm.Region.{fill_range, add_memory_region, ◌>>=◌}
use pindos.Mm.Region.Fill.{pages_in, first_page, fill_range-Filled}

-- The kernel's own image starts and ends at page boundaries, as the linker script lays it out.
pub record KernelImage (kstart kend : ℕ) : Type 0 where
  pub start_aligned : kstart % page_size ≡ 0
  pub end_aligned : kend % page_size ≡ 0
  pub ordered : kstart ≤ kend

-- Is the byte `p` of the range handed out: not in page 0 and not in the kernel's image?
abbrev pub handed : ℕ → ℕ → ℕ → ℕ → ℕ → Bool
handed kstart kend a b p =
    leb page_size p && (leb a p && (ltb p b && not (leb kstart p && ltb p kend)))

-- `t` is `s` with the bytes of `g` free, on at most `n` more pages.
pub record Grown (s : BuddyAllocator) (fl : FreeLists) (g : ℕ → ℕ) (n : ℕ) (t : BuddyAllocator)
    (gl : FreeLists) : Type 0 where
  pub valid : IsValid t gl
  pub covered : (p : ℕ) → cover gl p ≡ cover fl p + g p
  pub budget : frames gl ≤ frames fl + n
  pub total : (t.total_frames + frames fl) % 2 ^ 64 ≡ (s.total_frames + frames gl) % 2 ^ 64

-- The whole pages of a range between page boundaries are the range.
whole :
    (a b p : ℕ)
    → a % page_size ≡ 0
    → b % page_size ≡ 0
    → within (pages_in (first_page a) b * page_size) (first_page a) p
      ≡ bit (leb page_size p && (leb a p && ltb p b))
whole a b p ha hb = ground arith

-- One sub-range between page boundaries.
sub_range :
    (fuel rounds : ℕ) (s : BuddyAllocator) (fl : FreeLists) (a b : ℕ)
    → a % page_size ≡ 0
    → b % page_size ≡ 0
    → b < 2 ^ 64
    → b / page_size < rounds
    → frames fl + pages_in a b < fuel
    → IsValid s fl
    → ((p : ℕ) → bit (leb page_size p && (leb a p && ltb p b)) + cover fl p ≤ 1)
    → (t : BuddyAllocator) × (gl : FreeLists) × (fill_range fuel rounds s a b ≡ some t)
      × Grown s fl (λ p. bit (leb page_size p && (leb a p && ltb p b))) (pages_in a b) t gl
sub_range fuel rounds s fl a b ha hb small h e v free =
    let (t, gl, run, r) = fill_range-Filled fuel rounds s fl a b (omega arith) e v (record {
      aligned = ground arith;
      bounded = small;
      apart = λ p. omega (arith, whole a b p ha hb, free p);
    }) in
    (
      t,
      gl,
      run,
      record {
        valid = r.valid;
        covered = λ p. omega (arith, whole a b p ha hb, r.covered p);
        budget =
            let less : pages_in (first_page a) b ≤ pages_in a b = ground arith in
            omega (arith, r.pages);
        total = omega (arith, r.pages, r.total);
      },
    )

module _ (kstart kend fuel rounds : ℕ) (image : KernelImage kstart kend) where
  -- The two sub-ranges are the range less the kernel's image.
  sub_ranges :
      (a b p : ℕ)
      → bit (leb page_size p && (leb a p && ltb p (min b kstart)))
          + bit (leb page_size p && (leb (max a kend) p && ltb p b))
        ≡ bit (handed kstart kend a b p)
  sub_ranges a b p = ground (arith, image.ordered)

  -- `add_memory_region` on a range between page boundaries none of whose bytes to be handed out is
  -- free: it ends, and exactly those bytes become free.
  pub add_memory_region-Grown :
      (s : BuddyAllocator) (fl : FreeLists) (a b : ℕ)
      → a % page_size ≡ 0
      → b % page_size ≡ 0
      → b < 2 ^ 64
      → b / page_size < rounds
      → frames fl + 2 * (b / page_size) < fuel
      → IsValid s fl
      → ((p : ℕ) → bit (handed kstart kend a b p) + cover fl p ≤ 1)
      → (t : BuddyAllocator) × (gl : FreeLists) × (add_memory_region kstart kend fuel rounds s a b
          ≡ some t)
        × Grown s fl (λ p. bit (handed kstart kend a b p)) (2 * (b / page_size)) t gl
  unfolding add_memory_region
  add_memory_region-Grown s fl a b ha hb small h e v free =
      let (t, gl, run, r) =
        sub_range fuel rounds s fl a (min b kstart) ha (ground (arith, hb, image.start_aligned))
          (omega arith) (omega arith) (omega arith) v
          (λ p. omega (arith, sub_ranges a b p, free p)) in
      let (u, hl, run', q) =
        sub_range fuel rounds t gl (max a kend) b (ground (arith, ha, image.end_aligned)) hb small h
          (omega (arith, r.budget)) r.valid
          (λ p. omega (arith, sub_ranges a b p, r.covered p, free p)) in
      (
        u,
        hl,
        rw (run, ◌>>=◌) run',
        record {
          valid = q.valid;
          covered = λ p. omega (arith, sub_ranges a b p, r.covered p, q.covered p);
          budget = omega (arith, r.budget, q.budget);
          total = omega (arith, r.total, q.total);
        },
      )
