-- ===== src/Mm/Paging/Backed.antt =====
-- The allocator behind the tables: a new table is a page that no table is.
use mathlib.Core.Path.{subst}
use pindos.Base.{ℕ, ◌^◌, ◌%◌, ◌<◌, ◌≡◌, refl, ◌≢◌, arith, ◌∙◌, ap, sym, update, update_ne}
use pindos.Mm.Buddy.{BuddyAllocator, block_size, allocate}
use pindos.Mm.Buddy
use pindos.Mm.Buddy.Cover.{FreeLists, cover, within}
use pindos.Mm.Buddy.Free.{IsValid, within_self}
use pindos.Mm.Buddy.Alloc.{AllocateSpec, allocate-AllocateSpec}
use pindos.Mm.Paging
use pindos.Mm.Paging.{
  PageFlags, PhysFrame, Tables, Memory, MapError, Result, ok, err, is_huge, is_present, frame,
  entry_of, table_flags, allocate_frame, descend, split_loop, split_page, split_huge, map_page,
  zero_table, set_entry, and_then,
}
use pindos.Mm.Paging.Walk.{Role, no_table}

-- No page that the allocator still has is a table, and all of them lie below 2 ^ 52.
pub record IsBacked (role : ℕ → Role) (m : Memory) : Type 0 where
  pub fl : FreeLists
  pub valid : IsValid m.allocator fl
  pub free : (p : ℕ) → 0 < cover fl p → (role p ≡ no_table) × (p < 2 ^ 52)

-- A new frame is not in use, and will not be handed out again.
abbrev pub Allocated : (ℕ → Role) → Memory → Result PhysFrame × Memory → Type 0
Allocated role m (ok g, m') =
    (role g ≡ no_table)
    × (g % 4096 ≡ 0)
    × (g < 2 ^ 52)
    × (m'.tables ≡ m.tables)
    × ((r : Role) → IsBacked (update role g r) m')
Allocated role m (err e, m') = (m'.tables ≡ m.tables) × IsBacked role m'

page_size : 0 < block_size 0
unfolding block_size
page_size = omega arith

page_aligned : (size g : ℕ) → size ≡ block_size 0 → g % size ≡ 0 → g % 4096 ≡ 0
unfolding block_size
page_aligned size g e h = rw (sym e) h

pub allocate_frame-Allocated :
    (role : ℕ → Role) (m : Memory) → IsBacked role m → Allocated role m (allocate_frame m)
unfolding allocate_frame
allocate_frame-Allocated role m b =
    go (allocate m.allocator 0) (allocate-AllocateSpec m.allocator b.fl 0 b.valid)
  where
    go :
        (r : Buddy.Result ℕ × BuddyAllocator)
        → AllocateSpec m.allocator b.fl 0 r
        → Allocated role m (elim r.0 as (λ _. Result PhysFrame × Memory) [
          | Buddy.ok f ↦ (ok f, record m { allocator = r.1 })
          | Buddy.err _ ↦ (err Paging.frame_allocation_failed, record m { allocator = r.1 })
        ])
    go (Buddy.err Buddy.invalid_order, s) spec = absurd (omega (arith, spec.0))
    go (Buddy.err Buddy.out_of_memory, s) (_, _, same) = (
      refl,
      record { fl = b.fl; valid = subst (λ x. IsValid x b.fl) (sym same) b.valid; free = b.free },
    )
    go (Buddy.ok g, s) (_, (gl, taken)) =
        let own : within (block_size 0) g g ≡ 1 = within_self (block_size 0) g page_size in
        let was : 0 < cover b.fl g = omega (arith, taken.covered g, own) in
        let gone : cover gl g ≡ 0 =
          omega (arith, taken.covered g, own, b.valid.linked.disjoint g) in
        (
          (b.free g was).0,
          page_aligned (block_size 0) g refl taken.aligned.0,
          (b.free g was).1,
          refl,
          λ r. record {
            fl = gl;
            valid = taken.valid;
            free = λ p h.
                let still : 0 < cover b.fl p = omega (arith, taken.covered p, h) in
                let other : g ≢ p = λ e. absurd (omega (arith, h, gone, ap (λ x. cover gl x) e)) in
                (update_ne role g p r other ∙ (b.free p still).0, (b.free p still).1);
          },
        )
