-- ===== src/Mm/Buddy/Tests.antt =====
-- The buddy allocator with one free page.
use pindos.Base.{ℕ, ◌+◌, ◌%◌, ◌<◌, ◌≤◌, ◌≡◌, refl, some, [], ◌∷◌, arith, update}
use pindos.Mm.Buddy.{BuddyAllocator, block_size, push, new, deallocate_internal, allocate}
use pindos.Mm.Buddy.Cover.{
  FreeLists, within, cover, frames-update, frames-nil, cover-nil, cover-update,
}
use pindos.Mm.Buddy.Linked.{IsLinked, IsAligned, push-IsLinked}
use pindos.Mm.Buddy.Free.{IsValid, IsTaken, Freed, deallocate_internal-Freed}
use pindos.Mm.Buddy.Alloc.{AllocateSpec, allocate-AllocateSpec}

abbrev pub nothing : FreeLists
nothing _ = []

abbrev pub one_page : BuddyAllocator
one_page = record (push new 0 4096) { free_frames = 1 }

abbrev pub one_block : FreeLists
one_block = update nothing 0 (4096 ∷ [])

page_aligned : (a : ℕ) → a % 4096 ≡ 0 → a < 65536 → IsAligned (block_size 0) a
unfolding block_size
page_aligned a h b = (h, omega arith)

new-IsLinked : IsLinked new nothing
new-IsLinked = record {
  chain = λ k h. refl;
  aligned = λ k. tt;
  disjoint = λ p. omega (arith, cover-nil p);
}

one_page-IsLinked : IsLinked (push new 0 4096) one_block
unfolding block_size
one_page-IsLinked =
    push-IsLinked new-IsLinked 0 4096 (omega arith) (page_aligned 4096 refl (omega arith))
      (λ p. ground (arith, cover-nil p)) (ground arith)

pub one_page-IsValid : IsValid one_page one_block
one_page-IsValid = record {
  linked = record {
    chain = one_page-IsLinked.chain;
    aligned = one_page-IsLinked.aligned;
    disjoint = one_page-IsLinked.disjoint;
  };
  counted = omega (arith, frames-nil, frames-update nothing 0 (4096 ∷ []) (omega arith));
}

pub cover-one_block : (p : ℕ) → 0 < cover one_block p → (4096 ≤ p) × (p < 8192)
unfolding block_size
cover-one_block p h =
    let listed : cover one_block p + 0 ≡ cover nothing p + (within 4096 4096 p + 0) =
      cover-update nothing 0 (4096 ∷ []) (omega arith) p in
    (ground (arith, cover-nil p, listed, h), ground (arith, cover-nil p, listed, h))

-- The page at 8192 is not free.
other_page_IsTaken : IsTaken one_block 0 8192
unfolding block_size
other_page_IsTaken = record {
  aligned = page_aligned 8192 refl (omega arith);
  apart = λ p.
      let listed : cover one_block p + 0 ≡ cover nothing p + (within 4096 4096 p + 0) =
        cover-update nothing 0 (4096 ∷ []) (omega arith) p in
      ground (arith, cover-nil p, listed);
}

deallocate_internal-Freed_example :
    (t : BuddyAllocator) × (gl : FreeLists) × (deallocate_internal 2 one_page 8192 0 ≡ some t)
    × Freed one_page one_block 0 8192 t gl
deallocate_internal-Freed_example =
    deallocate_internal-Freed 2 one_page one_block 8192 0
      (omega (arith, frames-nil, frames-update nothing 0 (4096 ∷ []) (omega arith))) (omega arith)
      one_page-IsValid other_page_IsTaken

allocate-AllocateSpec_example : AllocateSpec one_page one_block 0 (allocate one_page 0)
allocate-AllocateSpec_example = allocate-AllocateSpec one_page one_block 0 one_page-IsValid
