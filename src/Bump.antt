-- ===== src/Bump.antt =====
-- dealduck/src/allocator.rs and its copies userspace/dealduck/src/allocator.rs and
-- userspace/net-server/src/alloc_impl.rs: the allocators of the programs, which never free.
-- The state is `next`, 0 before the first call. The messages that the first one prints are left out.
pub mod Packed
pub mod Tests
use pindos.Base.{
  ℕ, ◌+◌, ◌-◌, ◌*◌, ◌%◌, ◌^◌, Bool, ◌||◌, Option, none, some, List, [], ◌∷◌, ltb, ◌==◌,
  if◌then◌else◌,
}
use pindos.Mm.Heap.{align_up}

-- 1 MiB
abbrev pub heap_size : ℕ
heap_size = 1024 * 1024

pub record Layout : Type 0 where
  pub size : ℕ
  pub align : ℕ

-- `alloc`: a block or the null pointer, and `next`.
pub alloc : ℕ → ℕ → Layout → Option ℕ × ℕ
alloc heap_start next layout =
    let base = if next == 0 then heap_start else next in
    let aligned = align_up base layout.align in
    let new_next = (aligned + layout.size) % 2 ^ 64 in
    if ltb (heap_start + heap_size) new_next then (none, next) else (some aligned, new_next)

-- The copy of dealduck/src first tests where the linker has put the heap.
pub is_misplaced : ℕ → Bool
is_misplaced heap_start = heap_start == 0 || ltb heap_start (2 ^ 28) || ltb (2 ^ 32 - 1) heap_start

pub alloc_placed : ℕ → ℕ → Layout → Option ℕ × ℕ
alloc_placed heap_start next layout =
    if is_misplaced heap_start then (none, next) else alloc heap_start next layout

-- A program's calls, one after the other.
pub run : ℕ → ℕ → List Layout → List (Option ℕ)
run heap_start next [] = []
run heap_start next (layout ∷ rest) =
    let (block, next') = alloc_placed heap_start next layout in block ∷ run heap_start next' rest
