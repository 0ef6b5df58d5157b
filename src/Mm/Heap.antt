-- ===== src/Mm/Heap.antt =====
-- hammam/src/mm/heap.rs: the first fit allocator of the kernel's heap.
-- A hole holds its size and the pointer to the next hole at its own address. The list here is the holes
-- in the order of those pointers, each with its address; a pointer that the code overwrites is the rest
-- of the list after its hole. The lock and the static region are left out.
pub mod Fit
pub mod Tests
use pindos.Base.{
  ℕ, ◌+◌, ◌-◌, ◌*◌, ◌%◌, ◌^◌, max, Option, none, some, List, [], ◌∷◌, leb, if◌then◌else◌, bit_and,
}

-- 4 MiB
abbrev pub heap_size : ℕ
heap_size = 4 * 1024 * 1024

-- `size_of::<Hole>()` and `align_of::<Hole>()`
abbrev pub size_of_hole : ℕ
size_of_hole = 24

abbrev pub align_of_hole : ℕ
align_of_hole = 8

pub record Hole : Type 0 where
  pub addr : ℕ
  pub size : ℕ

abbrev pub LinkedHeapAllocator : Type 0
LinkedHeapAllocator = List Hole

pub new : LinkedHeapAllocator
new = []

pub init : LinkedHeapAllocator → ℕ → ℕ → LinkedHeapAllocator
init holes start_addr size = record { addr = start_addr; size = size } ∷ []

-- `(x + align - 1) & !(align - 1)`
unfoldable pub align_up : ℕ → ℕ → ℕ
align_up x align = bit_and ((x + (align - 1)) % 2 ^ 64) (2 ^ 64 - align)

-- What is left of a hole behind a block becomes a hole, if one fits there.
pub remainder : ℕ → ℕ → List Hole → List Hole
remainder addr size rest =
    if leb size_of_hole size then record { addr = addr; size = size } ∷ rest else rest

-- `while let Some(curr) = (*prev).next`
pub fit_loop : LinkedHeapAllocator → ℕ → ℕ → Option (ℕ × LinkedHeapAllocator)
fit_loop [] size align = none
fit_loop (curr ∷ rest) size align =
    let aligned = align_up curr.addr align in
    let padding = (aligned + 2 ^ 64 - curr.addr) % 2 ^ 64 in
    let required = (size + padding) % 2 ^ 64 in
    let more = fit_loop rest size align in
    if leb required curr.size
    then some (aligned, remainder (aligned + size) (curr.size - required) rest)
    else elim more [ none ↦ none | some (found, holes) ↦ some (found, curr ∷ holes) ]

-- The size of a block for a request: whole units of the alignment.
pub block_of : ℕ → ℕ → ℕ
block_of size align = align_up (max size size_of_hole) (max align align_of_hole)

pub alloc_raw : LinkedHeapAllocator → ℕ → ℕ → Option (ℕ × LinkedHeapAllocator)
alloc_raw holes size align = fit_loop holes (block_of size align) (max align align_of_hole)

pub dealloc_raw : LinkedHeapAllocator → ℕ → ℕ → ℕ → LinkedHeapAllocator
dealloc_raw holes ptr size align = record { addr = ptr; size = max size size_of_hole } ∷ holes
