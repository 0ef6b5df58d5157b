-- ===== src/Mm/Heap/Tests.antt =====
-- A heap with a small hole and a larger one that is not aligned to 64.
use pindos.Base.{◌≡◌, refl, some, [], ◌∷◌, arith}
use pindos.Mm.Heap.{LinkedHeapAllocator, alloc_raw, fit_loop, align_up, remainder, block_of}
use pindos.Mm.Heap.Fit.{Allocated, alloc_raw-Allocated}

abbrev holes : LinkedHeapAllocator
holes = record { addr = 4096; size = 32 } ∷ record { addr = 8200; size = 1024 } ∷ []

alloc_raw_test :
    alloc_raw holes 100 64
    ≡ some (8256, record { addr = 4096; size = 32 } ∷ record { addr = 8384; size = 840 } ∷ [])
unfolding alloc_raw fit_loop align_up remainder block_of
alloc_raw_test = refl

alloc_raw-Allocated_example : Allocated holes 100 64 (alloc_raw holes 100 64)
alloc_raw-Allocated_example =
    alloc_raw-Allocated holes 100 64 6 refl (omega arith) (omega arith)
      (omega arith, (omega arith, tt))
