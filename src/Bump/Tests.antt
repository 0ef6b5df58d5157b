-- ===== src/Bump/Tests.antt =====
-- A program with three requests, the second of which is larger than its heap.
use pindos.Base.{◌+◌, ◌≡◌, refl, false, none, some, List, [], ◌∷◌, arith, All}
use pindos.Mm.Heap.{align_up}
use pindos.Bump.{Layout, heap_size, alloc, alloc_placed, is_misplaced, run}
use pindos.Bump.Packed.{IsLayout, ArePacked, run-ArePacked}

abbrev layouts : List Layout
layouts =
    record { size = 10; align = 8 }
    ∷ record { size = 2000000; align = 1 }
    ∷ record { size = 100; align = 64 }
    ∷ []

run_test : run 268435456 0 layouts ≡ some 268435456 ∷ none ∷ some 268435520 ∷ []
unfolding run alloc_placed alloc is_misplaced align_up
run_test = refl

placed : is_misplaced 268435456 ≡ false
unfolding is_misplaced
placed = refl

layouts-AreLayouts : All IsLayout layouts
layouts-AreLayouts = (
  (omega arith, (3, omega arith, refl)),
  ((omega arith, (0, omega arith, refl)), ((omega arith, (6, omega arith, refl)), tt)),
)

run-ArePacked_example :
    ArePacked 268435456 (268435456 + heap_size) layouts (run 268435456 0 layouts)
run-ArePacked_example = run-ArePacked 268435456 layouts placed layouts-AreLayouts
