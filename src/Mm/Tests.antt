-- ===== src/Mm/Tests.antt =====
-- The memory components on small inputs.
use pindos.Base.{ℕ, ◌+◌, ◌%◌, ◌^◌, ◌≡◌, refl, true, some, List, [], ◌∷◌, arith}
use pindos.Mm.Buddy.{BuddyAllocator, new}
use pindos.Mm.Buddy.Cover.{FreeLists, cover, frames}
use pindos.Mm.Buddy.Free.{IsValid}
use pindos.Mm.Region.{MemoryRegion, MemoryKind, init}
use pindos.Mm.Region.Boot.{KernelImage}
use pindos.Mm.Region.Init.{handed_by, init-new}
use pindos.Mm.UserPtr.{AddressSpace, write_error}
use pindos.Mm.UserPtr.Pages.{Answered, validate-Answered}

abbrev image : KernelImage 4096 8192
image = record { start_aligned = refl; end_aligned = refl; ordered = omega arith }

-- Four pages, of which the first and the kernel's are not handed out.
abbrev regions : List MemoryRegion
regions = record { start = 0; end = 16384; kind = MemoryKind.usable } ∷ []

init-new_example :
    (t : BuddyAllocator) × (gl : FreeLists) × (init 4096 8192 9 5 new regions ≡ some t)
    × IsValid t gl
    × ((p : ℕ) → cover gl p ≡ handed_by 4096 8192 regions p)
    × (t.total_frames % 2 ^ 64 ≡ frames gl % 2 ^ 64)
init-new_example =
    init-new 4096 8192 9 5 image regions ((omega arith, omega arith, omega arith), tt) (omega arith)
      (λ p. ground arith)

-- All pages are mapped and writable.
abbrev space : AddressSpace
space = record { translate = λ page. some page; translate_flags = λ _. some true }

validate-Answered_example : Answered (write_error space) (2 ^ 35 + 2) 4000 200
validate-Answered_example =
    validate-Answered (write_error space) (2 ^ 35 + 2) 4000 200 (omega arith)
