-- ===== src/Multiboot/Tests.antt =====
-- A memory map with one usable region, and a tag that is passed over.
use pindos.Base.{ℕ, ◌-◌, ◌≡◌, refl, Option, none, some, List, [], ◌∷◌, ◌++◌, arith, get_elem?, take}
use pindos.Acpi.{Bytes, read_u32}
use pindos.Multiboot.{parse_multiboot2_memory_map, tag_loop}
use pindos.Multiboot.Map.{
  AreTags, next_tag, last_tag, map_entries, parse_multiboot2_memory_map-AreTags, tag_loop-endless,
}

abbrev byte_of : Option ℕ → ℕ
byte_of none = 0
byte_of (some b) = b

-- The header, a tag of type 4 and size 16, the map of size 40, and the last tag.
abbrev information : List ℕ
information =
    (72 ∷ 0 ∷ 0 ∷ 0 ∷ 0 ∷ 0 ∷ 0 ∷ 0 ∷ [])
    ++ (4 ∷ 0 ∷ 0 ∷ 0 ∷ 16 ∷ 0 ∷ 0 ∷ 0 ∷ 1 ∷ 1 ∷ 1 ∷ 1 ∷ 1 ∷ 1 ∷ 1 ∷ 1 ∷ [])
    ++ (6 ∷ 0 ∷ 0 ∷ 0 ∷ 40 ∷ 0 ∷ 0 ∷ 0 ∷ 24 ∷ 0 ∷ 0 ∷ 0 ∷ 0 ∷ 0 ∷ 0 ∷ 0 ∷ [])
    ++ (0 ∷ 0 ∷ 16 ∷ 0 ∷ 0 ∷ 0 ∷ 0 ∷ 0 ∷ 0 ∷ 0 ∷ 32 ∷ 0 ∷ 0 ∷ 0 ∷ 0 ∷ 0 ∷ 1 ∷ [])

abbrev memory : Bytes
memory a = byte_of (get_elem? information (a - 4096))

tags : AreTags memory 4168 4104 (4104 ∷ 4120 ∷ [])
unfolding read_u32
tags =
    next_tag 4104 (4120 ∷ []) (omega arith) (λ e. absurd (omega (arith, e))) (omega arith)
      (λ e. absurd (omega (arith, e)))
      (next_tag 4120 [] (omega arith) (λ e. absurd (omega (arith, e))) (omega arith)
        (λ e. omega arith) (last_tag 4160 refl))

total_size : read_u32 memory 4096 ≡ 72
unfolding read_u32
total_size = refl

parse_multiboot2_memory_map-AreTags_example :
    parse_multiboot2_memory_map memory 3 64 4096
    ≡ some (take 64 (map_entries memory (4104 ∷ 4120 ∷ [])))
unfolding read_u32
parse_multiboot2_memory_map-AreTags_example =
    parse_multiboot2_memory_map-AreTags memory 3 64 4096 (4104 ∷ 4120 ∷ []) (omega arith) tags
      (omega arith)

abbrev stuck : Bytes
stuck a = byte_of (get_elem? (9 ∷ []) (a - 8192))

tag_loop-endless_example : tag_loop stuck 100 64 8300 8192 [] ≡ none
unfolding read_u32
tag_loop-endless_example =
    tag_loop-endless stuck 100 64 8300 8192 [] (omega arith) (omega arith)
      (λ e. absurd (omega (arith, e))) (λ e. absurd (omega (arith, e))) refl
