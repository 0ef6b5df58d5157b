-- ===== src/Multiboot/Map.antt =====
-- The map that is read, against the tags that the memory holds.
use pindos.Base.{
  ℕ, zero, suc, ◌+◌, ◌-◌, ◌*◌, ◌/◌, ◌%◌, ◌^◌, bit_and, ◌≤◌, ◌<◌, ◌≡◌, ◌≢◌, refl, true, false, none,
  some, List, [], ◌∷◌, ◌++◌, arith, ◌∙◌, ap, sym, length, take, take_nil, Bool-cases, inl, inr,
  length-take, length-append, leb, ◌==◌, if◌then◌else◌,
}
use native.Mathlib.Decide.{dec_lt, ℕ_discrete}
use mathlib.Core.List.{append_assoc, append-nil}
use native.Mathlib.Nat.{le-div_iff_mul-le}
use pindos.Base.Bits.{bit_and_high}
use pindos.Mm.Region.{MemoryRegion}
use pindos.Acpi.{Bytes, read_u32}
use pindos.Multiboot.{
  read_entry, entry_loop, read_map, aligned_size, tag_loop, parse_multiboot2_memory_map, add32,
}

-- The multiple of 8 at or above a number.
abbrev pub round_up : ℕ → ℕ
round_up n = (n + 7) / 8 * 8

mod_small : (n : ℕ) → n < 2 ^ 32 - 7 → (n + 7) % 2 ^ 32 ≡ n + 7
mod_small n h = omega (arith, h)

aligned_size_lem : (n : ℕ) → n < 2 ^ 32 - 7 → aligned_size n ≡ round_up n
unfolding aligned_size
aligned_size_lem n h =
    omega
      (arith, bit_and_high 3 29 (n + 7), h, ap (λ (x : ℕ). bit_and x (2 ^ 32 - 8)) (mod_small n h))

module _ {A : Type 0} where
  take-append :
      (n : ℕ) (xs ys : List A) → length xs ≤ n → take n (xs ++ ys) ≡ xs ++ take (n - length xs) ys
  take-append n [] ys h = ap (λ k. take k ys) (omega arith)
  take-append zero (x ∷ xs) ys h = absurd (omega (arith, h))
  take-append (suc n) (x ∷ xs) ys h =
      let e : suc n - suc (length xs) ≡ n - length xs = omega arith in
      rw e (ap (λ l. x ∷ l) (take-append n xs ys (omega (arith, h))))

  take_twice : (n : ℕ) (xs ys : List A) → take n (take n xs ++ ys) ≡ take n (xs ++ ys)
  take_twice zero xs ys = refl
  take_twice (suc n) [] ys = refl
  take_twice (suc n) (x ∷ xs) ys = ap (λ l. x ∷ l) (take_twice n xs ys)

module _ (memory : Bytes) where
  -- Entries `i`, `i + 1`, .. of an array, `n` of them.
  abbrev pub entries : ℕ → ℕ → ℕ → ℕ → List MemoryRegion
  entries entries_start entry_size zero i = []
  entries entries_start entry_size (suc n) i =
      read_entry memory (entries_start + i * entry_size)
      ∷ entries entries_start entry_size n (i + 1)

  -- The entries of a tag: as many as its size has room for.
  abbrev pub tag_entries : ℕ → List MemoryRegion
  tag_entries tag_ptr =
      entries (tag_ptr + 16) (read_u32 memory (tag_ptr + 8))
        ((read_u32 memory (tag_ptr + 4) - 16) / read_u32 memory (tag_ptr + 8)) 0

  -- The entries of all memory map tags among the tags.
  abbrev pub map_entries : List ℕ → List MemoryRegion
  map_entries [] = []
  map_entries (tag ∷ tags) =
      let rest = map_entries tags in
      if read_u32 memory tag == 6 then tag_entries tag ++ rest else rest

  -- From `tag_ptr` on, up to `end`, the memory holds the tags at these addresses.
  pub data AreTags (end : ℕ) : ℕ → List ℕ → Type 0 where
    no_room : (tag_ptr : ℕ) → end < tag_ptr + 8 → AreTags end tag_ptr []
    last_tag : (tag_ptr : ℕ) → read_u32 memory tag_ptr ≡ 0 → AreTags end tag_ptr []
    next_tag :
        (tag_ptr : ℕ) (tags : List ℕ)
        → tag_ptr + 8 ≤ end
        → read_u32 memory tag_ptr ≢ 0
        → tag_ptr + read_u32 memory (tag_ptr + 4) ≤ end
        → (read_u32 memory tag_ptr ≡ 6 → 0 < read_u32 memory (tag_ptr + 8))
        → AreTags end (tag_ptr + round_up (read_u32 memory (tag_ptr + 4))) tags
        → AreTags end tag_ptr (tag_ptr ∷ tags)

  entry_loop-entries :
      (room i start size count : ℕ)
      → 0 < size
      → entry_loop memory room start size count (i * size)
        ≡ take room (entries start size (count / size - i) i)
  unfolding entry_loop
  entry_loop-entries zero i start size count h = refl
  entry_loop-entries (suc room) i start size count h = elim (dec_lt i (count / size)) [
    | yes more ↦
        let next : i * size + size ≡ (i + 1) * size = grind arith in
        let room_for : (i + 1) * size ≤ count = (le-div_iff_mul-le h).0 (omega (arith, more)) in
        let test : leb (i * size + size) count ≡ true = ground (arith, next, room_for) in
        let left : count / size - i ≡ suc (count / size - (i + 1)) = omega (arith, more) in
        rw (test, left)
          (ap (λ l. read_entry memory (start + i * size) ∷ l)
            (ap (entry_loop memory room start size count) next
              ∙ entry_loop-entries room (i + 1) start size count h))
    | no done ↦
        let next : i * size + size ≡ (i + 1) * size = grind arith in
        let no_room_for : ¬ ((i + 1) * size ≤ count) =
          λ fits. done (omega (arith, (le-div_iff_mul-le h).1 fits)) in
        let test : leb (i * size + size) count ≡ false = ground (arith, next, no_room_for) in
        let left : count / size - i ≡ 0 = omega (arith, done) in rw (test, left) refl
  ]

  read_map-tag_entries :
      (room tag_ptr : ℕ)
      → 0 < read_u32 memory (tag_ptr + 8)
      → read_map memory room tag_ptr ≡ take room (tag_entries tag_ptr)
  unfolding read_map
  read_map-tag_entries room tag_ptr h =
      ap (entry_loop memory room _ _ _) (omega arith)
      ∙ entry_loop-entries room 0 _ _ _ h
      ∙ ap (λ n. take room (entries (tag_ptr + 16) (read_u32 memory (tag_ptr + 8)) n 0))
          (omega arith)

  -- What the tag adds is cut off at the length of the slice.
  found_lem :
      (max_regions tag : ℕ) (regions : List MemoryRegion) (tags : List ℕ)
      → length regions ≤ max_regions
      → (read_u32 memory tag ≡ 6 → 0 < read_u32 memory (tag + 8))
      → take max_regions (
          (if read_u32 memory tag == 6
            then regions ++ read_map memory (max_regions - length regions) tag
            else regions)
          ++ map_entries tags)
        ≡ take max_regions (regions ++ map_entries (tag ∷ tags))
  found_lem max_regions tag regions tags h size = elim (ℕ_discrete (read_u32 memory tag) 6) [
    | yes is ↦
        let test : (read_u32 memory tag == 6) ≡ true = ground (arith, is) in
        rw test (
          ap (λ l. take max_regions ((regions ++ l) ++ map_entries tags))
            (read_map-tag_entries (max_regions - length regions) tag (size is))
          ∙ ap (λ l. take max_regions (l ++ map_entries tags))
              (sym (take-append max_regions regions (tag_entries tag) h))
          ∙ take_twice max_regions (regions ++ tag_entries tag) (map_entries tags)
          ∙ ap (take max_regions) (append_assoc regions (tag_entries tag) (map_entries tags)))
    | no other ↦
        let test : (read_u32 memory tag == 6) ≡ false = ground (arith, other) in rw test refl
  ]

  found_length :
      (max_regions tag : ℕ) (regions : List MemoryRegion)
      → length regions ≤ max_regions
      → (read_u32 memory tag ≡ 6 → 0 < read_u32 memory (tag + 8))
      → length (
          if read_u32 memory tag == 6
          then regions ++ read_map memory (max_regions - length regions) tag
          else regions)
        ≤ max_regions
  found_length max_regions tag regions h size = elim (ℕ_discrete (read_u32 memory tag) 6) [
    | yes is ↦
        let test : (read_u32 memory tag == 6) ≡ true = ground (arith, is) in
        rw (test, read_map-tag_entries (max_regions - length regions) tag (size is))
          (omega (
            arith,
            h,
            length-append regions (take (max_regions - length regions) (tag_entries tag)),
            length-take (max_regions - length regions) (tag_entries tag),
          ))
    | no other ↦ let test : (read_u32 memory tag == 6) ≡ false = ground (arith, other) in rw test h
  ]

  nothing_more :
      (max_regions : ℕ) (regions : List MemoryRegion)
      → length regions ≤ max_regions
      → some regions ≡ some (take max_regions (regions ++ []))
  nothing_more max_regions regions h = ap some (
      sym (
        take-append max_regions regions [] h
        ∙ ap (λ l. regions ++ l) (take_nil (max_regions - length regions))
        ∙ append-nil regions))

  tag_loop-AreTags :
      (fuel max_regions end tag_ptr : ℕ) (regions : List MemoryRegion) (tags : List ℕ)
      → AreTags end tag_ptr tags
      → length tags < fuel
      → end < 2 ^ 32 - 16
      → tag_ptr ≤ end + 8
      → length regions ≤ max_regions
      → tag_loop memory fuel max_regions end tag_ptr regions
        ≡ some (take max_regions (regions ++ map_entries tags))
  unfolding tag_loop
  tag_loop-AreTags zero max_regions end tag_ptr regions tags t f bound low short =
      absurd (omega (arith, f))
  tag_loop-AreTags (suc fuel) max_regions end _ regions _ (no_room tag_ptr beyond) f bound low
        short =
      let test : leb (add32 (tag_ptr % 2 ^ 32) 8) end ≡ false =
        ground (arith, beyond, bound, low) in
      rw test (nothing_more max_regions regions short)
  tag_loop-AreTags (suc fuel) max_regions end _ regions _ (last_tag tag_ptr last) f bound low
        short =
      let stop : (read_u32 memory tag_ptr == 0) ≡ true = ground (arith, last) in
      elim (Bool-cases (leb (add32 (tag_ptr % 2 ^ 32) 8) end)) [
        | inl test ↦ rw (test, stop) (nothing_more max_regions regions short)
        | inr test ↦ rw test (nothing_more max_regions regions short)
      ]
  tag_loop-AreTags (suc fuel) max_regions end _ regions _
        (next_tag tag_ptr tags room more fits size t) f bound low short =
      let test : leb (add32 (tag_ptr % 2 ^ 32) 8) end ≡ true = ground (arith, room, bound) in
      let go : (read_u32 memory tag_ptr == 0) ≡ false = ground (arith, more) in
      let step : aligned_size (read_u32 memory (tag_ptr + 4))
          ≡ round_up (read_u32 memory (tag_ptr + 4)) =
        aligned_size_lem _ (omega (arith, fits, bound)) in
      rw (test, go, step)
        (tag_loop-AreTags fuel max_regions end (tag_ptr + round_up (read_u32 memory (tag_ptr + 4)))
            (if read_u32 memory tag_ptr == 6
              then regions ++ read_map memory (max_regions - length regions) tag_ptr
              else regions)
            tags t (omega (arith, f)) bound (omega (arith, fits))
            (found_length max_regions tag_ptr regions short size)
          ∙ ap some (found_lem max_regions tag_ptr regions tags short size))

  -- Where the memory after the header holds well-formed tags, each inside the information, with entries
  -- of a size above 0 in every memory map, and one round of fuel for each tag: the parser returns, and
  -- the regions are the entries of all memory map tags, in order, cut off at the length of the slice.
  pub parse_multiboot2_memory_map-AreTags :
      (fuel max_regions mbi_ptr : ℕ) (tags : List ℕ)
      → mbi_ptr + read_u32 memory mbi_ptr < 2 ^ 32 - 16
      → AreTags (mbi_ptr + read_u32 memory mbi_ptr) (mbi_ptr + 8) tags
      → length tags < fuel
      → parse_multiboot2_memory_map memory fuel max_regions mbi_ptr
        ≡ some (take max_regions (map_entries tags))
  unfolding parse_multiboot2_memory_map
  parse_multiboot2_memory_map-AreTags fuel max_regions mbi_ptr tags bound t f =
      let end : add32 mbi_ptr (read_u32 memory mbi_ptr) ≡ mbi_ptr + read_u32 memory mbi_ptr =
        omega (arith, bound) in
      let start : add32 mbi_ptr 8 ≡ mbi_ptr + 8 = omega (arith, bound) in
      rw (end, start)
        (tag_loop-AreTags fuel max_regions (mbi_ptr + read_u32 memory mbi_ptr) (mbi_ptr + 8) [] tags
          t f bound (omega arith) (omega arith))

  -- A tag of size 0 that is neither the last one nor a memory map is read again and again: the parser
  -- does not return, whatever the fuel.
  pub tag_loop-endless :
      (fuel max_regions end tag_ptr : ℕ) (regions : List MemoryRegion)
      → tag_ptr + 8 ≤ end
      → end < 2 ^ 32
      → read_u32 memory tag_ptr ≢ 0
      → read_u32 memory tag_ptr ≢ 6
      → read_u32 memory (tag_ptr + 4) ≡ 0
      → tag_loop memory fuel max_regions end tag_ptr regions ≡ none
  unfolding tag_loop
  tag_loop-endless zero max_regions end tag_ptr regions room bound more other size = refl
  tag_loop-endless (suc fuel) max_regions end tag_ptr regions room bound more other size =
      let test : leb (add32 (tag_ptr % 2 ^ 32) 8) end ≡ true = ground (arith, room, bound) in
      let go : (read_u32 memory tag_ptr == 0) ≡ false = ground (arith, more) in
      let not_map : (read_u32 memory tag_ptr == 6) ≡ false = ground (arith, other) in
      let stay : tag_ptr + aligned_size (read_u32 memory (tag_ptr + 4)) ≡ tag_ptr =
        omega
          (arith, size, aligned_size_lem (read_u32 memory (tag_ptr + 4)) (omega (arith, size))) in
      rw (test, go, not_map, stay)
        (tag_loop-endless fuel max_regions end tag_ptr regions room bound more other size)
