-- ===== src/Multiboot.antt =====
-- hammam/src/main.rs: the memory map that the boot loader hands over.
-- The physical memory is a function to bytes. Pointers are compared as u32, and u32 and u64 sums wrap.
-- `max_regions` is the length of the slice that is filled; the loop over the tags is on fuel, one
-- round a tag.
pub mod Map
pub mod Tests
use pindos.Base.{
  ℕ, zero, suc, ◌+◌, ◌-◌, ◌*◌, ◌%◌, ◌^◌, bit_and, Option, none, some, List, [], ◌∷◌, ◌++◌, length,
  leb, ◌==◌, if◌then◌else◌,
}
use pindos.Mm.Buddy.{add64}
use pindos.Mm.Region.{MemoryKind, MemoryRegion}
use pindos.Mm.Region
use pindos.Acpi.{Bytes, read_u32, read_u64}

abbrev pub max_memory_regions : ℕ
max_memory_regions = 64

abbrev pub add32 : ℕ → ℕ → ℕ
add32 a b = (a + b) % 2 ^ 32

pub entry_kind : ℕ → MemoryKind
entry_kind entry_type =
    if entry_type == 1
    then MemoryKind.usable
    else if entry_type == 3
    then MemoryKind.acpi_reclaimable
    else if entry_type == 4
    then MemoryKind.acpi_nvs
    else MemoryKind.reserved

-- `(tag_size + 7) & !7`
pub aligned_size : ℕ → ℕ
aligned_size tag_size = bit_and (add32 tag_size 7) (2 ^ 32 - 8)

module _ (memory : Bytes) where
  pub read_entry : ℕ → MemoryRegion
  read_entry a = record {
    start = read_u64 memory a;
    end = add64 (read_u64 memory a) (read_u64 memory (a + 8));
    kind = entry_kind (read_u32 memory (a + 16));
  }

  -- `while offset + entry_size <= entries_byte_count && count < regions.len()`, with room for `room`
  -- more regions: those that are filled.
  pub entry_loop : ℕ → ℕ → ℕ → ℕ → ℕ → List MemoryRegion
  entry_loop zero entries_start entry_size byte_count offset = []
  entry_loop (suc room) entries_start entry_size byte_count offset =
      let rest = entry_loop room entries_start entry_size byte_count (offset + entry_size) in
      if leb (offset + entry_size) byte_count
      then read_entry (entries_start + offset) ∷ rest
      else []

  -- The entries of a memory map tag.
  pub read_map : ℕ → ℕ → List MemoryRegion
  read_map room tag_ptr =
      entry_loop room (tag_ptr + 16) (read_u32 memory (tag_ptr + 8))
        (read_u32 memory (tag_ptr + 4) - 16) 0

  pub tag_loop : ℕ → ℕ → ℕ → ℕ → List MemoryRegion → Option (List MemoryRegion)
  tag_loop zero max_regions end tag_ptr regions = none
  tag_loop (suc fuel) max_regions end tag_ptr regions =
      let tag_type = read_u32 memory tag_ptr in
      let found =
        if tag_type == 6
        then regions ++ read_map (max_regions - length regions) tag_ptr
        else regions in
      let rest =
        tag_loop fuel max_regions end (tag_ptr + aligned_size (read_u32 memory (tag_ptr + 4)))
          found in
      if leb (add32 (tag_ptr % 2 ^ 32) 8) end
      then (if tag_type == 0 then some regions else rest)
      else some regions

  pub parse_multiboot2_memory_map : ℕ → ℕ → ℕ → Option (List MemoryRegion)
  parse_multiboot2_memory_map fuel max_regions mbi_ptr =
      tag_loop fuel max_regions (add32 mbi_ptr (read_u32 memory mbi_ptr)) (add32 mbi_ptr 8) []
