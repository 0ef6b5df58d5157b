-- ===== src/Acpi.antt =====
-- hammam/src/acpi/madt.rs: the search for the table of interrupt controllers, and its entries.
-- The physical memory is a function to bytes, and an address a number: u64 sums are not taken to wrap.
-- The structs that the code reads whole are read a field at a time, at the offsets of `repr(C)`: a
-- `RsdpV2` takes 40 bytes, since it is aligned to 8.
pub mod Entries
pub mod Search
pub mod Tests
use pindos.Base.{
  ℕ, zero, suc, ◌+◌, ◌-◌, ◌*◌, ◌/◌, ◌%◌, ◌^◌, Bool, true, false, not, ◌&&◌, ◌||◌, Option, none,
  some, List, [], ◌∷◌, ltb, leb, ◌==◌, if◌then◌else◌,
}

abbrev pub Bytes : Type 0
Bytes = ℕ → ℕ

-- "RSD PTR ", "APIC", "RSDT" and "XSDT"
abbrev pub rsdp_signature : List ℕ
rsdp_signature = 82 ∷ 83 ∷ 68 ∷ 32 ∷ 80 ∷ 84 ∷ 82 ∷ 32 ∷ []

abbrev pub madt_signature : List ℕ
madt_signature = 65 ∷ 80 ∷ 73 ∷ 67 ∷ []

abbrev pub rsdt_signature : List ℕ
rsdt_signature = 82 ∷ 83 ∷ 68 ∷ 84 ∷ []

abbrev pub xsdt_signature : List ℕ
xsdt_signature = 88 ∷ 83 ∷ 68 ∷ 84 ∷ []

abbrev pub sdt_header_size : ℕ
sdt_header_size = 36

abbrev pub madt_fixed_header_size : ℕ
madt_fixed_header_size = sdt_header_size + 8

pub record LocalApic : Type 0 where
  pub processor_id : ℕ
  pub apic_id : ℕ
  pub flags : ℕ

pub record IoApic : Type 0 where
  pub io_apic_id : ℕ
  pub address : ℕ
  pub global_system_interrupt_base : ℕ

pub record Madt : Type 0 where
  pub local_apic_address : ℕ
  pub flags : ℕ
  pub entries_ptr : ℕ
  pub entries_len : ℕ

pub record RsdpInfo : Type 0 where
  pub rsdt_address : ℕ
  pub xsdt_address : Option ℕ

module _ (memory : Bytes) where
  -- Little endian
  unfoldable pub read_u32 : ℕ → ℕ
  read_u32 a = memory a + 2 ^ 8 * memory (a + 1) + 2 ^ 16 * memory (a + 2) + 2 ^ 24 * memory (a + 3)

  pub read_u64 : ℕ → ℕ
  read_u64 a = read_u32 a + 2 ^ 32 * read_u32 (a + 4)

  -- Do the bytes from an address on begin with these?
  pub has_signature : ℕ → List ℕ → Bool
  has_signature a [] = true
  has_signature a (b ∷ rest) = (memory a == b) && has_signature (a + 1) rest

  pub sum_bytes : ℕ → ℕ → ℕ → ℕ
  sum_bytes acc a zero = acc
  sum_bytes acc a (suc n) = sum_bytes ((acc + memory a) % 256) (a + 1) n

  pub checksum : ℕ → ℕ → Bool
  checksum a length = sum_bytes 0 a length == 0

  pub read_rsdp : ℕ → Option RsdpInfo
  read_rsdp a =
      if has_signature a rsdp_signature
      then (if leb 2 (memory (a + 15))
          then (if ltb (read_u32 (a + 20)) 40
              then none
              else if checksum a (read_u32 (a + 20))
              then some (record {
                rsdt_address = read_u32 (a + 16);
                xsdt_address = if read_u64 (a + 24) == 0 then none else some (read_u64 (a + 24));
              })
              else none)
          else if checksum a 20
          then some (record { rsdt_address = read_u32 (a + 16); xsdt_address = none })
          else none)
      else none

  pub parse_madt : ℕ → Option Madt
  parse_madt a =
      if has_signature a madt_signature
      then (if ltb (read_u32 (a + 4)) madt_fixed_header_size
          then none
          else some (record {
            local_apic_address = read_u32 (a + sdt_header_size);
            flags = read_u32 (a + sdt_header_size + 4);
            entries_ptr = a + madt_fixed_header_size;
            entries_len = read_u32 (a + 4) - madt_fixed_header_size;
          }))
      else none

  -- The address in an entry of a table of tables.
  pub table_address : ℕ → ℕ → ℕ
  table_address entry_size a = if entry_size == 8 then read_u64 a else read_u32 a

  -- `for idx in 0..entries_count`, with `n` entries left.
  pub find_entry : ℕ → ℕ → ℕ → Option Madt
  find_entry zero entry_size a = none
  find_entry (suc n) entry_size a =
      let rest = find_entry n entry_size (a + entry_size) in
      elim (parse_madt (table_address entry_size a)) [ some madt ↦ some madt | none ↦ rest ]

  pub find_madt_in_sdt : ℕ → ℕ → List ℕ → Option Madt
  find_madt_in_sdt a entry_size expected_signature =
      if has_signature a expected_signature
      then (if ltb (read_u32 (a + 4)) sdt_header_size
          then none
          else find_entry ((read_u32 (a + 4) - sdt_header_size) / entry_size) entry_size
              (a + sdt_header_size))
      else none

  pub search_rsdt : RsdpInfo → Option Madt
  search_rsdt rsdp =
      if rsdp.rsdt_address == 0 then none else find_madt_in_sdt rsdp.rsdt_address 4 rsdt_signature

  pub from_rsdp : ℕ → Option Madt
  from_rsdp a = elim (read_rsdp a) [
    | none ↦ none
    | some rsdp ↦ elim rsdp.xsdt_address [
      | none ↦ search_rsdt rsdp
      | some xsdt ↦ elim (find_madt_in_sdt xsdt 8 xsdt_signature) [
        | some madt ↦ some madt
        | none ↦ search_rsdt rsdp
      ]
    ]
  ]

  -- Both iterators: the offset of the next entry is their state. An entry of `wanted` type and of at
  -- least `least` bytes is an item.
  module _ {A : Type 0} (wanted least : ℕ) (read_item : ℕ → A) (entries_ptr len : ℕ) where
    abbrev pub entry_len : ℕ → ℕ
    entry_len offset = memory (entries_ptr + offset + 1)

    pub is_passed : ℕ → Bool
    is_passed offset = not (memory (entries_ptr + offset) == wanted) || ltb (entry_len offset) least

    pub next : ℕ → ℕ → Option (Option A × ℕ)
    next zero offset = none
    next (suc fuel) offset =
        let rest = next fuel (offset + entry_len offset) in
        if leb (offset + 2) len
        then (if ltb (entry_len offset) 2 || ltb len (offset + entry_len offset)
            then some (none, offset)
            else if is_passed offset
            then rest
            else some (some (read_item (entries_ptr + offset)), offset + entry_len offset))
        else some (none, offset)

  pub read_local_apic : ℕ → LocalApic
  read_local_apic entry = record {
    processor_id = memory (entry + 2);
    apic_id = memory (entry + 3);
    flags = read_u32 (entry + 4);
  }

  pub read_io_apic : ℕ → IoApic
  read_io_apic entry = record {
    io_apic_id = memory (entry + 2);
    address = read_u32 (entry + 4);
    global_system_interrupt_base = read_u32 (entry + 8);
  }

  -- `LocalApicIter::next` and `IoApicIter::next`
  pub next_local : Madt → ℕ → ℕ → Option (Option LocalApic × ℕ)
  next_local madt = next 0 8 read_local_apic madt.entries_ptr madt.entries_len

  pub next_io : Madt → ℕ → ℕ → Option (Option IoApic × ℕ)
  next_io madt = next 1 12 read_io_apic madt.entries_ptr madt.entries_len
