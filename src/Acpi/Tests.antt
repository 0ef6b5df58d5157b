-- ===== src/Acpi/Tests.antt =====
-- Three tables in 124 bytes: the root pointer at 0, the list at 20, and the table of controllers at 60,
-- with one local APIC and one I/O APIC.
use pindos.Base.{ℕ, zero, suc, ◌≡◌, refl, some, List, [], ◌∷◌, ◌++◌, arith}
use pindos.Acpi.{
  Bytes, Madt, read_u32, read_u64, has_signature, sum_bytes, checksum, read_rsdp, parse_madt,
  table_address, find_entry, find_madt_in_sdt, search_rsdt, from_rsdp, is_passed, next, next_local,
  next_io, read_local_apic,
}
use pindos.Acpi.Entries.{collect, local_items, io_items, collect-items}
use pindos.Acpi.Search.{IsReached, from_rsdp-IsReached}

-- RSDP
abbrev pub root_pointer : List ℕ
root_pointer =
    82 ∷ 83 ∷ 68 ∷ 32 ∷ 80 ∷ 84 ∷ 82 ∷ 32 ∷ 205 ∷ 0 ∷ 0 ∷ 0 ∷ 0 ∷ 0 ∷ 0 ∷ 0 ∷ 20 ∷ 0 ∷ 0 ∷ 0 ∷ []

-- RSDT
abbrev pub table_list : List ℕ
table_list =
    82 ∷ 83 ∷ 68 ∷ 84 ∷ 40 ∷ 0 ∷ 0 ∷ 0 ∷ 0 ∷ 0 ∷ 0 ∷ 0 ∷ 0 ∷ 0 ∷ 0 ∷ 0 ∷ 0 ∷ 0 ∷ 0 ∷ 0 ∷ 0 ∷ 0 ∷ 0
    ∷ 0 ∷ 0 ∷ 0 ∷ 0 ∷ 0 ∷ 0 ∷ 0 ∷ 0 ∷ 0 ∷ 0 ∷ 0 ∷ 0 ∷ 0 ∷ 60 ∷ 0 ∷ 0 ∷ 0 ∷ []

-- MADT
abbrev pub controllers : List ℕ
controllers =
    65 ∷ 80 ∷ 73 ∷ 67 ∷ 64 ∷ 0 ∷ 0 ∷ 0 ∷ 0 ∷ 0 ∷ 0 ∷ 0 ∷ 0 ∷ 0 ∷ 0 ∷ 0 ∷ 0 ∷ 0 ∷ 0 ∷ 0 ∷ 0 ∷ 0 ∷ 0
    ∷ 0 ∷ 0 ∷ 0 ∷ 0 ∷ 0 ∷ 0 ∷ 0 ∷ 0 ∷ 0 ∷ 0 ∷ 0 ∷ 0 ∷ 0 ∷ 0 ∷ 0 ∷ 224 ∷ 254 ∷ 1 ∷ 0 ∷ 0 ∷ 0 ∷ 0 ∷ 8
    ∷ 0 ∷ 3 ∷ 1 ∷ 0 ∷ 0 ∷ 0 ∷ 1 ∷ 12 ∷ 2 ∷ 0 ∷ 0 ∷ 0 ∷ 192 ∷ 254 ∷ 0 ∷ 0 ∷ 0 ∷ 0 ∷ []

abbrev pub byte_in : List ℕ → ℕ → ℕ
byte_in [] a = 0
byte_in (b ∷ rest) zero = b
byte_in (b ∷ rest) (suc a) = byte_in rest a

abbrev pub memory : Bytes
memory = byte_in (root_pointer ++ (table_list ++ controllers))

abbrev pub madt : Madt
madt = record { local_apic_address = 4276092928; flags = 1; entries_ptr = 104; entries_len = 20 }

from_rsdp_test : from_rsdp memory 0 ≡ some madt
unfolding from_rsdp read_rsdp has_signature checksum sum_bytes read_u32 read_u64 search_rsdt
    find_madt_in_sdt find_entry table_address parse_madt
from_rsdp_test = refl

from_rsdp-IsReached_example : IsReached memory 0 madt
from_rsdp-IsReached_example = from_rsdp-IsReached memory 0 madt from_rsdp_test

local_test :
    collect (next_local memory madt 21) 22 0
    ≡ some ((record { processor_id = 0; apic_id = 3; flags = 1 }) ∷ [])
unfolding collect next_local next is_passed read_local_apic read_u32
local_test = refl

collect-items_example :
    (collect (next_local memory madt 21) 22 0 ≡ some (local_items memory madt))
    × (collect (next_io memory madt 21) 22 0 ≡ some (io_items memory madt))
collect-items_example = collect-items memory madt 21 (omega arith)
