-- ===== src/Loader/Tests.antt =====
-- A file with one segment of five bytes, three of them in the file, for the page tables of the tests
-- of paging.
use pindos.Base.{
  update, ◌≡◌, ℕ, ◌+◌, ◌-◌, ◌^◌, ◌≤◌, ◌<◌, refl, ap, true, false, Option, some, none, List, [], ◌∷◌,
  arith, get_elem?, inr,
}
use pindos.Mm.Paging.Tests.{page_flags, memory, tables, second_page_found}
use pindos.Mm.Paging.{
  Tables, translate, pml4_index, pdpt_index, pd_index, pt_index, frame, is_present, is_huge, flags,
}
use pindos.Loader.{
  load_byte, is_refused, set_byte, is_user_page, is_user, fault, ElfFile, ProgramHeader, loadable,
  other, Space, byte_at,
}
use pindos.Mm.Paging.Walk.{Role, no_table, page}
use pindos.Mm.Paging.Address.{page_number}
use pindos.Loader.Place.{IsPlaced}
use pindos.Loader.Store.{Returned}
use pindos.Loader.Program.{Rela, read_bytes, relocate_loop}
use pindos.Loader.Program.Relocate.{Entry, HoldsEntry}
use pindos.Loader.Program.Table.{Relocated, relocate_loop-Relocated}

abbrev text_segment : ProgramHeader
text_segment = record {
  segment_type = loadable;
  virtual_addr = 2101250;
  file_size = 3;
  mem_size = 5;
  offset = 1;
  is_write = false;
  is_execute = true;
}

abbrev note_segment : ProgramHeader
note_segment = record text_segment { segment_type = other; virtual_addr = 0 }

abbrev headers : List ProgramHeader
headers = note_segment ∷ text_segment ∷ []

abbrev file : List ℕ
file = 127 ∷ 10 ∷ 20 ∷ 30 ∷ []

abbrev space : Space
space = record { memory = memory; bytes = λ _. 170 }

-- The tables of the page after the large one, with the bit 2 in each entry.
abbrev user_tables : Tables
user_tables =
    update
      (update
        (update (update (λ _ _. 0) 65536 (update (λ _. 0) 0 131079)) 131072
          (update (λ _. 0) 0 196615))
        196608 (update (λ _. 0) 1 262151))
      262144 (update (λ _. 0) 0 12295)

-- With SMAP on, a page of the program is refused.
smap_test :
    set_byte page_flags 65536 true
      (record space { memory = record memory { tables = user_tables } })
      (2 ^ 21)
      7
    ≡ (fault, record space { memory = record memory { tables = user_tables } })
unfolding set_byte is_refused is_user_page is_user translate pml4_index pdpt_index pd_index pt_index
    frame is_present is_huge flags
smap_test = refl

-- One relocation at 2 ^ 21, of the word at 2 ^ 21 + 64, for an offset of 2 ^ 20.
abbrev table_bytes : List ℕ
table_bytes =
    64 ∷ 0 ∷ 16 ∷ 0 ∷ 0 ∷ 0 ∷ 0 ∷ 0 ∷ 8 ∷ 0 ∷ 0 ∷ 0 ∷ 0 ∷ 0 ∷ 0 ∷ 0 ∷ 5 ∷ 0 ∷ 0 ∷ 0 ∷ 0 ∷ 0 ∷ 0 ∷ 0
    ∷ []

abbrev byte_or_zero : Option ℕ → ℕ
byte_or_zero none = 0
byte_or_zero (some b) = b

abbrev relocated_space : Space
relocated_space = record {
  memory = memory;
  bytes = λ p. byte_or_zero (get_elem? table_bytes (p - 12288));
}

abbrev rela : Rela
rela = record { rela_va = 2 ^ 20; rela_size = 24; rela_ent = 24 }

abbrev entry : Entry
entry = record { r_offset = 2 ^ 20 + 64; r_info = 8; r_addend = 5 }

-- Every page of this memory is the one at 12288.
abbrev all_pages : ℕ → Role
all_pages f = page 512

abbrev unused : ℕ → Role
unused f = no_table

page_of_table :
    (w : ℕ)
    → 2 ^ 21 ≤ w
    → w < 2 ^ 21 + 4096
    → IsPlaced page_flags 65536 unused all_pages tables (page_number w)
page_of_table w lo hi = record {
  frame_of = 12288;
  unused = refl;
  holds = ap page (omega (arith, lo, hi));
  aligned = refl;
  found = λ v e. second_page_found v (omega (arith, e, lo, hi));
}

entry-HoldsEntry : HoldsEntry page_flags 65536 relocated_space (2 ^ 21) entry
unfolding read_bytes load_byte is_refused byte_at translate pml4_index pdpt_index pd_index pt_index
    frame is_present is_huge flags
entry-HoldsEntry = ((_, refl, refl), (_, refl, refl), (_, refl, refl))

relocate_loop-Relocated_example :
    Returned page_flags 65536 unused all_pages
      (Relocated page_flags 65536 unused all_pages memory (2 ^ 20) 24 relocated_space (entry ∷ []))
      (relocate_loop page_flags 65536 false 1 0 rela (2 ^ 20) relocated_space)
relocate_loop-Relocated_example =
    relocate_loop-Relocated page_flags 65536 unused all_pages memory (2 ^ 20) 24 rela (entry ∷ []) 0
      (2 ^ 21) relocated_space refl refl refl (omega arith)
      (entry-HoldsEntry, (λ w lo hi. page_of_table w lo (omega (arith, hi))), tt)
      (
        (λ is. (
          omega arith,
          (λ w lo hi. page_of_table w (omega (arith, lo)) (omega (arith, hi))),
          inr (omega arith),
          tt,
        )),
        tt,
      )

abbrev elf : ElfFile
elf = record { entry_point = 2101252; program_headers = headers }
