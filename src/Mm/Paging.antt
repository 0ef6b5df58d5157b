-- ===== src/Mm/Paging.antt =====
-- hammam/src/mm/paging.rs: the four levels of page tables.
-- The tables are the memory: at the address of a table, its entries, each the u64 that it holds. The
-- register CR3 is an argument. `PageFlags` is generated by the crate bitflags: its type and operations
-- are parameters, with what the crate documents of them. The TLB and the debug output are left out.
pub mod Entries
pub mod Walk
pub mod Grow
pub mod Backed
pub mod Create
pub mod Step
pub mod Split
pub mod Leaf
pub mod Kept
pub mod Unmap
pub mod Space
pub mod Map
pub mod Address
pub mod Tests
use pindos.Base.{
  ℕ, zero, suc, ◌+◌, ◌-◌, ◌*◌, ◌/◌, ◌^◌, ◌≡◌, Bool, true, false, Option, none, some, bit_and,
  bit_or, ◌==◌, if◌then◌else◌, update, ◌⊎◌, inl, inr,
}
use pindos.Mm.Buddy.{BuddyAllocator, PhysFrame, allocate}
use pindos.Mm.Buddy

-- The bits 0 to 8 and 63, which have names.
abbrev pub all_bits : ℕ
all_bits = 2 ^ 63 + 511

pub record PageFlags : Type 1 where
  pub Flags : Type 0
  pub bits : Flags → ℕ
  pub from_bits_truncate : ℕ → Flags
  pub contains : Flags → Flags → Bool
  -- `f | g` and `f & !g`
  pub union : Flags → Flags → Flags
  pub difference : Flags → Flags → Flags
  pub present : Flags
  pub writable : Flags
  pub user_accessible : Flags
  pub huge_page : Flags
  pub no_execute : Flags
  pub bits_present : bits present ≡ 1
  pub bits_writable : bits writable ≡ 2
  pub bits_user_accessible : bits user_accessible ≡ 4
  pub bits_huge_page : bits huge_page ≡ 128
  pub bits_no_execute : bits no_execute ≡ 2 ^ 63
  pub bits_known : (f : Flags) → bit_and (bits f) all_bits ≡ bits f
  pub bits_from : (e : ℕ) → bits (from_bits_truncate e) ≡ bit_and e all_bits
  pub contains_lem : (f g : Flags) → contains f g ≡ (bit_and (bits f) (bits g) == bits g)
  pub bits_union : (f g : Flags) → bits (union f g) ≡ bit_or (bits f) (bits g)
  pub bits_difference : (f g : Flags) → bits (difference f g) ≡ bits f - bit_and (bits f) (bits g)

-- The bits 12 to 51 of an entry are the address of its frame.
abbrev pub frame_mask : ℕ
frame_mask = (2 ^ 40 - 1) * 2 ^ 12

pub data MapError : Type 0 where
  frame_allocation_failed already_mapped : MapError

pub data UnmapError : Type 0 where
  not_mapped : UnmapError

abbrev pub PageTable : Type 0
PageTable = ℕ → ℕ

abbrev pub Tables : Type 0
Tables = ℕ → PageTable

-- `(virt >> 39) & 0x1FF` and so on
unfoldable pub pml4_index : ℕ → ℕ
pml4_index virt = bit_and (virt / 2 ^ 39) 511

unfoldable pub pdpt_index : ℕ → ℕ
pdpt_index virt = bit_and (virt / 2 ^ 30) 511

unfoldable pub pd_index : ℕ → ℕ
pd_index virt = bit_and (virt / 2 ^ 21) 511

unfoldable pub pt_index : ℕ → ℕ
pt_index virt = bit_and (virt / 2 ^ 12) 511

-- `PageTable::zero`
pub zero_table : PageTable
zero_table i = 0

pub set_entry : Tables → PhysFrame → ℕ → ℕ → Tables
set_entry t table i e = update t table (update (t table) i e)

-- The tables and the allocator that new ones come from.
pub record Memory : Type 0 where
  pub tables : Tables
  pub allocator : BuddyAllocator

pub data Result (A : Type 0) : Type 0 where
  ok : A → Result A
  err : MapError → Result A

-- `?`
abbrev pub and_then :
    {A B : Type 0} → Result A × Memory → (A → Memory → Result B × Memory) → Result B × Memory
and_then (ok a, m) f = f a m
and_then (err e, m) f = (err e, m)

-- `allocator.allocate(0).map_err(..)`
pub allocate_frame : Memory → Result PhysFrame × Memory
allocate_frame m =
    let (r, allocator) = allocate m.allocator 0 in
    elim r [
      | Buddy.ok frame ↦ (ok frame, record m { allocator = allocator })
      | Buddy.err _ ↦ (err frame_allocation_failed, record m { allocator = allocator })
    ]

module _ (page_flags : PageFlags) where
  open page_flags use {
    Flags, bits, from_bits_truncate, contains, union, difference, present, writable,
    user_accessible, huge_page,
  }

  unfoldable pub flags : ℕ → Flags
  flags e = from_bits_truncate e

  unfoldable pub is_present : ℕ → Bool
  is_present e = contains (flags e) present

  unfoldable pub is_huge : ℕ → Bool
  is_huge e = contains (flags e) huge_page

  -- The frame, where the entry is present.
  unfoldable pub frame : ℕ → Option PhysFrame
  frame e = if is_present e then some (bit_and e frame_mask) else none

  pub entry_of : PhysFrame → Flags → ℕ
  entry_of f fl = bit_or (bit_and f frame_mask) (bits fl)

  -- The flags of an entry that leads to a table.
  pub table_flags : Flags
  table_flags = union (union present writable) user_accessible

  -- The table that an entry leads to: a new one, all zero, where it is not present.
  pub descend : Memory → PhysFrame → ℕ → Result PhysFrame × Memory
  descend m table i = elim (frame (m.tables table i)) [
    | some next ↦ (ok next, m)
    | none ↦ and_then (allocate_frame m) (λ next m'. (
      ok next,
      record m' {
        tables = set_entry (update m'.tables next zero_table) table i (entry_of next table_flags);
      },
    ))
  ]

  -- `for i in 0..512`, with `n` entries left: the small pages that make up a large one.
  pub split_loop : ℕ → ℕ → Tables → PhysFrame → ℕ → Flags → Tables
  split_loop zero i t table phys fl = t
  split_loop (suc n) i t table phys fl =
      split_loop n (i + 1) (set_entry t table i (entry_of (phys + i * 4096) fl)) table phys fl

  -- A large page becomes a table of small ones; `huge` is its frame.
  pub split_page : Memory → PhysFrame → ℕ → PhysFrame → Result Unit × Memory
  split_page m table i huge = and_then (allocate_frame m) (λ next m'.
      let fl = difference (flags (m'.tables table i)) huge_page in
      let t = split_loop 512 0 m'.tables next huge fl in
      (ok tt, record m' { tables = set_entry t table i (entry_of next table_flags) }))

  pub split_huge : Memory → PhysFrame → ℕ → Result Unit × Memory
  split_huge m table i = elim (frame (m.tables table i)) [
    | none ↦ (ok tt, m)
    | some huge ↦ if is_huge (m.tables table i) then split_page m table i huge else (ok tt, m)
  ]

  pub map_page : PhysFrame → Memory → ℕ → PhysFrame → Flags → Result Unit × Memory
  map_page pml4 m virt phys fl = and_then (descend m pml4 (pml4_index virt)) (λ pdpt m1.
      and_then (descend m1 pdpt (pdpt_index virt)) (λ pd m2.
        and_then (split_huge m2 pd (pd_index virt)) (λ _ m3.
          and_then (descend m3 pd (pd_index virt)) (λ pt m4. (
            ok tt,
            record m4 {
              tables = set_entry m4.tables pt (pt_index virt) (entry_of phys (union fl present));
            },
          )))))

  -- The small page is taken out of its table.
  pub unmap_leaf : Tables → PhysFrame → ℕ → (PhysFrame ⊎ UnmapError) × Tables
  unmap_leaf t pt i = elim (frame (t pt i)) [
    | none ↦ (inr not_mapped, t)
    | some phys ↦ (inl phys, set_entry t pt i 0)
  ]

  pub unmap_page : PhysFrame → Tables → ℕ → (PhysFrame ⊎ UnmapError) × Tables
  unmap_page pml4 t virt = elim (frame (t pml4 (pml4_index virt))) [
    | none ↦ (inr not_mapped, t)
    | some pdpt ↦ elim (frame (t pdpt (pdpt_index virt))) [
      | none ↦ (inr not_mapped, t)
      | some pd ↦ elim (frame (t pd (pd_index virt))) [
        | none ↦ (inr not_mapped, t)
        | some pt ↦ unmap_leaf t pt (pt_index virt)
      ]
    ]
  ]

  pub translate_flags : PhysFrame → Tables → ℕ → Option Flags
  translate_flags pml4 t virt = elim (frame (t pml4 (pml4_index virt))) [
    | none ↦ none
    | some pdpt ↦ elim (frame (t pdpt (pdpt_index virt))) [
      | none ↦ none
      | some pd ↦
          if is_huge (t pdpt (pdpt_index virt))
          then some (flags (t pdpt (pdpt_index virt)))
          else elim (frame (t pd (pd_index virt))) [
            | none ↦ none
            | some pt ↦
                if is_huge (t pd (pd_index virt))
                then some (flags (t pd (pd_index virt)))
                else elim (frame (t pt (pt_index virt))) [
                  | none ↦ none
                  | some _ ↦ some (flags (t pt (pt_index virt)))
                ]
          ]
    ]
  ]

  unfoldable pub translate : PhysFrame → Tables → ℕ → Option ℕ
  translate pml4 t virt = elim (frame (t pml4 (pml4_index virt))) [
    | none ↦ none
    | some pdpt ↦ elim (frame (t pdpt (pdpt_index virt))) [
      | none ↦ none
      | some pd ↦ elim (frame (t pd (pd_index virt))) [
        | none ↦ none
        | some pt ↦
            if is_huge (t pd (pd_index virt))
            then some (pt + bit_and virt (2 ^ 21 - 1))
            else elim (frame (t pt (pt_index virt))) [
              | none ↦ none
              | some phys ↦ some (phys + bit_and virt 4095)
            ]
      ]
    ]
  ]
