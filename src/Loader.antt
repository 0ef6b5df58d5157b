-- ===== src/Loader.antt =====
-- hammam/src/loader/elf.rs: a program file is placed in the address space.
-- The crate xmas_elf reads the headers: `ElfFile::new` is the parameter `new`. A memory is the page
-- tables, the allocator, and the bytes of the frames that hold no table, by physical address; CR3 is
-- an argument. u64 and usize arithmetic wraps. Kernel code writes to pages of every kind: the boot
-- code leaves the bit WP of CR0 clear. `smap` is the bit of CR4 that security/mod.rs sets; nothing
-- sets AC.
pub mod Place
pub mod Pages
pub mod Store
pub mod Segment
pub mod Load
pub mod Segments
pub mod Program
pub mod Tests
use pindos.Base.{
  ℕ, zero, suc, ◌+◌, ◌-◌, ◌*◌, ◌/◌, ◌%◌, ◌^◌, min, bit_and, Bool, true, false, ◌||◌, ◌&&◌, Option,
  none, some, List, [], ◌∷◌, length, take, drop, leb, ltb, ◌==◌, if◌then◌else◌, update,
}
use pindos.Mm.Buddy.{add64, sub64}
use pindos.Mm.Paging.{
  PageFlags, Memory, Tables, allocate_frame, map_page, translate, frame, is_huge, pml4_index,
  pdpt_index, pd_index, pt_index,
}
use pindos.Mm.Paging

pub data ElfError : Type 0 where
  invalid_magic invalid_elf allocation_error mapping_error : ElfError

-- What the crate reads of a file: `program::Type` as far as the loader tells it apart, the headers
-- and the entry point.
pub data SegmentType : Type 0 where
  loadable dynamic other : SegmentType

pub record ProgramHeader : Type 0 where
  pub segment_type : SegmentType
  pub virtual_addr : ℕ
  pub file_size : ℕ
  pub mem_size : ℕ
  pub offset : ℕ
  pub is_write : Bool
  pub is_execute : Bool

pub record ElfFile : Type 0 where
  pub entry_point : ℕ
  pub program_headers : List ProgramHeader

-- A slice out of range or a division by zero panics; an access to a page that is not mapped or
-- that SMAP refuses faults.
pub data Outcome (A : Type 0) : Type 0 where
  ok : A → Outcome A
  err : ElfError → Outcome A
  panic : Outcome A
  fault : Outcome A

pub record Space : Type 0 where
  pub memory : Memory
  pub bytes : ℕ → ℕ

-- `?`
abbrev pub and_then : {A B S : Type 0} → Outcome A × S → (A → S → Outcome B × S) → Outcome B × S
and_then (ok a, s) f = f a s
and_then (err e, s) f = (err e, s)
and_then (panic, s) f = (panic, s)
and_then (fault, s) f = (fault, s)

-- `.map_err(|_| e)?` of a result of paging, and the conversion of an AllocError.
abbrev pub map_err : {A : Type 0} → ElfError → Paging.Result A × Memory → Outcome A × Memory
map_err e (Paging.ok a, m) = (ok a, m)
map_err e (Paging.err _, m) = (err e, m)

-- `x & !0xFFF`
pub page_floor : ℕ → ℕ
page_floor x = bit_and x ((2 ^ 52 - 1) * 2 ^ 12)

pub num_pages : ℕ → ℕ → ℕ
num_pages vaddr memsz =
    sub64 (page_floor (add64 (add64 vaddr memsz) 4095)) (page_floor vaddr) / 4096

-- `&data[start..start + count]`
pub slice : List ℕ → ℕ → ℕ → Option (List ℕ)
slice bs start count =
    if leb (start + count) (length bs) then some (take count (drop start bs)) else none

abbrev pub replicate : ℕ → ℕ → List ℕ
replicate zero b = []
replicate (suc n) b = b ∷ replicate n b

-- `.min().unwrap_or(0)` over the loadable segments.
pub min_load : List ProgramHeader → Option ℕ
min_load [] = none
min_load (ph ∷ headers) =
    let rest = min_load headers in
    elim ph.segment_type [
      | loadable ↦ elim rest [ none ↦ some ph.virtual_addr | some v ↦ some (min ph.virtual_addr v) ]
      | dynamic ↦ rest
      | other ↦ rest
    ]

pub load_offset : List ProgramHeader → ℕ
load_offset headers =
    let first : ℕ = elim (min_load headers) [ none ↦ 0 | some v ↦ v ] in
    if ltb first 4096 then 268435456 else 0

pub on_memory : Space → Outcome Unit × Memory → Outcome Unit × Space
on_memory s (r, m) = (r, record s { memory = m })

module _ (page_flags : PageFlags) where
  open page_flags use {Flags, union, present, writable, user_accessible, no_execute}

  pub segment_flags : ProgramHeader → Flags
  segment_flags ph =
      let base = union present user_accessible in
      let fl = if ph.is_write then union base writable else base in
      if ph.is_execute then fl else union fl no_execute

-- The bit 2 of an entry.
pub is_user : ℕ → Bool
is_user entry = bit_and entry 4 == 4

module _ (page_flags : PageFlags) (pml4 : ℕ) where
  open page_flags use {Flags}

  -- `for i in 0..num_pages`, with `n` pages left: a new frame for each page.
  pub map_pages : ℕ → ℕ → ℕ → Flags → Memory → Outcome Unit × Memory
  map_pages zero i start fl m = (ok tt, m)
  map_pages (suc n) i start fl m =
      and_then (map_err allocation_error (allocate_frame m)) (λ frame m1.
        and_then
          (map_err mapping_error (map_page page_flags pml4 m1 (add64 start (i * 4096)) frame fl))
          (λ _ m2. map_pages n (i + 1) start fl m2))

  -- One byte at a virtual address.
  pub byte_at : Space → ℕ → Option ℕ
  byte_at s virt = elim (translate page_flags pml4 s.memory.tables virt) [
    | none ↦ none
    | some phys ↦ some (s.bytes phys)
  ]

  -- Whether every entry on the walk to a page has the flag USER_ACCESSIBLE.
  pub is_user_page : Tables → ℕ → Bool
  is_user_page t virt =
      let e4 = t pml4 (pml4_index virt) in
      elim (frame page_flags e4) [
        | none ↦ false
        | some pdpt ↦
            let e3 = t pdpt (pdpt_index virt) in
            elim (frame page_flags e3) [
              | none ↦ false
              | some pd ↦
                  let e2 = t pd (pd_index virt) in
                  let above = is_user e4 && is_user e3 && is_user e2 in
                  elim (frame page_flags e2) [
                    | none ↦ false
                    | some pt ↦
                        if is_huge page_flags e2
                        then above
                        else above && is_user (t pt (pt_index virt))
                  ]
            ]
      ]

  -- With SMAP on and AC clear, the kernel's access to a page of the program faults.
  module _ (smap : Bool) where
    pub is_refused : Space → ℕ → Bool
    is_refused s virt = smap && is_user_page s.memory.tables virt

    pub load_byte : Space → ℕ → Option ℕ
    load_byte s virt = if is_refused s virt then none else byte_at s virt

    pub set_byte : Space → ℕ → ℕ → Outcome Unit × Space
    set_byte s virt b =
        if is_refused s virt
        then (fault, s)
        else elim (translate page_flags pml4 s.memory.tables virt) [
          | none ↦ (fault, s)
          | some phys ↦ (ok tt, record s { bytes = update s.bytes phys b })
        ]

    -- `copy_nonoverlapping(bs, virt, bs.len())`; with `replicate n 0`, `write_bytes(virt, 0, n)`.
    pub copy : List ℕ → ℕ → Space → Outcome Unit × Space
    copy [] virt s = (ok tt, s)
    copy (b ∷ bs) virt s = and_then (set_byte s virt b) (λ _ s'. copy bs (add64 virt 1) s')

    pub copy_file : List ℕ → ProgramHeader → ℕ → Space → Outcome Unit × Space
    copy_file bs ph vaddr s =
        if ltb 0 ph.file_size
        then elim (slice bs ph.offset ph.file_size) [
          | none ↦ (panic, s)
          | some src ↦ copy src vaddr s
        ]
        else (ok tt, s)

    pub zero_bss : ProgramHeader → ℕ → Space → Outcome Unit × Space
    zero_bss ph vaddr s =
        if ltb ph.file_size ph.mem_size
        then copy (replicate (ph.mem_size - ph.file_size) 0) (add64 vaddr ph.file_size) s
        else (ok tt, s)

    pub load_segment : List ℕ → ℕ → ProgramHeader → Space → Outcome Unit × Space
    load_segment bs load_offset ph s =
        let vaddr = add64 ph.virtual_addr load_offset in
        and_then
          (on_memory s (
            map_pages (num_pages vaddr ph.mem_size) 0 (page_floor vaddr)
              (segment_flags page_flags ph) s.memory))
          (λ _ s1. and_then (copy_file bs ph vaddr s1) (λ _ s2. zero_bss ph vaddr s2))

    pub load_segments : List ℕ → ℕ → List ProgramHeader → Space → Outcome Unit × Space
    load_segments bs load_offset [] s = (ok tt, s)
    load_segments bs load_offset (ph ∷ headers) s = elim ph.segment_type [
      | loadable ↦
          and_then (load_segment bs load_offset ph s)
            (λ _ s'. load_segments bs load_offset headers s')
      | dynamic ↦ load_segments bs load_offset headers s
      | other ↦ load_segments bs load_offset headers s
    ]
