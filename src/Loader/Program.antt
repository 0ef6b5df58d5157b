-- ===== src/Loader/Program.antt =====
-- hammam/src/loader/elf.rs: `apply_relocations`, and `load` as a whole.
pub mod Relocate
pub mod Table
pub mod Start
use pindos.Base.{
  Bool, ℕ, zero, suc, ◌+◌, ◌-◌, ◌*◌, ◌/◌, ◌%◌, ◌^◌, bit_and, ◌||◌, Option, none, some, List, [],
  ◌∷◌, ltb, ◌==◌, if◌then◌else◌,
}
use pindos.Mm.Buddy.{add64}
use pindos.Mm.Paging.{PageFlags}
use pindos.Loader.{
  ElfFile, ProgramHeader, loadable, dynamic, other, invalid_magic, Space, Outcome, ok, err, panic,
  fault, and_then, slice, load_offset, load_byte, copy, load_segments,
}

-- `u64::from_ne_bytes` and its inverse, for the bytes in memory.
abbrev pub from_ne_bytes : List ℕ → ℕ
from_ne_bytes [] = 0
from_ne_bytes (b ∷ bs) = b + 256 * from_ne_bytes bs

abbrev pub to_ne_bytes : ℕ → ℕ → List ℕ
to_ne_bytes zero v = []
to_ne_bytes (suc n) v = v % 256 ∷ to_ne_bytes n (v / 256)

-- What the dynamic segment says of the relocations.
pub record Rela : Type 0 where
  pub rela_va : ℕ
  pub rela_size : ℕ
  pub rela_ent : ℕ

pub set_tag : ℕ → ℕ → Rela → Rela
set_tag tag v r =
    if tag == 7
    then record r { rela_va = v }
    else if tag == 8
    then record r { rela_size = v }
    else if tag == 9
    then record r { rela_ent = v }
    else r

-- `while i + 16 <= dyn_sz`, with `n` rounds left.
pub dynamic_loop : ℕ → List ℕ → ℕ → ℕ → Rela → Option Rela
dynamic_loop zero bs dyn_off i r = some r
dynamic_loop (suc n) bs dyn_off i r = elim (slice bs (dyn_off + i) 8) [
  | none ↦ none
  | some tag ↦ elim (slice bs (dyn_off + i + 8) 8) [
    | none ↦ none
    | some val ↦
        let d_tag = from_ne_bytes tag in
        let rest = dynamic_loop n bs dyn_off (i + 16) (set_tag d_tag (from_ne_bytes val) r) in
        if d_tag == 0 then some r else rest
  ]
]

-- The first dynamic segment is read.
pub find_rela : List ℕ → List ProgramHeader → Rela → Option Rela
find_rela bs [] r = some r
find_rela bs (ph ∷ headers) r =
    let rest = find_rela bs headers r in
    elim ph.segment_type [
      | dynamic ↦ dynamic_loop (ph.file_size / 16) bs ph.offset 0 r
      | loadable ↦ rest
      | other ↦ rest
    ]

module _ (page_flags : PageFlags) (pml4 : ℕ) (smap : Bool) where
  -- `read_volatile` of `n` bytes.
  unfoldable pub read_bytes : ℕ → Space → ℕ → Option (List ℕ)
  read_bytes zero s virt = some []
  read_bytes (suc n) s virt = elim (load_byte page_flags pml4 smap s virt) [
    | none ↦ none
    | some b ↦ elim (read_bytes n s (add64 virt 1)) [ none ↦ none | some bs ↦ some (b ∷ bs) ]
  ]

  pub read_u64 : Space → ℕ → Outcome ℕ × Space
  read_u64 s virt = elim (read_bytes 8 s virt) [
    | none ↦ (fault, s)
    | some bs ↦ (ok (from_ne_bytes bs), s)
  ]

  -- One entry: its offset, its kind in the low half of the info, and its addend.
  pub relocate : ℕ → ℕ → Space → Outcome Unit × Space
  relocate delta entry_va s = and_then (read_u64 s entry_va) (λ r_offset s1.
      and_then (read_u64 s1 (add64 entry_va 8)) (λ r_info s2.
        and_then (read_u64 s2 (add64 entry_va 16)) (λ r_addend s3.
          if bit_and r_info (2 ^ 32 - 1) == 8
          then copy page_flags pml4 smap (to_ne_bytes 8 (add64 r_addend delta))
              (add64 r_offset delta) s3
          else (ok tt, s3))))

  -- `for i in 0..count`, with `n` entries left.
  pub relocate_loop : ℕ → ℕ → Rela → ℕ → Space → Outcome Unit × Space
  relocate_loop zero i r delta s = (ok tt, s)
  relocate_loop (suc n) i r delta s =
      and_then (relocate delta (add64 (add64 r.rela_va delta) (i * r.rela_ent)) s)
        (λ _ s'. relocate_loop n (i + 1) r delta s')

  pub apply_rela : Rela → ℕ → Space → Outcome Unit × Space
  apply_rela r delta s =
      if r.rela_va == 0 || r.rela_size == 0
      then (ok tt, s)
      else if r.rela_ent == 0
      then (panic, s)
      else relocate_loop (r.rela_size / r.rela_ent) 0 r delta s

  module _ (new : List ℕ → Option ElfFile) where
    pub apply_relocations : List ℕ → ℕ → Space → Outcome Unit × Space
    apply_relocations bs load_offset s =
        if load_offset == 0 || ltb (2 ^ 32) load_offset then (ok tt, s) else elim (new bs) [
          | none ↦ (err invalid_magic, s)
          | some elf ↦
              elim (find_rela bs elf.program_headers
                (record { rela_va = 0; rela_size = 0; rela_ent = 24 })) [
                  | none ↦ (panic, s)
                  | some r ↦ apply_rela r load_offset s
                ]
        ]

    -- The address of the entry point.
    pub load : List ℕ → Space → Outcome ℕ × Space
    load bs s = elim (new bs) [
      | none ↦ (err invalid_magic, s)
      | some elf ↦
          let delta = load_offset elf.program_headers in
          and_then (load_segments page_flags pml4 smap bs delta elf.program_headers s) (λ _ s1.
            and_then (apply_relocations bs delta s1)
              (λ _ s2. (ok (add64 elf.entry_point delta), s2)))
    ]
