-- ===== src/Loader/Program/Start.antt =====
-- The whole of `load`, for a program without relocations.
use pindos.Base.{false, ℕ, ◌≡◌, ◌≢◌, Option, List, All, ◌⊎◌}
use pindos.Mm.Buddy.{add64}
use pindos.Mm.Paging.{PageFlags}
use pindos.Loader.{
  ElfFile, ProgramHeader, dynamic, Space, Outcome, ok, err, panic, fault, and_then, load_offset,
}
use pindos.Loader.Program.{apply_relocations}

-- The program is not moved, or has no dynamic segment.
abbrev pub IsStatic : List ProgramHeader → Type 0
IsStatic headers = (load_offset headers ≡ 0) ⊎ All (λ ph. ph.segment_type ≢ dynamic) headers

-- The address that `load` returns is that of the entry point.
abbrev pub AtEntry : ℕ → Outcome ℕ → Type 0
AtEntry a (ok entry) = entry ≡ a
AtEntry a (err e) = Unit
AtEntry a panic = Unit
AtEntry a fault = Unit

-- The outcome without the address.
abbrev pub discard : Outcome ℕ × Space → Outcome Unit × Space
discard (ok entry, s) = (ok tt, s)
discard (err e, s) = (err e, s)
discard (panic, s) = (panic, s)
discard (fault, s) = (fault, s)

module _ (page_flags : PageFlags) (pml4 : ℕ) (new : List ℕ → Option ElfFile) (bs : List ℕ)
    (elf : ElfFile) where
  abbrev offset : ℕ
  offset = load_offset elf.program_headers

  -- `load` after its loop over the headers.
  abbrev finish : Outcome Unit × Space → Outcome ℕ × Space
  finish r = and_then r (λ _ s1.
      and_then (apply_relocations page_flags pml4 false new bs offset s1)
        (λ _ s2. (ok (add64 elf.entry_point offset), s2)))

  abbrev Finished : (Outcome Unit × Space → Type 0) → Outcome ℕ × Space → Type 0
  Finished P r = AtEntry (add64 elf.entry_point offset) r.0 × P (discard r)
