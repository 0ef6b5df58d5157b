-- ===== src/Loader/Segment.antt =====
-- One segment: its pages are new, and hold the bytes of the file, and zeros behind them.
use pindos.Base.{
  ℕ, zero, suc, ◌+◌, ◌-◌, ◌*◌, ◌/◌, ◌^◌, ◌≤◌, ◌<◌, ◌≡◌, ◌≢◌, refl, true, false, Option, some, List,
  arith, ◌∙◌, ap, sym, ltb, leb, if◌then◌else◌, length, get_elem?, take, drop, inl, ◌⊎◌,
  length-take, length-drop, get_elem?-take, get_elem?-drop,
}
use mathlib.Core.Path.{subst}
use native.Mathlib.Decide.{dec_lt}
use pindos.Base.Bits.{bit_and_high}
use pindos.Mm.Buddy.{add64}
use pindos.Mm.Paging.{PageFlags}
use pindos.Mm.Paging.Walk.{Role, no_table}
use pindos.Mm.Paging.Address.{page_number}
use pindos.Loader.{
  ProgramHeader, Space, Outcome, ok, err, panic, fault, and_then, byte_at, copy_file, zero_bss,
  slice, replicate, num_pages, page_floor,
}
use pindos.Loader.Place.{IsPlaced}
use pindos.Loader.Store.{
  HasPage, Stored, Stored-inside, Stored-outside, Returned, weaken, copy-Stored, Stored-nil,
  address_limit,
}

length-replicate : (n b : ℕ) → length (replicate n b) ≡ n
length-replicate zero b = refl
length-replicate (suc n) b = omega (arith, length-replicate n b)

get_elem?-replicate : (n b i : ℕ) → i < n → get_elem? (replicate n b) i ≡ some b
get_elem?-replicate zero b i h = absurd (omega (arith, h))
get_elem?-replicate (suc n) b zero h = refl
get_elem?-replicate (suc n) b (suc i) h = get_elem?-replicate n b i (omega (arith, h))

-- `page_floor` rounds down to a page.
pub page_floor_lem : (x : ℕ) → x < 2 ^ 64 → page_floor x ≡ x / 4096 * 4096
unfolding page_floor
page_floor_lem x h = omega (arith, bit_and_high 12 52 x, h)

pub num_pages_lem :
    (vaddr memsz : ℕ)
    → vaddr + memsz ≤ 2 ^ 47
    → vaddr / 4096 + num_pages vaddr memsz ≡ (vaddr + memsz + 4095) / 4096
unfolding num_pages
num_pages_lem vaddr memsz h =
    let end : add64 (add64 vaddr memsz) 4095 ≡ vaddr + memsz + 4095 = omega (arith, h) in
    let top : page_floor (vaddr + memsz + 4095) ≡ (vaddr + memsz + 4095) / 4096 * 4096 =
      page_floor_lem _ (omega (arith, h)) in
    let low : page_floor vaddr ≡ vaddr / 4096 * 4096 = page_floor_lem _ (omega (arith, h)) in
    rw (end, top, low) (omega (arith, h))

module _ (bs : List ℕ) (off : ℕ) where
  -- A segment in the user half, whose bytes are in the file and have room in memory.
  pub record Fits (ph : ProgramHeader) : Type 0 where
    pub placed : ph.virtual_addr + off + ph.mem_size ≤ 2 ^ 47
    pub sizes : ph.file_size ≤ ph.mem_size
    pub inside : ph.offset + ph.file_size ≤ length bs

  -- The pages of a segment.
  abbrev pub first_page : ProgramHeader → ℕ
  first_page ph = (ph.virtual_addr + off) / 4096

  abbrev pub page_end : ProgramHeader → ℕ
  page_end ph = (ph.virtual_addr + off + ph.mem_size + 4095) / 4096

  -- The byte that belongs at an offset of a segment.
  abbrev pub image_byte : ProgramHeader → ℕ → Option ℕ
  image_byte ph i = if ltb i ph.file_size then get_elem? bs (ph.offset + i) else some 0

  abbrev file_bytes : ProgramHeader → List ℕ
  file_bytes ph = take ph.file_size (drop ph.offset bs)

  length-file_bytes : (ph : ProgramHeader) → Fits ph → length (file_bytes ph) ≡ ph.file_size
  length-file_bytes ph fits =
      omega
        (arith, length-take ph.file_size (drop ph.offset bs), length-drop ph.offset bs, fits.inside)

  get_elem?-file_bytes :
      (ph : ProgramHeader) (i : ℕ)
      → i < ph.file_size
      → get_elem? (file_bytes ph) i ≡ get_elem? bs (ph.offset + i)
  get_elem?-file_bytes ph i h =
      get_elem?-take ph.file_size (drop ph.offset bs) i h ∙ get_elem?-drop ph.offset bs i

  module _ (page_flags : PageFlags) (pml4 : ℕ) (first role : ℕ → Role) (ph : ProgramHeader)
      (fits : Fits ph) (vaddr : ℕ) (at : vaddr ≡ ph.virtual_addr + off) where
    -- The pages of the segment are placed.
    abbrev pub AllPlaced : Space → Type 0
    AllPlaced s =
        (w : ℕ) → vaddr ≤ w → w < vaddr + ph.mem_size → HasPage page_flags pml4 first role s w

    copy_file-Stored :
        (s : Space)
        → AllPlaced s
        → Returned page_flags pml4 first role
            (Stored page_flags pml4 first role s vaddr (file_bytes ph))
            (copy_file page_flags pml4 false bs ph vaddr s)
    unfolding copy_file slice
    copy_file-Stored s pages = elim (dec_lt 0 ph.file_size) [
      | yes some_bytes ↦
          let test : ltb 0 ph.file_size ≡ true = ground (arith, some_bytes) in
          let in_file : leb (ph.offset + ph.file_size) (length bs) ≡ true =
            ground (arith, fits.inside) in
          let len : length (file_bytes ph) ≡ ph.file_size = length-file_bytes ph fits in
          rw (test, in_file)
            (copy-Stored page_flags pml4 first role (file_bytes ph) s vaddr
              (omega (arith, len, at, fits.placed, fits.sizes))
              (λ w lo hi. pages w lo (omega (arith, hi, len, fits.sizes))))
      | no empty ↦
          let none_left : ph.file_size ≡ 0 = omega (arith, empty) in
          let test : ltb 0 ph.file_size ≡ false = ground (arith, empty) in
          rw test (
            subst (λ n. Stored page_flags pml4 first role s vaddr (take n (drop ph.offset bs)) s)
              (sym none_left) (Stored-nil page_flags pml4 first role s vaddr))
    ]

    zero_bss-Stored :
        (s : Space)
        → AllPlaced s
        → Returned page_flags pml4 first role
            (Stored page_flags pml4 first role s
              (vaddr + ph.file_size)
              (replicate (ph.mem_size - ph.file_size) 0))
            (zero_bss page_flags pml4 false ph vaddr s)
    unfolding zero_bss
    zero_bss-Stored s pages = elim (dec_lt ph.file_size ph.mem_size) [
      | yes more ↦
          let test : ltb ph.file_size ph.mem_size ≡ true = ground (arith, more) in
          let len : length (replicate (ph.mem_size - ph.file_size) 0) ≡ ph.mem_size - ph.file_size =
            length-replicate _ 0 in
          let start : add64 vaddr ph.file_size ≡ vaddr + ph.file_size =
            omega (arith, at, fits.placed, fits.sizes) in
          rw (test, start)
            (copy-Stored page_flags pml4 first role (replicate (ph.mem_size - ph.file_size) 0) s
              (vaddr + ph.file_size) (omega (arith, len, at, fits.placed, fits.sizes))
              (λ w lo hi. pages w (omega (arith, lo)) (omega (arith, hi, len, fits.sizes))))
      | no all ↦
          let none_left : ph.mem_size - ph.file_size ≡ 0 = omega (arith, all) in
          let test : ltb ph.file_size ph.mem_size ≡ false = ground (arith, all) in
          rw test (
            subst
              (λ n. Stored page_flags pml4 first role s (vaddr + ph.file_size) (replicate n 0) s)
              (sym none_left) (Stored-nil page_flags pml4 first role s (vaddr + ph.file_size)))
    ]

    -- Addresses outside the segment read as before, and its own as the file says.
    pub record Filled (s s' : Space) : Type 0 where
      pub same : s'.memory ≡ s.memory
      pub image :
          (i : ℕ) → i < ph.mem_size → byte_at page_flags pml4 s' (vaddr + i) ≡ image_byte ph i
      pub others :
          (w : ℕ)
          → w < address_limit
          → HasPage page_flags pml4 first role s w
          → (w < vaddr) ⊎ (vaddr + ph.mem_size ≤ w)
          → byte_at page_flags pml4 s' w ≡ byte_at page_flags pml4 s w
      pub used : (p : ℕ) → first (p / 4096 * 4096) ≢ no_table → s'.bytes p ≡ s.bytes p

    module _ (s s1 s2 : Space) (pages : AllPlaced s)
        (a : Stored page_flags pml4 first role s vaddr (file_bytes ph) s1)
        (b : Stored page_flags pml4 first role s1
          (vaddr + ph.file_size)
          (replicate (ph.mem_size - ph.file_size) 0)
          s2) where
      page_then :
          (w : ℕ) → HasPage page_flags pml4 first role s w → HasPage page_flags pml4 first role s1 w
      page_then w there =
          subst (λ m. IsPlaced page_flags pml4 first role m.tables (page_number w)) (sym a.same)
            there

      image_at :
          (i : ℕ) → i < ph.mem_size → byte_at page_flags pml4 s2 (vaddr + i) ≡ image_byte ph i
      image_at i low =
          let there : HasPage page_flags pml4 first role s (vaddr + i) =
            pages (vaddr + i) (omega arith) (omega (arith, low)) in
          let len : length (file_bytes ph) ≡ ph.file_size = length-file_bytes ph fits in
          elim (dec_lt i ph.file_size) [
            | yes of_file ↦
                let test : ltb i ph.file_size ≡ true = ground (arith, of_file) in
                rw test (
                  Stored-outside page_flags pml4 first role s1 s2 _ _ b (vaddr + i)
                    (omega (arith, at, fits.placed, low)) (page_then _ there)
                    (inl (omega (arith, of_file)))
                  ∙ Stored-inside page_flags pml4 first role s s1 _ _ a i
                      (omega (arith, at, fits.placed, low)) there (omega (arith, of_file, len))
                  ∙ get_elem?-file_bytes ph i of_file)
            | no behind ↦
                let test : ltb i ph.file_size ≡ false = ground (arith, behind) in
                let j : ℕ = i - ph.file_size in
                let split : vaddr + i ≡ vaddr + ph.file_size + j = omega (arith, behind) in
                let count : length (replicate (ph.mem_size - ph.file_size) 0)
                    ≡ ph.mem_size - ph.file_size =
                  length-replicate _ 0 in
                rw test (
                  ap (byte_at page_flags pml4 s2) split
                  ∙ Stored-inside page_flags pml4 first role s1 s2 _ _ b j
                      (omega (arith, at, fits.placed, low))
                      (subst (HasPage page_flags pml4 first role s1) split (page_then _ there))
                      (omega (arith, behind, low, count))
                  ∙ get_elem?-replicate _ 0 j (omega (arith, behind, low)))
          ]

      filled : Filled s s2
      filled = record {
        same = b.same ∙ a.same;
        image = image_at;
        others = λ w lw there far.
            Stored-outside page_flags pml4 first role s1 s2 _ _ b w lw (page_then w there)
              (omega (arith, far, fits.sizes, length-replicate (ph.mem_size - ph.file_size) 0))
            ∙ Stored-outside page_flags pml4 first role s s1 _ _ a w lw there
                (omega (arith, far, fits.sizes, length-file_bytes ph fits));
        used = λ p u. b.used p u ∙ a.used p u;
      }

    fill_after :
        (s : Space) (r : Outcome Unit × Space)
        → AllPlaced s
        → Returned page_flags pml4 first role
            (Stored page_flags pml4 first role s vaddr (file_bytes ph))
            r
        → Returned page_flags pml4 first role
            (Filled s)
            (and_then r (λ _ s2. zero_bss page_flags pml4 false ph vaddr s2))
    fill_after s (ok u, s1) pages a =
        weaken page_flags pml4 first role (zero_bss page_flags pml4 false ph vaddr s1)
          (λ s2 b. filled s s1 s2 pages a b)
          (zero_bss-Stored s1 (λ w lo hi.
            subst (λ m. IsPlaced page_flags pml4 first role m.tables (page_number w)) (sym a.same)
              (pages w lo hi)))
    fill_after s (err e, s1) pages a = elim a [ ]
    fill_after s (panic, s1) pages a = elim a [ ]
    fill_after s (fault, s1) pages a = elim a [ ]

    pub fill-Filled :
        (s : Space)
        → AllPlaced s
        → Returned page_flags pml4 first role (Filled s) (
            and_then
              (copy_file page_flags pml4 false bs ph vaddr s)
              (λ _ s2. zero_bss page_flags pml4 false ph vaddr s2))
    fill-Filled s pages =
        fill_after s (copy_file page_flags pml4 false bs ph vaddr s) pages
          (copy_file-Stored s pages)
