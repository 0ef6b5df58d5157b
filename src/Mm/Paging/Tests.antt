-- ===== src/Mm/Paging/Tests.antt =====
-- Flags as numbers within the mask, and four tables that place the first 2 MiB of addresses as one
-- large page at 2 MiB, and the page after them; and one free page.
use pindos.Base.{
  ℕ, ◌+◌, ◌-◌, ◌^◌, ◌%◌, ◌<◌, ◌≤◌, ◌≡◌, refl, true, false, Option, some, arith, ◌∙◌, ap, sym, inl,
  inr, ◌⊎◌, ◌==◌, bit_and, bit_or, update,
}
use mathlib.Core.Path.{subst}
use pindos.Base.Sets.{bit_or-IsWithin, less-IsWithin}
use pindos.Mm.Buddy.Tests.{one_page, one_block, one_page-IsValid, cover-one_block}
use pindos.Mm.Paging.Walk.{
  Role, no_table, level4, level3, level2, level1, child, IsInner, IsTree, translate-page_of,
  address, page_of,
}
use pindos.Mm.Paging.Backed.{IsBacked}
use pindos.Mm.Paging.Address.{Mapped, map_page-Mapped, page_number, same_page}
use pindos.Mm.Paging.Unmap.{IsSmall, Unmapped, unmap_page-Unmapped}
use pindos.Mm.Paging.Space.{address_space, validate_user_slice-mapped}
use pindos.Mm.UserPtr.{
  validate_user_slice, validate, page_loop, read_error, from_raw_parts, ok, user_max,
}
use pindos.Mm.Paging.{
  PageFlags, all_bits, Memory, Tables, map_page, unmap_page, frame, is_huge, is_present, flags,
  translate, pml4_index, pdpt_index, pd_index, pt_index,
}
use pindos.Mm.Paging.Entries.{all_bits_lem, frame-zero}

pub record Flags : Type 0 where
  bits : ℕ
  known : bit_and bits all_bits ≡ bits

pub masked : (e : ℕ) → bit_and (bit_and e all_bits) all_bits ≡ bit_and e all_bits
masked e = all_bits_lem (bit_and e all_bits) ∙ omega (arith, all_bits_lem e)

abbrev pub page_flags : PageFlags
page_flags = record {
  Flags = Flags;
  bits = λ f. f.bits;
  from_bits_truncate = λ e. record { bits = bit_and e all_bits; known = masked e };
  contains = λ f g. bit_and f.bits g.bits == g.bits;
  union = λ f g. record {
    bits = bit_or f.bits g.bits;
    known = bit_or-IsWithin (f.bits + g.bits) f.bits g.bits all_bits (omega arith) f.known g.known;
  };
  difference = λ f g. record {
    bits = f.bits - bit_and f.bits g.bits;
    known = less-IsWithin f.bits f.bits g.bits all_bits (omega arith) f.known;
  };
  present = record { bits = 1; known = refl };
  writable = record { bits = 2; known = refl };
  user_accessible = record { bits = 4; known = refl };
  huge_page = record { bits = 128; known = refl };
  no_execute = record { bits = 2 ^ 63; known = refl };
  bits_present = refl;
  bits_writable = refl;
  bits_user_accessible = refl;
  bits_huge_page = refl;
  bits_no_execute = refl;
  bits_known = λ f. f.known;
  bits_from = λ e. refl;
  contains_lem = λ f g. refl;
  bits_union = λ f g. refl;
  bits_difference = λ f g. refl;
}

abbrev pub only : ℕ → ℕ → ℕ
only e = update (λ _. 0) 0 e

abbrev pub tables : Tables
tables =
    update
      (update (update (update (λ _ _. 0) 65536 (only 131079)) 131072 (only 196615)) 196608
        (update (only 2097283) 1 262151))
      262144 (only 12291)

abbrev pub role : ℕ → Role
role =
    update
      (update (update (update (λ _. no_table) 65536 level4) 131072 (level3 0)) 196608 (level2 0 0))
      262144 (level1 0 0 1)

abbrev pub memory : Memory
memory = record { tables = tables; allocator = one_page }

-- Every entry is zero, or one of the five.
entry_cases :
    (f k : ℕ)
    → (tables f k ≡ 0)
      ⊎ ((f ≡ 65536) × (k ≡ 0))
      ⊎ ((f ≡ 131072) × (k ≡ 0))
      ⊎ ((f ≡ 196608) × (k ≡ 0))
      ⊎ ((f ≡ 196608) × (k ≡ 1))
      ⊎ (f ≡ 262144)
entry_cases f k = ground arith

pub memory-IsBacked : IsBacked role memory
memory-IsBacked = record {
  fl = one_block;
  valid = one_page-IsValid;
  free = λ p h. let (lo, hi) = cover-one_block p h in (ground (arith, lo, hi), omega (arith, hi));
}

abbrev at : ℕ → Option ℕ
at e = frame page_flags e

-- What the entries of the upper tables lead to.
entries_test :
    (at 131079 ≡ some 131072)
    × (at 196615 ≡ some 196608)
    × (at 2097283 ≡ some 2097152)
    × (at 262151 ≡ some 262144)
    × (is_huge page_flags 2097283 ≡ true)
    × (is_huge page_flags 262151 ≡ false)
unfolding frame is_present is_huge flags
entries_test = (refl, refl, refl, refl, refl, refl)

entry_at : (f k x y : ℕ) → f ≡ x → k ≡ y → tables f k ≡ tables x y
entry_at f k x y p q = rw (p, q) refl

tables-edge :
    (f k g : ℕ)
    → IsInner (role f) (is_huge page_flags (tables f k))
    → at (tables f k) ≡ some g
    → role g ≡ child (role f) k
tables-edge f k g inner e = elim (entry_cases f k) [
  | inl zero_entry ↦ absurd (cc (e, zero_entry, frame-zero page_flags))
  | inr (inl (ff, kk)) ↦
      let next : g ≡ 131072 = cc (e, entry_at f k 65536 0 ff kk, entries_test.0) in
      rw (next, ff, kk) refl
  | inr (inr (inl (ff, kk))) ↦
      let next : g ≡ 196608 = cc (e, entry_at f k 131072 0 ff kk, entries_test.1) in
      rw (next, ff, kk) refl
  | inr (inr (inr (inl (ff, kk)))) ↦
      let small : is_huge page_flags (tables f k) ≡ false =
        subst (λ x. IsInner (role x) (is_huge page_flags (tables f k))) ff inner in
      absurd (cc (small, entry_at f k 196608 0 ff kk, entries_test.4))
  | inr (inr (inr (inr (inl (ff, kk))))) ↦
      let next : g ≡ 262144 = cc (e, entry_at f k 196608 1 ff kk, entries_test.3) in
      rw (next, ff, kk) refl
  | inr (inr (inr (inr (inr ff)))) ↦
      absurd (subst (λ x. IsInner (role x) (is_huge page_flags (tables f k))) ff inner)
]

tables-large :
    (f h i j g : ℕ)
    → role f ≡ level2 h i
    → at (tables f j) ≡ some g
    → is_huge page_flags (tables f j) ≡ true
    → g % 2 ^ 21 ≡ 0
tables-large f h i j g r e huge = elim (entry_cases f j) [
  | inl zero_entry ↦ absurd (cc (e, zero_entry, frame-zero page_flags))
  | inr (inl (ff, kk)) ↦ absurd (cc (sym (ap role ff) ∙ r))
  | inr (inr (inl (ff, kk))) ↦ absurd (cc (sym (ap role ff) ∙ r))
  | inr (inr (inr (inl (ff, kk)))) ↦
      let next : g ≡ 2097152 = cc (e, entry_at f j 196608 0 ff kk, entries_test.2) in rw next refl
  | inr (inr (inr (inr (inl (ff, kk))))) ↦
      absurd (cc (huge, entry_at f j 196608 1 ff kk, entries_test.5))
  | inr (inr (inr (inr (inr ff)))) ↦ absurd (cc (sym (ap role ff) ∙ r))
]

pub tables-IsTree : IsTree page_flags role 65536 tables
tables-IsTree = record { root = refl; edge = tables-edge; large = tables-large }

-- The second page of the large one is mapped elsewhere, which splits it.
map_page-Mapped_example :
    Mapped page_flags 65536 role memory 4096 8388608
      (map_page page_flags 65536 memory 4096 8388608 page_flags.writable)
map_page-Mapped_example =
    map_page-Mapped page_flags 65536 role memory 4096 8388608 page_flags.writable tables-IsTree
      memory-IsBacked refl (omega arith)

-- The walk to the page after the large one passes no large page.
second_page :
    IsSmall page_flags 65536 tables (pml4_index (2 ^ 21)) (pdpt_index (2 ^ 21)) (pd_index (2 ^ 21))
unfolding pml4_index pdpt_index pd_index
second_page pdpt pd e4 e3 =
    let first : pdpt ≡ 131072 = cc (e4, entries_test.0) in
    let next : pd ≡ 196608 = cc (e3, entry_at pdpt 0 131072 0 first refl, entries_test.1) in
    ap (λ x. is_huge page_flags x) (entry_at pd 1 196608 1 next refl) ∙ entries_test.5

unmap_page-Unmapped_example :
    Unmapped page_flags 65536 tables (2 ^ 21) (unmap_page page_flags 65536 tables (2 ^ 21))
unmap_page-Unmapped_example =
    unmap_page-Unmapped page_flags 65536 role tables (2 ^ 21) tables-IsTree second_page

-- Ten bytes of the page after the large one.
second_page_test : translate page_flags 65536 tables (2 ^ 21) ≡ some 12288
unfolding translate pml4_index pdpt_index pd_index pt_index frame is_present is_huge flags
second_page_test = refl

accepted :
    validate_user_slice (address_space page_flags 65536 tables) (2 ^ 35 + 2) (2 ^ 21) 10
    ≡ some (ok (from_raw_parts (2 ^ 21) 10))
unfolding validate_user_slice validate page_loop read_error address_space translate pml4_index
    pdpt_index pd_index pt_index frame is_present is_huge flags
accepted = refl

validate_user_slice-mapped_example :
    (2 ^ 21 + 10 ≤ user_max)
    × ((p : ℕ)
        → 2 ^ 21 ≤ p
        → p < 2 ^ 21 + 10
        → (page : ℕ) × (translate page_flags 65536 tables p ≡ some (page + p % 4096)))
validate_user_slice-mapped_example =
    validate_user_slice-mapped page_flags 65536 tables (2 ^ 35 + 2) (2 ^ 21) 10 (omega arith)
      accepted (λ e. absurd (omega (arith, e)))

-- The page after the large one is the frame 12288, at each of its addresses.
pub second_page_found :
    (v : ℕ) → page_number v ≡ 512 → translate page_flags 65536 tables v ≡ some (12288 + v % 4096)
unfolding frame is_present is_huge flags
second_page_found v e =
    let (p4, p3, p2, p1) = same_page v (2 ^ 21) e in
    let here : page_of page_flags tables 65536 v ≡ some 12288 = rw (p4, p3, p2, p1) refl in
    translate-page_of page_flags tables 65536 v ∙ ap (λ x. address page_flags x v) here
