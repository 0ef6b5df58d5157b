-- ===== src/Mm/Paging/Address.antt =====
-- `map_page` by addresses: one page changes, the others stay.
use pindos.Base.{
  Bool-cases, inl, inr, ℕ, ◌+◌, ◌*◌, ◌/◌, ◌^◌, ◌%◌, ◌<◌, ◌≡◌, ◌≢◌, Option, some, arith,
  if◌then◌else◌, ◌∙◌, ap, sym, inl, inr, ◌==◌,
}
use pindos.Base.Bits.{bit_and_low}
use pindos.Mm.Paging.{
  PageFlags, Tables, Memory, Result, ok, err, map_page, pml4_index, pdpt_index, pd_index, pt_index,
  translate,
}
use pindos.Mm.Paging.Walk.{Role, no_table, IsTree, in_pml4, page_of, address, translate-page_of}
use pindos.Mm.Paging.Backed.{IsBacked}
use pindos.Mm.Paging.Map.{map_page-Remapped}
use pindos.Mm.Paging.Kept.{Remapped}

-- The number of the page of an address, whose upper 16 bits the walk does not read.
abbrev pub page_number : ℕ → ℕ
page_number virt = virt / 4096 % 2 ^ 36

number_parts :
    (v : ℕ)
    → page_number v
      ≡ ((v / 2 ^ 39 % 512 * 512 + v / 2 ^ 30 % 512) * 512 + v / 2 ^ 21 % 512) * 512
        + v / 2 ^ 12 % 512
number_parts v = omega arith

-- Two addresses of one page have the same indices.
pub same_page :
    (v virt : ℕ)
    → page_number v ≡ page_number virt
    → (v / 2 ^ 39 % 512 ≡ virt / 2 ^ 39 % 512)
      × (v / 2 ^ 30 % 512 ≡ virt / 2 ^ 30 % 512)
      × (v / 2 ^ 21 % 512 ≡ virt / 2 ^ 21 % 512)
      × (v / 2 ^ 12 % 512 ≡ virt / 2 ^ 12 % 512)
same_page v virt e = (omega (arith, e), omega (arith, e), omega (arith, e), omega (arith, e))

module _ (page_flags : PageFlags) (pml4 : ℕ) where
  -- What a call of `map_page` leaves.
  abbrev pub Mapped : (ℕ → Role) → Memory → ℕ → ℕ → Result Unit × Memory → Type 0
  Mapped role m virt phys (ok u, m') =
      (role' : ℕ → Role) × ((f : ℕ) → role f ≢ no_table → role' f ≡ role f)
      × IsTree page_flags role' pml4 m'.tables
      × IsBacked role' m'
      × ((v : ℕ)
          → translate page_flags pml4 m'.tables v ≡ (
              if page_number v == page_number virt
              then some (phys + v % 4096)
              else translate page_flags pml4 m.tables v))
  Mapped role m virt phys (err e, m') =
      (role' : ℕ → Role) × ((f : ℕ) → role f ≢ no_table → role' f ≡ role f)
      × IsTree page_flags role' pml4 m'.tables
      × IsBacked role' m'
      × ((v : ℕ) → translate page_flags pml4 m'.tables v ≡ translate page_flags pml4 m.tables v)

  module _ (virt h i j k : ℕ) (e4 : h ≡ virt / 2 ^ 39 % 512) (e3 : i ≡ virt / 2 ^ 30 % 512)
      (e2 : j ≡ virt / 2 ^ 21 % 512) (e1 : k ≡ virt / 2 ^ 12 % 512) where
    -- One page changes, so the addresses on it do.
    pub translate-changed :
        (t t' : Tables) (new : Option ℕ) (v : ℕ)
        → in_pml4 page_flags t' pml4 h i j k ≡ new
        → ((h' i' j' k' : ℕ)
            → k' < 512
            → (h' ≡ h → i' ≡ i → j' ≡ j → k' ≢ k)
            → in_pml4 page_flags t' pml4 h' i' j' k' ≡ in_pml4 page_flags t pml4 h' i' j' k')
        → translate page_flags pml4 t' v ≡ (
            if page_number v == page_number virt
            then address page_flags new v
            else translate page_flags pml4 t v)
    translate-changed t t' new v here others =
        elim (Bool-cases (page_number v == page_number virt)) [
          | inl same ↦
              let (p4, p3, p2, p1) = same_page v virt (ground (arith, same)) in
              let place : page_of page_flags t' pml4 v ≡ new =
                rw (p4 ∙ sym e4, p3 ∙ sym e3, p2 ∙ sym e2, p1 ∙ sym e1) here in
              rw same
                (translate-page_of page_flags t' pml4 v ∙ ap (λ x. address page_flags x v) place)
          | inr other ↦
              let apart : page_number v ≢ page_number virt =
                λ e. absurd (ground (arith, other, e)) in
              rw other (
                translate-page_of page_flags t' pml4 v
                ∙ ap (λ x. address page_flags x v)
                    (others _ _ _ _ (omega arith) (λ p4 p3 p2 p1. apart (
                      number_parts v
                      ∙ rw (p4 ∙ e4, p3 ∙ e3, p2 ∙ e2, p1 ∙ e1) (sym (number_parts virt)))))
                ∙ sym (translate-page_of page_flags t pml4 v))
        ]

    Remapped-Mapped :
        (role : ℕ → Role) (m : Memory) (phys : ℕ) (r : Result Unit × Memory)
        → Remapped page_flags pml4 role m h i j k phys r
        → Mapped role m virt phys r
    Remapped-Mapped role m phys (ok u, m') (kept, here) = (
      kept.role,
      kept.roles,
      kept.tree,
      kept.backed,
      λ v. translate-changed m.tables m'.tables (some phys) v here kept.others,
    )
    Remapped-Mapped role m phys (err e, m') (kept, all) = (
      kept.role,
      kept.roles,
      kept.tree,
      kept.backed,
      λ v.
          translate-page_of page_flags m'.tables pml4 v
          ∙ ap (λ x. address page_flags x v) (all _ _ _ _ (omega arith))
          ∙ sym (translate-page_of page_flags m.tables pml4 v),
    )

  -- On tables that form a tree, with pages in the allocator that are not tables, `map_page` answers, and
  -- the tables form a tree again, in which everything that was in use keeps its role. If it succeeds, the page of the address is the frame, and every other
  -- address is where it was, also where a large page was split; if it fails, all addresses are.
  pub map_page-Mapped :
      (role : ℕ → Role) (m : Memory) (virt phys : ℕ) (fl : page_flags.Flags)
      → IsTree page_flags role pml4 m.tables
      → IsBacked role m
      → phys % 4096 ≡ 0
      → phys < 2 ^ 52
      → Mapped role m virt phys (map_page page_flags pml4 m virt phys fl)
  unfolding pml4_index pdpt_index pd_index pt_index
  map_page-Mapped role m virt phys fl tree backed al small =
      Remapped-Mapped virt (pml4_index virt) (pdpt_index virt) (pd_index virt) (pt_index virt)
        (bit_and_low 9 (virt / 2 ^ 39)) (bit_and_low 9 (virt / 2 ^ 30))
        (bit_and_low 9 (virt / 2 ^ 21)) (bit_and_low 9 (virt / 2 ^ 12)) role m phys
        (map_page page_flags pml4 m virt phys fl)
        (map_page-Remapped page_flags pml4 role m virt phys fl tree backed al small)
