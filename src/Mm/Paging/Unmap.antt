-- ===== src/Mm/Paging/Unmap.antt =====
-- `unmap_page`: the page goes, the others stay.
use pindos.Base.{
  ℕ, ◌+◌, ◌/◌, ◌^◌, ◌%◌, ◌≡◌, refl, ◌≢◌, false, Option, some, none, arith, if◌then◌else◌, ◌∙◌, ap,
  sym, inl, inr, ◌⊎◌, ◌==◌, Option-cases, ◌↔◌,
}
use pindos.Base.Bits.{bit_and_low}
use pindos.Mm.Paging.{
  PageFlags, PhysFrame, Tables, UnmapError, is_huge, frame, unmap_page, unmap_leaf, pml4_index,
  pdpt_index, pd_index, pt_index, translate, translate_flags,
}
use pindos.Mm.Paging.Walk.{Role, level3, level2, child, IsTree, in_pml4, address, translate-page_of}
use pindos.Mm.Paging.Entries.{frame-zero}
use pindos.Mm.Paging.Leaf.{Leads, changed-IsTree, hit, miss}
use pindos.Mm.Paging.Address.{page_number, translate-changed}

module _ (page_flags : PageFlags) (pml4 : ℕ) where
  -- No large page stands at these indices.
  abbrev pub IsSmall : Tables → ℕ → ℕ → ℕ → Type 0
  IsSmall t h i j =
      (pdpt pd : ℕ)
      → frame page_flags (t pml4 h) ≡ some pdpt
      → frame page_flags (t pdpt i) ≡ some pd
      → is_huge page_flags (t pd j) ≡ false

  -- What `unmap_page` answers: the frame of the page, which is gone, or that there was none.
  abbrev Removed : (ℕ → Role) → Tables → ℕ → ℕ → ℕ → ℕ → (PhysFrame ⊎ UnmapError) × Tables → Type 0
  Removed role t h i j k (inr e, t') = (in_pml4 page_flags t pml4 h i j k ≡ none) × (t' ≡ t)
  Removed role t h i j k (inl phys, t') =
      (in_pml4 page_flags t pml4 h i j k ≡ some phys)
      × IsTree page_flags role pml4 t'
      × (in_pml4 page_flags t' pml4 h i j k ≡ none)
      × ((h' i' j' k' : ℕ)
          → (h' ≡ h → i' ≡ i → j' ≡ j → k' ≢ k)
          → in_pml4 page_flags t' pml4 h' i' j' k' ≡ in_pml4 page_flags t pml4 h' i' j' k')

  module _ (role : ℕ → Role) (t : Tables) (tree : IsTree page_flags role pml4 t) where
    unmap_leaf-Removed :
        (h i j k pdpt pd pt : ℕ)
        → Leads page_flags role pml4 t h i j pdpt pd pt
        → Removed role t h i j k (unmap_leaf page_flags t pt k)
    unfolding unmap_leaf
    unmap_leaf-Removed h i j k pdpt pd pt l = elim (Option-cases (frame page_flags (t pt k))) [
      | inl absent ↦
          rw (absent, unmap_leaf) (rw (l.link4, l.link3, l.link2, l.small, absent) refl, refl)
      | inr (phys, here) ↦
          rw (here, unmap_leaf)
            (
              rw (l.link4, l.link3, l.link2, l.small, here) refl,
              changed-IsTree page_flags role pml4 t tree l k 0,
              hit page_flags role pml4 t tree l k 0 ∙ frame-zero page_flags,
              λ h' i' j' k' other. miss page_flags role pml4 t tree l k 0 h' i' j' k' other,
            )
    ]

    Leads-of_links :
        (h i j pdpt pd pt : ℕ)
        → frame page_flags (t pml4 h) ≡ some pdpt
        → frame page_flags (t pdpt i) ≡ some pd
        → frame page_flags (t pd j) ≡ some pt
        → is_huge page_flags (t pd j) ≡ false
        → Leads page_flags role pml4 t h i j pdpt pd pt
    Leads-of_links h i j pdpt pd pt link4 link3 link2 small =
        let place3 : role pdpt ≡ level3 h =
          tree.edge pml4 h pdpt (rw tree.root tt) link4 ∙ ap (λ r. child r h) tree.root in
        let place2 : role pd ≡ level2 h i =
          tree.edge pdpt i pd (rw place3 tt) link3 ∙ ap (λ r. child r i) place3 in
        record {
          place3 = place3;
          place2 = place2;
          place1 = tree.edge pd j pt (rw place2 small) link2 ∙ ap (λ r. child r j) place2;
          link4 = link4;
          link3 = link3;
          link2 = link2;
          small = small;
        }

    unmap_page-Removed :
        (virt : ℕ)
        → IsSmall t (pml4_index virt) (pdpt_index virt) (pd_index virt)
        → Removed role t
            (pml4_index virt)
            (pdpt_index virt)
            (pd_index virt)
            (pt_index virt)
            (unmap_page page_flags pml4 t virt)
    unfolding unmap_page
    unmap_page-Removed virt small =
        elim (Option-cases (frame page_flags (t pml4 (pml4_index virt)))) [
          | inl e4 ↦ rw (e4, unmap_page) (rw e4 refl, refl)
          | inr (pdpt, e4) ↦ elim (Option-cases (frame page_flags (t pdpt (pdpt_index virt)))) [
            | inl e3 ↦ rw (e4, unmap_page, e3) (rw (e4, e3) refl, refl)
            | inr (pd, e3) ↦ elim (Option-cases (frame page_flags (t pd (pd_index virt)))) [
              | inl e2 ↦ rw (e4, unmap_page, e3, e2) (rw (e4, e3, e2) refl, refl)
              | inr (pt, e2) ↦
                  rw (e4, unmap_page, e3, e2)
                    (unmap_leaf-Removed _ _ _ _ pdpt pd pt
                      (Leads-of_links _ _ _ pdpt pd pt e4 e3 e2 (small pdpt pd e4 e3)))
            ]
          ]
        ]

  -- What a call of `unmap_page` leaves.
  abbrev pub Unmapped : Tables → ℕ → (PhysFrame ⊎ UnmapError) × Tables → Type 0
  Unmapped t virt (inr e, t') = (translate page_flags pml4 t virt ≡ none) × (t' ≡ t)
  Unmapped t virt (inl phys, t') =
      (translate page_flags pml4 t virt ≡ some (phys + virt % 4096))
      × ((role : ℕ → Role) × IsTree page_flags role pml4 t')
      × ((v : ℕ)
          → translate page_flags pml4 t' v
            ≡ (if page_number v == page_number virt then none else translate page_flags pml4 t v))

  module _ (role : ℕ → Role) (t : Tables) (tree : IsTree page_flags role pml4 t) (virt h i j k : ℕ)
      (e4 : h ≡ virt / 2 ^ 39 % 512) (e3 : i ≡ virt / 2 ^ 30 % 512) (e2 : j ≡ virt / 2 ^ 21 % 512)
      (e1 : k ≡ virt / 2 ^ 12 % 512) where
    at_indices :
        (page : Option ℕ)
        → in_pml4 page_flags t pml4 h i j k ≡ page
        → translate page_flags pml4 t virt ≡ address page_flags page virt
    at_indices page e =
        translate-page_of page_flags t pml4 virt
        ∙ ap (λ x. address page_flags x virt) (rw (sym e4, sym e3, sym e2, sym e1) e)

    Removed-Unmapped :
        (r : (PhysFrame ⊎ UnmapError) × Tables) → Removed role t h i j k r → Unmapped t virt r
    Removed-Unmapped (inr e, t') (absent, same) = (at_indices none absent, same)
    Removed-Unmapped (inl phys, t') (here, tree', gone, others) = (
      at_indices (some phys) here,
      (role, tree'),
      λ v.
          translate-changed page_flags pml4 virt h i j k e4 e3 e2 e1 t t' none v gone
            (λ h' i' j' k' _ other. others h' i' j' k' other),
    )

  -- On tables that form a tree, where no large page stands at the address, `unmap_page` answers the
  -- frame of the address's page, after which the tables form a tree again that has no such page and every
  -- other one; or it answers `NotMapped`, where the address was nowhere, and changes nothing.
  pub unmap_page-Unmapped :
      (role : ℕ → Role) (t : Tables) (virt : ℕ)
      → IsTree page_flags role pml4 t
      → IsSmall t (pml4_index virt) (pdpt_index virt) (pd_index virt)
      → Unmapped t virt (unmap_page page_flags pml4 t virt)
  unfolding pml4_index pdpt_index pd_index pt_index
  unmap_page-Unmapped role t virt tree small =
      Removed-Unmapped role t tree virt (pml4_index virt) (pdpt_index virt) (pd_index virt)
        (pt_index virt) (bit_and_low 9 (virt / 2 ^ 39)) (bit_and_low 9 (virt / 2 ^ 30))
        (bit_and_low 9 (virt / 2 ^ 21)) (bit_and_low 9 (virt / 2 ^ 12))
        (unmap_page page_flags pml4 t virt) (unmap_page-Removed role t tree virt small)

  -- Where no table of the third level holds a page of 1 GiB at the address, `translate` finds a place for
  -- it exactly if `translate_flags` finds flags.
  pub translate-translate_flags :
      (t : Tables) (virt : ℕ)
      → ((pdpt : ℕ)
          → frame page_flags (t pml4 (pml4_index virt)) ≡ some pdpt
          → is_huge page_flags (t pdpt (pdpt_index virt)) ≡ false)
      → (translate page_flags pml4 t virt ≡ none) ↔ (translate_flags page_flags pml4 t virt ≡ none)
  unfolding translate translate_flags
  translate-translate_flags t virt small =
      elim (Option-cases (frame page_flags (t pml4 (pml4_index virt)))) [
        | inl e ↦ (ground (arith, e), ground (arith, e))
        | inr (pdpt, e) ↦ (ground (arith, e, small pdpt e), ground (arith, e, small pdpt e))
      ]
