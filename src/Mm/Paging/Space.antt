-- ===== src/Mm/Paging/Space.antt =====
-- The page tables as the address space that the pointer checks ask (hammam/src/sched/task.rs).
use pindos.Base.{
  ℕ, ◌+◌, ◌^◌, ◌%◌, ◌<◌, ◌≤◌, ◌≡◌, refl, ◌≢◌, some, none, arith, ◌∙◌, ap, inl, inr, Option-cases,
}
use pindos.Mm.UserPtr.{AddressSpace, from_raw_parts, ok, validate_user_slice, read_error, user_max}
use pindos.Mm.UserPtr.Pages.{validate-Answered}
use pindos.Mm.Region.Init.{align_down}
use pindos.Mm.Paging.{PageFlags, Tables, translate, translate_flags}
use pindos.Mm.Paging.Walk.{page_of, address, translate-page_of}
use pindos.Mm.Paging.Address.{page_number, same_page}

module _ (page_flags : PageFlags) (pml4 : ℕ) (t : Tables) where
  unfoldable pub address_space : AddressSpace
  address_space = record {
    translate = λ virt. translate page_flags pml4 t virt;
    translate_flags = λ virt. elim (translate_flags page_flags pml4 t virt) [
      | none ↦ none
      | some fl ↦ some (page_flags.contains fl page_flags.writable)
    ];
  }

  -- All addresses of a page are mapped or none is.
  page_of-same :
      (v virt : ℕ)
      → page_number v ≡ page_number virt
      → page_of page_flags t pml4 v ≡ page_of page_flags t pml4 virt
  page_of-same v virt e = let (p4, p3, p2, p1) = same_page v virt e in rw (p4, p3, p2, p1) refl

  mapped_at :
      (p : ℕ)
      → read_error address_space (align_down p) ≡ none
      → (page : ℕ) × (page_of page_flags t pml4 p ≡ some page)
  unfolding read_error address_space
  mapped_at p e = elim (Option-cases (page_of page_flags t pml4 p)) [
    | inr found ↦ found
    | inl absent ↦
        let low : page_of page_flags t pml4 (align_down p) ≡ none =
          page_of-same (align_down p) p (omega arith) ∙ absent in
        let nowhere : translate page_flags pml4 t (align_down p) ≡ none =
          translate-page_of page_flags t pml4 (align_down p)
          ∙ ap (λ x. address page_flags x (align_down p)) low in
        absurd (ground (arith, nowhere, e))
  ]

  -- A range that is accepted for reading and is not empty lies in the user half, and the page tables place
  -- each of its bytes.
  pub validate_user_slice-mapped :
      (fuel ptr len : ℕ)
      → 2 ^ 35 + 1 < fuel
      → validate_user_slice address_space fuel ptr len ≡ some (ok (from_raw_parts ptr len))
      → len ≢ 0
      → (ptr + len ≤ user_max)
        × ((p : ℕ)
            → ptr ≤ p
            → p < ptr + len
            → (page : ℕ) × (translate page_flags pml4 t p ≡ some (page + p % 4096)))
  unfolding validate_user_slice
  validate_user_slice-mapped fuel ptr len enough returned wanted =
      elim (validate-Answered (read_error address_space) fuel ptr len enough) [
        | inl (_, _, (_, inl none_wanted)) ↦ absurd (wanted none_wanted)
        | inl (_, _, (_, inr (h, every))) ↦ (
          h,
          λ p lo hi.
              let (page, place) = mapped_at p (every p lo hi) in
              (
                page,
                translate-page_of page_flags t pml4 p ∙ ap (λ x. address page_flags x p) place,
              ),
        )
        | inr (x, refused, _) ↦ absurd (cc (returned, refused))
      ]
