-- ===== src/Mm/Paging/Walk.antt =====
-- The walk through the four levels, a step at a time, and what each table is for.
use pindos.Base.{
  ℕ, ◌+◌, ◌-◌, ◌*◌, ◌/◌, ◌%◌, ◌^◌, ◌<◌, ◌≡◌, ◌≢◌, Bool, true, false, Option, some, none, bit_and,
  arith, if◌then◌else◌,
}
use pindos.Base.Bits.{bit_and_low, bit_and_high}
use pindos.Mm.Paging.{
  PageFlags, Tables, is_huge, frame, pml4_index, pdpt_index, pd_index, pt_index, translate,
}

-- The place of a table in the tree, by the indices that lead to it; or the number of the page that a
-- frame holds.
pub data Role : Type 0 where
  no_table : Role
  level4 : Role
  level3 : ℕ → Role
  level2 : ℕ → ℕ → Role
  level1 : ℕ → ℕ → ℕ → Role
  page : ℕ → Role

-- The place of the table that an entry leads to.
abbrev pub child : Role → ℕ → Role
child level4 h = level3 h
child (level3 h) i = level2 h i
child (level2 h i) j = level1 h i j
child _ k = no_table

-- Does an entry of a table of this place lead to a table, if it is present?
abbrev pub IsInner : Role → Bool → Type 0
IsInner level4 huge = Unit
IsInner (level3 h) huge = Unit
IsInner (level2 h i) huge = huge ≡ false
IsInner _ huge = ⊥

pub child-used : (r : Role) (huge : Bool) (k : ℕ) → IsInner r huge → child r k ≢ no_table
child-used no_table huge k n e = elim n [ ]
child-used (level1 _ _ _) huge k n e = elim n [ ]
child-used (page _) huge k n e = elim n [ ]
child-used level4 huge k n e = absurd cc
child-used (level3 h) huge k n e = absurd cc
child-used (level2 h i) huge k n e = absurd cc

module _ (page_flags : PageFlags) where
  -- The small page that the indices lead to from a table of each level.
  abbrev pub in_pt : Tables → ℕ → ℕ → Option ℕ
  in_pt t f k = frame page_flags (t f k)

  abbrev pub below_pd : Tables → Bool → Option ℕ → ℕ → Option ℕ
  below_pd t huge none k = none
  below_pd t huge (some g) k = if huge then some (g + k * 4096) else in_pt t g k

  abbrev pub in_pd : Tables → ℕ → ℕ → ℕ → Option ℕ
  in_pd t f j k = below_pd t (is_huge page_flags (t f j)) (frame page_flags (t f j)) k

  abbrev pub below_pdpt : Tables → Option ℕ → ℕ → ℕ → Option ℕ
  below_pdpt t none j k = none
  below_pdpt t (some g) j k = in_pd t g j k

  abbrev pub in_pdpt : Tables → ℕ → ℕ → ℕ → ℕ → Option ℕ
  in_pdpt t f i j k = below_pdpt t (frame page_flags (t f i)) j k

  abbrev pub below_pml4 : Tables → Option ℕ → ℕ → ℕ → ℕ → Option ℕ
  below_pml4 t none i j k = none
  below_pml4 t (some g) i j k = in_pdpt t g i j k

  abbrev pub in_pml4 : Tables → ℕ → ℕ → ℕ → ℕ → ℕ → Option ℕ
  in_pml4 t f h i j k = below_pml4 t (frame page_flags (t f h)) i j k

  -- Every table that the walk reaches has its own place; large pages are aligned.
  pub record IsTree (role : ℕ → Role) (pml4 : ℕ) (t : Tables) : Type 0 where
    pub root : role pml4 ≡ level4
    pub edge :
        (f k g : ℕ)
        → IsInner (role f) (is_huge page_flags (t f k))
        → frame page_flags (t f k) ≡ some g
        → role g ≡ child (role f) k
    pub large :
        (f h i j g : ℕ)
        → role f ≡ level2 h i
        → frame page_flags (t f j) ≡ some g
        → is_huge page_flags (t f j) ≡ true
        → g % 2 ^ 21 ≡ 0

  -- The page of an address, with the offset in it.
  abbrev pub address : Option ℕ → ℕ → Option ℕ
  address none virt = none
  address (some phys) virt = some (phys + virt % 4096)

  abbrev pub page_of : Tables → ℕ → ℕ → Option ℕ
  page_of t pml4 virt =
      in_pml4 t pml4 (virt / 2 ^ 39 % 512) (virt / 2 ^ 30 % 512) (virt / 2 ^ 21 % 512)
        (virt / 2 ^ 12 % 512)

  pub translate-page_of :
      (t : Tables) (pml4 virt : ℕ)
      → translate page_flags pml4 t virt ≡ address (page_of t pml4 virt) virt
  unfolding translate pml4_index pdpt_index pd_index pt_index
  translate-page_of t pml4 virt =
      let i4 : pml4_index virt ≡ virt / 2 ^ 39 % 512 = bit_and_low 9 (virt / 2 ^ 39) in
      let i3 : pdpt_index virt ≡ virt / 2 ^ 30 % 512 = bit_and_low 9 (virt / 2 ^ 30) in
      let i2 : pd_index virt ≡ virt / 2 ^ 21 % 512 = bit_and_low 9 (virt / 2 ^ 21) in
      let i1 : pt_index virt ≡ virt / 2 ^ 12 % 512 = bit_and_low 9 (virt / 2 ^ 12) in
      let small : bit_and virt 4095 ≡ virt % 4096 = bit_and_low 12 virt in
      let big : bit_and virt (2 ^ 21 - 1) ≡ virt / 2 ^ 12 % 512 * 4096 + virt % 4096 =
        omega (arith, bit_and_low 21 virt) in
      ground (arith, i4, i3, i2, i1, small, big)

  -- The frame of an entry is a page below 2 ^ 52.
  pub frame-aligned : (e g : ℕ) → frame page_flags e ≡ some g → (g % 4096 ≡ 0) × (g < 2 ^ 52)
  unfolding frame
  frame-aligned e g h = ground (arith, bit_and_high 12 40 e)
