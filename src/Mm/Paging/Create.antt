-- ===== src/Mm/Paging/Create.antt =====
-- A missing table is created: a page of zeros, and an entry that leads to it.
use pindos.Base.{
  ℕ, ◌^◌, ◌%◌, ◌<◌, ◌≡◌, refl, ◌≢◌, Bool, false, some, none, arith, ◌∙◌, ap, sym, inl, update,
  update_self, update_ne,
}
use pindos.Mm.Paging.{
  PageFlags, Tables, is_huge, frame, entry_of, table_flags, zero_table, set_entry,
}
use pindos.Mm.Paging.Walk.{Role, no_table, level4, level3, level2, level1, page, IsInner}
use pindos.Mm.Paging.Entries.{frame-entry_of, is_huge-entry_of, bits-table_flags, frame-zero}
use pindos.Mm.Paging.Grow.{Grown}

pub set_entry_self : (t : Tables) (a i e : ℕ) → set_entry t a i e a i ≡ e
unfolding set_entry
set_entry_self t a i e = ground arith

pub set_entry_other : (t : Tables) (a i e f k : ℕ) → (f ≡ a → k ≢ i) → set_entry t a i e f k ≡ t f k
unfolding set_entry
set_entry_other t a i e f k h = ground arith

-- The tables with a new one, `g`.
abbrev pub with_table : PageFlags → Tables → ℕ → ℕ → ℕ → Tables
with_table page_flags t a i g =
    set_entry (update t g zero_table) a i (entry_of page_flags g (table_flags page_flags))

module _ (page_flags : PageFlags) (role : ℕ → Role) (pml4 : ℕ) where
  -- The entry of a new table leads to it.
  pub table_entry :
      (g : ℕ)
      → g % 4096 ≡ 0
      → g < 2 ^ 52
      → frame page_flags (entry_of page_flags g (table_flags page_flags)) ≡ some g
  table_entry g al small =
      frame-entry_of page_flags g (table_flags page_flags) al small
        (omega (arith, bits-table_flags page_flags))

  pub table_entry_small :
      (g : ℕ)
      → g % 4096 ≡ 0
      → g < 2 ^ 52
      → is_huge page_flags (entry_of page_flags g (table_flags page_flags)) ≡ false
  table_entry_small g al small =
      is_huge-entry_of page_flags g (table_flags page_flags) al small
        (omega (arith, bits-table_flags page_flags))

  pub inner-used : (r : Role) (huge : Bool) → IsInner r huge → r ≢ no_table
  inner-used no_table huge h e = elim h [ ]
  inner-used level4 huge h e = absurd cc
  inner-used (level3 _) huge h e = absurd cc
  inner-used (level2 _ _) huge h e = absurd cc
  inner-used (level1 _ _ _) huge h e = elim h [ ]
  inner-used (page _) huge h e = elim h [ ]

  module _ (t : Tables) (a i g : ℕ) (unused : role g ≡ no_table) (inner : IsInner (role a) false)
      (al : g % 4096 ≡ 0) (small : g < 2 ^ 52) where
    abbrev created : Tables
    created = with_table page_flags t a i g

    created_points : frame page_flags (created a i) ≡ some g
    created_points =
        ap (λ e. frame page_flags e) (set_entry_self (update t g zero_table) a i _)
        ∙ table_entry g al small

    created_small : is_huge page_flags (created a i) ≡ false
    created_small =
        ap (λ e. is_huge page_flags e) (set_entry_self (update t g zero_table) a i _)
        ∙ table_entry_small g al small

    created_other : (f k : ℕ) → f ≢ g → (f ≡ a → k ≢ i) → created f k ≡ t f k
    created_other f k ne other =
        set_entry_other (update t g zero_table) a i _ f k other
        ∙ ap (λ x. x k) (update_ne t g f zero_table (λ e. ne (sym e)))

    created_zero : (k : ℕ) → created g k ≡ 0
    unfolding zero_table
    created_zero k =
        set_entry_other (update t g zero_table) a i _ g k
          (λ e. absurd (inner-used (role a) false inner (ap role (sym e) ∙ unused)))
        ∙ ap (λ x. x k) (update_self t g zero_table)

    created_empty : (k : ℕ) → frame page_flags (created g k) ≡ none
    created_empty k = ap (λ e. frame page_flags e) (created_zero k) ∙ frame-zero page_flags

    pub created-Grown : frame page_flags (t a i) ≡ none → Grown page_flags role pml4 t created a i g
    created-Grown absent = record {
      unused = unused;
      inner = inner;
      points = created_points;
      small = created_small;
      others = created_other;
      leaf = inl created_empty;
      same2 = λ h i' k r low. rw (created_points, created_small, created_empty k, absent) refl;
      same3 = λ h j k r low. rw (created_points, created_empty j, absent) refl;
      same4 = λ i' j k r low. rw (created_points, created_empty i', absent) refl;
    }
