-- ===== src/Mm/Paging/Split.antt =====
-- A large page is split: its table of small pages says the same.
use mathlib.Core.Path.{subst}
use pindos.Base.{
  ℕ, zero, suc, ◌+◌, ◌*◌, ◌^◌, ◌%◌, ◌<◌, ◌≤◌, ◌≡◌, refl, ◌≢◌, true, false, some, arith, ◌∙◌, ap,
  inl, inr, Option-cases, Bool-cases,
}
use native.Mathlib.Decide.{ℕ_discrete}
use pindos.Mm.Paging.{
  PageFlags, PhysFrame, Tables, Memory, Result, ok, err, is_huge, frame, flags, entry_of,
  table_flags, allocate_frame, split_loop, split_page, split_huge, set_entry, and_then,
}
use pindos.Mm.Paging.Walk.{Role, no_table, level2, child, IsTree, frame-aligned}
use pindos.Mm.Paging.Entries.{frame-entry_of, bits-without_huge, frame-present}
use pindos.Mm.Paging.Grow.{Grown, extended}
use pindos.Mm.Paging.Backed.{IsBacked, Allocated, allocate_frame-Allocated}
use pindos.Mm.Paging.Create.{set_entry_self, set_entry_other, table_entry, table_entry_small}
use pindos.Mm.Paging.Step.{Step, Step-stay, Step-Grown}

abbrev flags_of_small : (page_flags : PageFlags) → Tables → ℕ → ℕ → page_flags.Flags
flags_of_small page_flags t a i =
    page_flags.difference (flags page_flags (t a i)) page_flags.huge_page

-- The tables with a new one, `g`, of small pages.
abbrev with_pages : PageFlags → Tables → ℕ → ℕ → ℕ → ℕ → Tables
with_pages page_flags t a i g huge =
    set_entry (split_loop page_flags 512 0 t g huge (flags_of_small page_flags t a i)) a i
      (entry_of page_flags g (table_flags page_flags))

module _ (page_flags : PageFlags) where
  open page_flags use {Flags, bits, difference, huge_page}

  split_loop_other :
      (n i : ℕ) (t : Tables) (g phys : ℕ) (fl : Flags) (f k : ℕ)
      → (f ≡ g → k < i)
      → split_loop page_flags n i t g phys fl f k ≡ t f k
  unfolding split_loop
  split_loop_other zero i t g phys fl f k h = refl
  split_loop_other (suc n) i t g phys fl f k h =
      split_loop_other n (i + 1) _ g phys fl f k (λ e. omega (arith, h e))
      ∙ set_entry_other t g i _ f k (λ e same. absurd (omega (arith, h e, same)))

  split_loop_at :
      (n i : ℕ) (t : Tables) (g phys : ℕ) (fl : Flags) (k : ℕ)
      → i ≤ k
      → k < i + n
      → split_loop page_flags n i t g phys fl g k ≡ entry_of page_flags (phys + k * 4096) fl
  unfolding split_loop
  split_loop_at zero i t g phys fl k lo hi = absurd (omega (arith, lo, hi))
  split_loop_at (suc n) i t g phys fl k lo hi = elim (ℕ_discrete i k) [
    | yes here ↦
        split_loop_other n (i + 1) _ g phys fl g k (λ e. omega (arith, here))
        ∙ rw here (set_entry_self t g k _)
    | no later ↦
        split_loop_at n (i + 1) _ g phys fl k (omega (arith, lo, later)) (omega (arith, hi))
  ]

  module _ (role : ℕ → Role) (pml4 : ℕ) (t : Tables) (a i h i' g huge : ℕ)
      (place : role a ≡ level2 h i') (unused : role g ≡ no_table) (al : g % 4096 ≡ 0)
      (small : g < 2 ^ 52) (large : huge % 2 ^ 21 ≡ 0) (here : frame page_flags (t a i) ≡ some huge)
      (is : is_huge page_flags (t a i) ≡ true) where
    abbrev small_flags : Flags
    small_flags = flags_of_small page_flags t a i

    abbrev with_small : Tables
    with_small = with_pages page_flags t a i g huge

    apart : g ≢ a
    apart e = absurd (cc (ap role e, unused, place))

    split_points : frame page_flags (with_small a i) ≡ some g
    split_points =
        ap (λ e. frame page_flags e) (set_entry_self _ a i _)
        ∙ table_entry page_flags role pml4 g al small

    split_small : is_huge page_flags (with_small a i) ≡ false
    split_small =
        ap (λ e. is_huge page_flags e) (set_entry_self _ a i _)
        ∙ table_entry_small page_flags role pml4 g al small

    small_page : (k : ℕ) → k < 512 → frame page_flags (with_small g k) ≡ some (huge + k * 4096)
    small_page k low =
        let bound : huge < 2 ^ 52 = (frame-aligned page_flags (t a i) huge here).1 in
        ap (λ e. frame page_flags e)
          (set_entry_other _ a i _ g k (λ e. absurd (apart e))
            ∙ split_loop_at 512 0 t g huge small_flags k (omega arith) (omega arith))
        ∙ frame-entry_of page_flags (huge + k * 4096) small_flags (omega (arith, large))
            (omega (arith, large, bound))
            (bits-without_huge page_flags (t a i) (frame-present page_flags (t a i) huge here))

    pub split-Grown : Grown page_flags role pml4 t with_small a i g
    split-Grown = record {
      unused = unused;
      inner = rw place refl;
      points = split_points;
      small = split_small;
      others = λ f k ne other.
          set_entry_other _ a i _ f k other
          ∙ split_loop_other 512 0 t g huge small_flags f k (λ e. absurd (ne e));
      leaf = inr (h, i', i, ap (λ r. child r i) place);
      same2 = λ h' i'' k r low. rw (split_points, split_small, small_page k low, here, is) refl;
      same3 = λ h' j k r low. absurd (cc (r, place));
      same4 = λ i'' j k r low. absurd (cc (r, place));
    }

module _ (page_flags : PageFlags) (pml4 : ℕ) where
  -- What `split_huge` answers: the entry leads to no large page then.
  abbrev pub Splitted : (ℕ → Role) → Memory → ℕ → ℕ → Result Unit × Memory → Type 0
  Splitted role m a i (ok u, m') =
      (role' : ℕ → Role) × Step page_flags pml4 role m a i role' m'
      × ((g : ℕ)
          → frame page_flags (m'.tables a i) ≡ some g
          → is_huge page_flags (m'.tables a i) ≡ false)
  Splitted role m a i (err e, m') = (role' : ℕ → Role) × Step page_flags pml4 role m a i role' m'

  module _ (role : ℕ → Role) (m : Memory) (a i h i' : ℕ)
      (tree : IsTree page_flags role pml4 m.tables) (backed : IsBacked role m)
      (place : role a ≡ level2 h i') where
    split_new :
        (huge : ℕ) (r : Result PhysFrame × Memory)
        → frame page_flags (m.tables a i) ≡ some huge
        → is_huge page_flags (m.tables a i) ≡ true
        → Allocated role m r
        → Splitted role m a i (
            and_then r (λ next m'. (
              ok tt,
              record m' {
                tables =
                    set_entry
                      (split_loop page_flags 512 0 m'.tables next huge (
                        page_flags.difference
                          (flags page_flags (m'.tables a i))
                          page_flags.huge_page))
                      a
                      i
                      (entry_of page_flags next (table_flags page_flags));
              },
            )))
    split_new huge (err e, m') here is (same, b) =
        (role, Step-stay page_flags pml4 role m m' a i tree same b)
    split_new huge (ok g, m') here is (unused, al, small, same, b) =
        let grown : Grown page_flags role pml4 m.tables (with_pages page_flags m'.tables a i g huge)
            a i g =
          subst
            (λ t. Grown page_flags role pml4 t (with_pages page_flags m'.tables a i g huge) a i g)
            same
            (split-Grown page_flags role pml4 m'.tables a i h i' g huge place unused al small
              (tree.large a h i' i huge place here is) (rw same here) (rw same is)) in
        let new : IsBacked (extended role a i g) m' = b (child (role a) i) in
        (
          extended role a i g,
          Step-Grown page_flags pml4 role m
              (record m' { tables = with_pages page_flags m'.tables a i g huge }) a i g tree grown
              (record { fl = new.fl; valid = new.valid; free = new.free }),
          λ g' e. grown.small,
        )

    pub split_huge-Splitted : Splitted role m a i (split_huge page_flags m a i)
    unfolding split_huge split_page
    split_huge-Splitted = elim (Option-cases (frame page_flags (m.tables a i))) [
      | inl absent ↦
          rw (absent, split_huge)
            (
              role,
              Step-stay page_flags pml4 role m m a i tree refl backed,
              λ g e. absurd (cc (absent, e)),
            )
      | inr (huge, here) ↦ elim (Bool-cases (is_huge page_flags (m.tables a i))) [
        | inl is ↦
            rw (here, split_huge, is)
              (split_new huge (allocate_frame m) here is (allocate_frame-Allocated role m backed))
        | inr not ↦
            rw (here, split_huge, not)
              (role, Step-stay page_flags pml4 role m m a i tree refl backed, λ g e. not)
      ]
    ]
