-- ===== src/Mm/Paging/Map.antt =====
-- `map_page`: its steps one after the other.
use mathlib.Core.Path.{subst}
use pindos.Base.{ℕ, ◌^◌, ◌%◌, ◌<◌, ◌≡◌, refl, some, ◌∙◌, ap, sym}
use pindos.Mm.Paging.{
  PageFlags, PhysFrame, Memory, Result, ok, err, is_huge, frame, entry_of, descend, split_huge,
  map_page, set_entry, and_then, pml4_index, pdpt_index, pd_index, pt_index,
}
use pindos.Mm.Paging.Walk.{Role, level3, level2, child, IsInner, IsTree}
use pindos.Mm.Paging.Entries.{frame-entry_of, bits-with_present}
use pindos.Mm.Paging.Backed.{IsBacked}
use pindos.Mm.Paging.Step.{Step, Descended, descend-Descended}
use pindos.Mm.Paging.Split.{Splitted, split_huge-Splitted}
use pindos.Mm.Paging.Kept.{Remapped, Remapped-after, Step-error}
use pindos.Mm.Paging.Leaf.{Leads, changed-IsTree, hit, miss}

module _ (page_flags : PageFlags) (pml4 : ℕ) where
  open page_flags use {Flags, union, present}

  module _ (h i j k phys : ℕ) (fl : Flags) (al : phys % 4096 ≡ 0) (small : phys < 2 ^ 52) where
    map_leaf : ℕ → Memory → Result Unit × Memory
    map_leaf pt m = (
      ok tt,
      record m { tables = set_entry m.tables pt k (entry_of page_flags phys (union fl present)) },
    )

    map_leaf-Remapped :
        (role : ℕ → Role) (m : Memory) (pdpt pd pt : ℕ)
        → IsTree page_flags role pml4 m.tables
        → IsBacked role m
        → Leads page_flags role pml4 m.tables h i j pdpt pd pt
        → Remapped page_flags pml4 role m h i j k phys (map_leaf pt m)
    unfolding map_leaf
    map_leaf-Remapped role m pdpt pd pt tree backed leads = (
      record {
        role = role;
        roles = λ f used. refl;
        tree = changed-IsTree page_flags role pml4 m.tables tree leads k _;
        backed = record { fl = backed.fl; valid = backed.valid; free = backed.free };
        others = λ h' i' j' k' low other.
            miss page_flags role pml4 m.tables tree leads k _ h' i' j' k' other;
      },
      hit page_flags role pml4 m.tables tree leads k _
          ∙ frame-entry_of page_flags phys (union fl present) al small
              (bits-with_present page_flags fl),
    )

    map_pt : ℕ → Memory → Result Unit × Memory
    map_pt pd m = and_then (descend page_flags m pd j) map_leaf

    -- The tables down to the directory.
    record Found (role : ℕ → Role) (m : Memory) (pdpt pd : ℕ) : Type 0 where
      tree : IsTree page_flags role pml4 m.tables
      backed : IsBacked role m
      place3 : role pdpt ≡ level3 h
      place2 : role pd ≡ level2 h i
      link4 : frame page_flags (m.tables pml4 h) ≡ some pdpt
      link3 : frame page_flags (m.tables pdpt i) ≡ some pd

    -- A step at the directory leaves the way to it.
    Found-Step :
        (role role' : ℕ → Role) (m m' : Memory) (pdpt pd : ℕ)
        → Found role m pdpt pd
        → Step page_flags pml4 role m pd j role' m'
        → Found role' m' pdpt pd
    Found-Step role role' m m' pdpt pd f step = record {
      tree = step.tree;
      backed = step.backed;
      place3 = step.roles pdpt (λ n. absurd (cc (n, f.place3))) ∙ f.place3;
      place2 = step.roles pd (λ n. absurd (cc (n, f.place2))) ∙ f.place2;
      link4 =
          ap (λ e. frame page_flags e)
            (step.kept pml4 h (λ n. absurd (cc (n, f.tree.root)))
              (λ e. absurd (cc (ap role e, f.tree.root, f.place2))))
          ∙ f.link4;
      link3 =
          ap (λ e. frame page_flags e)
            (step.kept pdpt i (λ n. absurd (cc (n, f.place3)))
              (λ e. absurd (cc (ap role e, f.place3, f.place2))))
          ∙ f.link3;
    }

    map_pt-Remapped :
        (role : ℕ → Role) (m : Memory) (pdpt pd : ℕ) (r : Result PhysFrame × Memory)
        → Found role m pdpt pd
        → Descended page_flags pml4 role m pd j r
        → Remapped page_flags pml4 role m h i j k phys (and_then r map_leaf)
    map_pt-Remapped role m pdpt pd (err e, m') f (role', step) =
        Step-error page_flags pml4 role role' m m' pd j h i j k step
    map_pt-Remapped role m pdpt pd (ok pt, m') f (role', step, link, inner, place) =
        let found : Found role' m' pdpt pd = Found-Step role role' m m' pdpt pd f step in
        Remapped-after page_flags pml4 role role' m m' step.same step.roles h i j k phys
          (map_leaf pt m')
          (map_leaf-Remapped role' m' pdpt pd pt found.tree found.backed (record {
            place3 = found.place3;
            place2 = found.place2;
            place1 = place ∙ ap (λ r. child r j) f.place2;
            link4 = found.link4;
            link3 = found.link3;
            link2 = link;
            small = subst (λ r. IsInner r (is_huge page_flags (m'.tables pd j))) f.place2 inner;
          }))

    map_pd : ℕ → Memory → Result Unit × Memory
    map_pd pd m = and_then (split_huge page_flags m pd j) (λ _ m'. map_pt pd m')

    map_pd-Remapped :
        (role : ℕ → Role) (m : Memory) (pdpt pd : ℕ) (r : Result Unit × Memory)
        → Found role m pdpt pd
        → Splitted page_flags pml4 role m pd j r
        → Remapped page_flags pml4 role m h i j k phys (and_then r (λ _ m'. map_pt pd m'))
    unfolding map_pt
    map_pd-Remapped role m pdpt pd (err e, m') f (role', step) =
        Step-error page_flags pml4 role role' m m' pd j h i j k step
    map_pd-Remapped role m pdpt pd (ok u, m') f (role', step, small) =
        let found : Found role' m' pdpt pd = Found-Step role role' m m' pdpt pd f step in
        Remapped-after page_flags pml4 role role' m m' step.same step.roles h i j k phys
          (map_pt pd m')
          (map_pt-Remapped role' m' pdpt pd (descend page_flags m' pd j) found (
            descend-Descended page_flags pml4 role' m' pd j found.tree found.backed
              (rw found.place2 refl)
              (λ g e.
                subst (λ r. IsInner r (is_huge page_flags (m'.tables pd j))) (sym found.place2)
                  (small g e))))

    map_pdpt : ℕ → Memory → Result Unit × Memory
    map_pdpt pdpt m = and_then (descend page_flags m pdpt i) map_pd

    map_pdpt-Remapped :
        (role : ℕ → Role) (m : Memory) (pdpt : ℕ) (r : Result PhysFrame × Memory)
        → IsTree page_flags role pml4 m.tables
        → role pdpt ≡ level3 h
        → frame page_flags (m.tables pml4 h) ≡ some pdpt
        → Descended page_flags pml4 role m pdpt i r
        → Remapped page_flags pml4 role m h i j k phys (and_then r map_pd)
    unfolding map_pd
    map_pdpt-Remapped role m pdpt (err e, m') tree place link4 (role', step) =
        Step-error page_flags pml4 role role' m m' pdpt i h i j k step
    map_pdpt-Remapped role m pdpt (ok pd, m') tree place link4 (role', step, link, inner, place') =
        let found : Found role' m' pdpt pd = record {
          tree = step.tree;
          backed = step.backed;
          place3 = step.roles pdpt (λ n. absurd (cc (n, place))) ∙ place;
          place2 = place' ∙ ap (λ r. child r i) place;
          link4 =
              ap (λ e. frame page_flags e)
                (step.kept pml4 h (λ n. absurd (cc (n, tree.root)))
                  (λ e. absurd (cc (ap role e, tree.root, place))))
              ∙ link4;
          link3 = link;
        } in
        Remapped-after page_flags pml4 role role' m m' step.same step.roles h i j k phys
          (map_pd pd m')
          (map_pd-Remapped role' m' pdpt pd (split_huge page_flags m' pd j) found (
            split_huge-Splitted page_flags pml4 role' m' pd j h i found.tree found.backed
              found.place2))

    map_pml4-Remapped :
        (role : ℕ → Role) (m : Memory) (r : Result PhysFrame × Memory)
        → IsTree page_flags role pml4 m.tables
        → Descended page_flags pml4 role m pml4 h r
        → Remapped page_flags pml4 role m h i j k phys (and_then r map_pdpt)
    unfolding map_pdpt
    map_pml4-Remapped role m (err e, m') tree (role', step) =
        Step-error page_flags pml4 role role' m m' pml4 h h i j k step
    map_pml4-Remapped role m (ok pdpt, m') tree (role', step, link, inner, place) =
        let place3 : role' pdpt ≡ level3 h = place ∙ ap (λ r. child r h) tree.root in
        Remapped-after page_flags pml4 role role' m m' step.same step.roles h i j k phys
          (map_pdpt pdpt m')
          (map_pdpt-Remapped role' m' pdpt (descend page_flags m' pdpt i) step.tree place3 link (
            descend-Descended page_flags pml4 role' m' pdpt i step.tree step.backed (rw place3 tt)
              (λ g e. rw place3 tt)))

module _ (page_flags : PageFlags) (pml4 : ℕ) where
  pub map_page-Remapped :
      (role : ℕ → Role) (m : Memory) (virt phys : ℕ) (fl : page_flags.Flags)
      → IsTree page_flags role pml4 m.tables
      → IsBacked role m
      → phys % 4096 ≡ 0
      → phys < 2 ^ 52
      → Remapped page_flags pml4 role m
          (pml4_index virt)
          (pdpt_index virt)
          (pd_index virt)
          (pt_index virt)
          phys
          (map_page page_flags pml4 m virt phys fl)
  unfolding map_page map_pdpt map_pd map_pt map_leaf
  map_page-Remapped role m virt phys fl tree backed al small =
      map_pml4-Remapped page_flags pml4 (pml4_index virt) (pdpt_index virt) (pd_index virt)
        (pt_index virt) phys fl al small role m (descend page_flags m pml4 (pml4_index virt)) tree
        (descend-Descended page_flags pml4 role m pml4 (pml4_index virt) tree backed
          (rw tree.root tt) (λ g e. rw tree.root tt))
