-- ===== src/Mm/Paging/Kept.antt =====
-- What a call of `map_page` may change: one page, and the tables that lead to it.
use pindos.Base.{ℕ, ◌<◌, ◌≡◌, ◌≢◌, some, ◌∙◌, sym}
use pindos.Mm.Paging.{PageFlags, Tables, Memory, Result, ok, err}
use pindos.Mm.Paging.Walk.{Role, no_table, IsTree, in_pml4}
use pindos.Mm.Paging.Backed.{IsBacked}
use pindos.Mm.Paging.Step.{Step}

module _ (page_flags : PageFlags) (pml4 : ℕ) where
  -- The memories `m` and `m'` place the same page under these indices.
  abbrev pub Same : Tables → Tables → ℕ → ℕ → ℕ → ℕ → Type 0
  Same t t' h i j k = in_pml4 page_flags t' pml4 h i j k ≡ in_pml4 page_flags t pml4 h i j k

  -- The page at the indices is `phys` if the call succeeds, and every other one stays.
  pub record Kept (before : ℕ → Role) (m m' : Memory) (h i j k : ℕ) : Type 0 where
    pub role : ℕ → Role
    pub roles : (f : ℕ) → before f ≢ no_table → role f ≡ before f
    pub tree : IsTree page_flags role pml4 m'.tables
    pub backed : IsBacked role m'
    pub others :
        (h' i' j' k' : ℕ)
        → k' < 512
        → (h' ≡ h → i' ≡ i → j' ≡ j → k' ≢ k)
        → Same m.tables m'.tables h' i' j' k'

  abbrev pub Remapped : (ℕ → Role) → Memory → ℕ → ℕ → ℕ → ℕ → ℕ → Result Unit × Memory → Type 0
  Remapped before m h i j k phys (ok u, m') =
      Kept before m m' h i j k × (in_pml4 page_flags m'.tables pml4 h i j k ≡ some phys)
  Remapped before m h i j k phys (err e, m') =
      Kept before m m' h i j k
      × ((h' i' j' k' : ℕ) → k' < 512 → Same m.tables m'.tables h' i' j' k')

  module _ (first before : ℕ → Role) (m m1 : Memory)
      (same : (h' i' j' k' : ℕ) → k' < 512 → Same m.tables m1.tables h' i' j' k')
      (roles : (f : ℕ) → first f ≢ no_table → before f ≡ first f) where
    Kept-after : (m' : Memory) (h i j k : ℕ) → Kept before m1 m' h i j k → Kept first m m' h i j k
    Kept-after m' h i j k kept = record {
      role = kept.role;
      roles = λ f used. kept.roles f (λ e. used (sym (roles f used) ∙ e)) ∙ roles f used;
      tree = kept.tree;
      backed = kept.backed;
      others = λ h' i' j' k' low other. kept.others h' i' j' k' low other ∙ same h' i' j' k' low;
    }

    pub Remapped-after :
        (h i j k phys : ℕ) (r : Result Unit × Memory)
        → Remapped before m1 h i j k phys r
        → Remapped first m h i j k phys r
    Remapped-after h i j k phys (ok u, m') (kept, here) = (Kept-after m' h i j k kept, here)
    Remapped-after h i j k phys (err e, m') (kept, all) =
        (Kept-after m' h i j k kept, λ h' i' j' k' low. all h' i' j' k' low ∙ same h' i' j' k' low)

  pub Step-error :
      (role role' : ℕ → Role) (m m' : Memory) (a x h i j k : ℕ)
      → Step page_flags pml4 role m a x role' m'
      → Kept role m m' h i j k
        × ((h' i' j' k' : ℕ) → k' < 512 → Same m.tables m'.tables h' i' j' k')
  Step-error role role' m m' a x h i j k step = (
    record {
      role = role';
      roles = step.roles;
      tree = step.tree;
      backed = step.backed;
      others = λ h' i' j' k' low _. step.same h' i' j' k' low;
    },
    step.same,
  )
