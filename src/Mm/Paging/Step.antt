-- ===== src/Mm/Paging/Step.antt =====
-- A step of `map_page` leaves a tree of tables, in which every walk ends where it did.
use mathlib.Core.Path.{subst}
use pindos.Base.{
  ℕ, ◌<◌, ◌≡◌, refl, ◌≢◌, Bool, false, some, none, ◌∙◌, ap, sym, inl, inr, Option-cases, update,
  update_self,
}
use pindos.Mm.Paging.{
  PageFlags, PhysFrame, Memory, Result, ok, err, is_huge, frame, entry_of, table_flags,
  allocate_frame, descend, zero_table, set_entry, and_then,
}
use pindos.Mm.Paging.Walk.{Role, no_table, child, IsInner, IsTree, in_pml4}
use pindos.Mm.Paging.Grow.{Grown, extended, grown-IsTree, grown-same, kept_role}
use pindos.Mm.Paging.Backed.{IsBacked, Allocated, allocate_frame-Allocated}
use pindos.Mm.Paging.Create.{with_table, created-Grown}

module _ (page_flags : PageFlags) (pml4 : ℕ) where
  -- From the memory `m` to `m'`, at the entry of `a` and `i`.
  pub record Step (role : ℕ → Role) (m : Memory) (a i : ℕ) (role' : ℕ → Role) (m' : Memory)
      : Type 0 where
    pub tree : IsTree page_flags role' pml4 m'.tables
    pub backed : IsBacked role' m'
    pub same :
        (h i' j k : ℕ)
        → k < 512
        → in_pml4 page_flags m'.tables pml4 h i' j k ≡ in_pml4 page_flags m.tables pml4 h i' j k
    pub kept : (f k : ℕ) → role f ≢ no_table → (f ≡ a → k ≢ i) → m'.tables f k ≡ m.tables f k
    pub roles : (f : ℕ) → role f ≢ no_table → role' f ≡ role f

  pub Step-stay :
      (role : ℕ → Role) (m m' : Memory) (a i : ℕ)
      → IsTree page_flags role pml4 m.tables
      → m'.tables ≡ m.tables
      → IsBacked role m'
      → Step role m a i role m'
  Step-stay role m m' a i tree e backed = record {
    tree = subst (λ t. IsTree page_flags role pml4 t) (sym e) tree;
    backed = backed;
    same = λ h i' j k low. ap (λ t. in_pml4 page_flags t pml4 h i' j k) e;
    kept = λ f k u other. ap (λ t. t f k) e;
    roles = λ f u. refl;
  }

  pub Step-Grown :
      (role : ℕ → Role) (m m' : Memory) (a i g : ℕ)
      → IsTree page_flags role pml4 m.tables
      → Grown page_flags role pml4 m.tables m'.tables a i g
      → IsBacked (extended role a i g) m'
      → Step role m a i (extended role a i g) m'
  Step-Grown role m m' a i g tree grown backed = record {
    tree = grown-IsTree page_flags role pml4 m.tables m'.tables tree grown;
    backed = backed;
    same = grown-same page_flags role pml4 m.tables m'.tables tree grown;
    kept = λ f k u other. grown.others f k (λ e. u (ap role e ∙ grown.unused)) other;
    roles = kept_role page_flags role pml4 m.tables m'.tables tree grown;
  }

  -- What `descend` answers: the table that the entry then leads to.
  abbrev pub Descended : (ℕ → Role) → Memory → ℕ → ℕ → Result PhysFrame × Memory → Type 0
  Descended role m a i (ok g, m') =
      (role' : ℕ → Role) × Step role m a i role' m'
      × (frame page_flags (m'.tables a i) ≡ some g)
      × IsInner (role a) (is_huge page_flags (m'.tables a i))
      × (role' g ≡ child (role a) i)
  Descended role m a i (err e, m') = (role' : ℕ → Role) × Step role m a i role' m'

  IsInner-false : (r : Role) (huge : Bool) → huge ≡ false → IsInner r false → IsInner r huge
  IsInner-false r huge e h = rw e h

  module _ (role : ℕ → Role) (m : Memory) (a i : ℕ) (tree : IsTree page_flags role pml4 m.tables)
      (backed : IsBacked role m) (inner : IsInner (role a) false) where
    descend_new :
        (r : Result PhysFrame × Memory)
        → frame page_flags (m.tables a i) ≡ none
        → Allocated role m r
        → Descended role m a i (
            and_then r (λ next m'. (
              ok next,
              record m' {
                tables =
                    set_entry
                      (update m'.tables next zero_table)
                      a
                      i
                      (entry_of page_flags next (table_flags page_flags));
              },
            )))
    descend_new (err e, m') absent (same, b) = (role, Step-stay role m m' a i tree same b)
    descend_new (ok g, m') absent (unused, al, small, same, b) =
        let grown : Grown page_flags role pml4 m.tables (with_table page_flags m'.tables a i g) a i
            g =
          subst (λ t. Grown page_flags role pml4 t (with_table page_flags m'.tables a i g) a i g)
            same
            (created-Grown page_flags role pml4 m'.tables a i g unused inner al small
              (rw same absent)) in
        let new : IsBacked (extended role a i g) m' = b (child (role a) i) in
        (
          extended role a i g,
          Step-Grown role m (record m' { tables = with_table page_flags m'.tables a i g }) a i g
              tree grown (record { fl = new.fl; valid = new.valid; free = new.free }),
          grown.points,
          IsInner-false (role a) _ grown.small inner,
          update_self role g (child (role a) i),
        )

    pub descend-Descended :
        ((g : ℕ)
          → frame page_flags (m.tables a i) ≡ some g
          → IsInner (role a) (is_huge page_flags (m.tables a i)))
        → Descended role m a i (descend page_flags m a i)
    unfolding descend
    descend-Descended leads = elim (Option-cases (frame page_flags (m.tables a i))) [
      | inl absent ↦
          rw (absent, descend)
            (descend_new (allocate_frame m) absent (allocate_frame-Allocated role m backed))
      | inr (g, here) ↦
          rw (here, descend)
            (
              role,
              Step-stay role m m a i tree refl backed,
              here,
              leads g here,
              tree.edge a i g (leads g here) here,
            )
    ]
