-- ===== src/Loader/Place.antt =====
-- A new frame is mapped: the page is placed, and the frame has the role of that page.
use mathlib.Core.Path.{subst}
use pindos.Base.{
  ℕ, ◌+◌, ◌%◌, ◌≤◌, ◌<◌, ◌≡◌, ◌≢◌, refl, Bool, some, arith, ◌∙◌, ap, sym, ◌⊎◌, inl, inr, update,
  update_self, update_ne, ◌==◌,
}
use native.Mathlib.Decide.{ℕ_discrete}
use pindos.Mm.Paging.{
  PageFlags, Memory, Tables, is_huge, frame, allocate_frame, map_page, translate,
}
use pindos.Mm.Paging
use pindos.Mm.Paging.Walk.{Role, no_table, page, child, child-used, IsInner, IsTree}
use pindos.Mm.Paging.Backed.{IsBacked, Allocated, allocate_frame-Allocated}
use pindos.Mm.Paging.Address.{Mapped, map_page-Mapped, page_number}
use pindos.Loader.{
  ElfError, allocation_error, mapping_error, Outcome, ok, err, panic, fault, and_then, map_err,
}

-- What was in use keeps its role.
abbrev pub Keeps : (ℕ → Role) → (ℕ → Role) → Type 0
Keeps role role' = (f : ℕ) → role f ≢ no_table → role' f ≡ role f

pub Keeps-trans : {a b c : ℕ → Role} → Keeps a b → Keeps b c → Keeps a c
Keeps-trans {a} {b} h k f u = k f (λ e. u (sym (h f u) ∙ e)) ∙ h f u

abbrev pub IsShort : ElfError → Type 0
IsShort e = (e ≡ allocation_error) ⊎ (e ≡ mapping_error)

module _ (page_flags : PageFlags) (pml4 : ℕ) where
  -- A page has a frame of its own, which was unused at first.
  pub record IsPlaced (first role : ℕ → Role) (t : Tables) (n : ℕ) : Type 0 where
    pub frame_of : ℕ
    pub unused : first frame_of ≡ no_table
    pub holds : role frame_of ≡ page n
    pub aligned : frame_of % 4096 ≡ 0
    pub found :
        (v : ℕ) → page_number v ≡ n → translate page_flags pml4 t v ≡ some (frame_of + v % 4096)

  -- The frame of a page is not a table, so the tree does not change.
  claimed-IsTree :
      (role : ℕ → Role) (t : Tables) (g n : ℕ)
      → IsTree page_flags role pml4 t
      → role g ≡ no_table
      → IsTree page_flags (update role g (page n)) pml4 t
  claimed-IsTree role t g n tree unused = record {
    root =
        update_ne role g pml4 (page n) (λ e. absurd (cc (ap role e, unused, tree.root)))
        ∙ tree.root;
    edge = λ f k x inner p. elim (ℕ_discrete g f) [
      | yes same ↦ absurd (
          subst (λ r. IsInner r (is_huge page_flags (t f k)))
            (ap (update role g (page n)) (sym same) ∙ update_self role g (page n)) inner)
      | no other ↦
          let e : update role g (page n) f ≡ role f = update_ne role g f (page n) other in
          let in_role : IsInner (role f) (is_huge page_flags (t f k)) =
            subst (λ r. IsInner r (is_huge page_flags (t f k))) e inner in
          let leads : role x ≡ child (role f) k = tree.edge f k x in_role p in
          let used : child (role f) k ≢ no_table =
            child-used (role f) (is_huge page_flags (t f k)) k in_role in
          update_ne role g x (page n)
            (λ same. absurd (used (sym leads ∙ ap role (sym same) ∙ unused)))
          ∙ leads
          ∙ ap (λ r. child r k) (sym e)
    ];
    large = λ f h i j x r p is. elim (ℕ_discrete g f) [
      | yes same ↦
          absurd (cc (sym (update_self role g (page n)) ∙ ap (update role g (page n)) same ∙ r))
      | no other ↦ tree.large f h i j x (sym (update_ne role g f (page n) other) ∙ r) p is
    ];
  }

  claimed-Keeps :
      (role : ℕ → Role) (g n : ℕ) → role g ≡ no_table → Keeps role (update role g (page n))
  claimed-Keeps role g n unused f u =
      update_ne role g f (page n) (λ e. absurd (u (ap role (sym e) ∙ unused)))

  -- What is left by an attempt to place the pages from `lo` up to `hi`.
  pub record IsAfter (role : ℕ → Role) (m : Memory) (lo hi : ℕ) (role' : ℕ → Role) (m' : Memory)
      : Type 0 where
    pub keeps : Keeps role role'
    pub tree : IsTree page_flags role' pml4 m'.tables
    pub backed : IsBacked role' m'
    pub others :
        (v : ℕ)
        → (page_number v < lo) ⊎ (hi ≤ page_number v)
        → translate page_flags pml4 m'.tables v ≡ translate page_flags pml4 m.tables v

  abbrev pub Placed : (ℕ → Role) → Memory → ℕ → ℕ → Outcome Unit × Memory → Type 0
  Placed role m lo hi (ok u, m') =
      (role' : ℕ → Role) × IsAfter role m lo hi role' m'
      × ((n : ℕ) → lo ≤ n → n < hi → IsPlaced role role' m'.tables n)
  Placed role m lo hi (err e, m') = (role' : ℕ → Role) × IsAfter role m lo hi role' m' × IsShort e
  Placed role m lo hi (panic, m') = ⊥
  Placed role m lo hi (fault, m') = ⊥

  module _ (role : ℕ → Role) (virt : ℕ) where
    page-Placed :
        (m m1 : Memory) (g : ℕ) (r : Paging.Result Unit × Memory)
        → role g ≡ no_table
        → g % 4096 ≡ 0
        → m1.tables ≡ m.tables
        → Mapped page_flags pml4 (update role g (page (page_number virt))) m1 virt g r
        → Placed role m (page_number virt) (page_number virt + 1) (map_err mapping_error r)
    page-Placed m m1 g (Paging.err e, m') unused al same (role', keeps, tree, backed, all) = (
      role',
      record {
        keeps = Keeps-trans (claimed-Keeps role g (page_number virt) unused) keeps;
        tree = tree;
        backed = backed;
        others = λ v far. all v ∙ ap (λ t. translate page_flags pml4 t v) same;
      },
      inr refl,
    )
    page-Placed m m1 g (Paging.ok u, m') unused al same (role', keeps, tree, backed, all) =
        let n : ℕ = page_number virt in
        (
          role',
          record {
            keeps = Keeps-trans (claimed-Keeps role g (page_number virt) unused) keeps;
            tree = tree;
            backed = backed;
            others = λ v far.
                let other : (page_number v == page_number virt) ≡ Bool.false =
                  ground (arith, far) in
                all v ∙ rw other (ap (λ t. translate page_flags pml4 t v) same);
          },
          λ k lo hi. record {
            frame_of = g;
            unused = unused;
            holds =
                keeps g (λ e. absurd (cc (sym (update_self role g (page (page_number virt))) ∙ e)))
                ∙ update_self role g (page (page_number virt))
                ∙ ap page (omega (arith, lo, hi));
            aligned = al;
            found = λ v e.
                let here : (page_number v == page_number virt) ≡ Bool.true =
                  ground (arith, e, lo, hi) in
                all v ∙ rw here refl;
          },
        )

    abbrev mapped : PageFlags.Flags page_flags → ℕ → Memory → Outcome Unit × Memory
    mapped fl g m1 = map_err mapping_error (map_page page_flags pml4 m1 virt g fl)

    frame-Placed :
        (m : Memory) (fl : PageFlags.Flags page_flags) (r : Paging.Result ℕ × Memory)
        → IsTree page_flags role pml4 m.tables
        → Allocated role m r
        → Placed role m
            (page_number virt)
            (page_number virt + 1)
            (and_then (map_err allocation_error r) (mapped fl))
    frame-Placed m fl (Paging.err e, m1) tree (same, backed) = (
      role,
      record {
        keeps = λ f u. refl;
        tree = subst (λ t. IsTree page_flags role pml4 t) (sym same) tree;
        backed = backed;
        others = λ v far. ap (λ t. translate page_flags pml4 t v) same;
      },
      inl refl,
    )
    frame-Placed m fl (Paging.ok g, m1) tree (unused, al, small, same, backed) =
        page-Placed m m1 g (map_page page_flags pml4 m1 virt g fl) unused al same (
          map_page-Mapped page_flags pml4 (update role g (page (page_number virt))) m1 virt g fl
            (claimed-IsTree role m1.tables g (page_number virt)
              (subst (λ t. IsTree page_flags role pml4 t) (sym same) tree) unused)
            (backed (page (page_number virt))) al small)

    -- `allocate(0)`, then `map_page`: the page of the address is placed.
    pub new_frame-Placed :
        (m : Memory) (fl : PageFlags.Flags page_flags)
        → IsTree page_flags role pml4 m.tables
        → IsBacked role m
        → Placed role m
            (page_number virt)
            (page_number virt + 1)
            (and_then (map_err allocation_error (allocate_frame m)) (mapped fl))
    new_frame-Placed m fl tree backed =
        frame-Placed m fl (allocate_frame m) tree (allocate_frame-Allocated role m backed)
