-- ===== src/Mm/Paging/Leaf.antt =====
-- An entry of a table of the lowest level changes: its page does, and no other.
use mathlib.Core.Path.{subst}
use pindos.Base.{ℕ, ◌≡◌, refl, ◌≢◌, Bool, false, some, ◌∙◌, ap, sym}
use pindos.Mm.Paging.{PageFlags, Tables, is_huge, frame, set_entry}
use pindos.Mm.Paging.Walk.{
  Role, no_table, level4, level3, level2, level1, page, IsInner, IsTree, in_pml4,
}
use pindos.Mm.Paging.Grow.{up2, up3, up4}
use pindos.Mm.Paging.Create.{set_entry_self, set_entry_other}

-- The tables that lead to a page table.
pub record Leads (page_flags : PageFlags) (role : ℕ → Role) (pml4 : ℕ) (t : Tables)
    (h i j pdpt pd pt : ℕ) : Type 0 where
  pub place3 : role pdpt ≡ level3 h
  pub place2 : role pd ≡ level2 h i
  pub place1 : role pt ≡ level1 h i j
  pub link4 : frame page_flags (t pml4 h) ≡ some pdpt
  pub link3 : frame page_flags (t pdpt i) ≡ some pd
  pub link2 : frame page_flags (t pd j) ≡ some pt
  pub small : is_huge page_flags (t pd j) ≡ false

level1-injective :
    {h i j h' i' j' : ℕ} → level1 h i j ≡ level1 h' i' j' → (h ≡ h') × (i ≡ i') × (j ≡ j')
level1-injective e = (cc e, cc e, cc e)

module _ (page_flags : PageFlags) (role : ℕ → Role) (pml4 : ℕ) (t : Tables)
    (tree : IsTree page_flags role pml4 t) {h i j pdpt pd pt : ℕ}
    (leads : Leads page_flags role pml4 t h i j pdpt pd pt) (k e : ℕ) where
  abbrev pub changed : Tables
  changed = set_entry t pt k e

  above : (f x : ℕ) (r : Role) → role f ≡ r → r ≢ level1 h i j → changed f x ≡ t f x
  above f x r p ne =
      set_entry_other t pt k e f x (λ same. absurd (ne (sym p ∙ ap role same ∙ leads.place1)))

  above4 : (f x : ℕ) → role f ≡ level4 → changed f x ≡ t f x
  above4 f x p = above f x level4 p (λ q. absurd cc)

  above3 : (f x h' : ℕ) → role f ≡ level3 h' → changed f x ≡ t f x
  above3 f x h' p = above f x (level3 h') p (λ q. absurd cc)

  above2 : (f x h' i' : ℕ) → role f ≡ level2 h' i' → changed f x ≡ t f x
  above2 f x h' i' p = above f x (level2 h' i') p (λ q. absurd cc)

  pub hit : in_pml4 page_flags changed pml4 h i j k ≡ frame page_flags e
  hit =
      rw
        (
          above4 pml4 h tree.root,
          leads.link4,
          above3 pdpt i h leads.place3,
          leads.link3,
          above2 pd j h i leads.place2,
          leads.link2,
          leads.small,
          set_entry_self t pt k e,
        )
        refl

  pub miss :
      (h' i' j' k' : ℕ)
      → ((h' ≡ h) → (i' ≡ i) → (j' ≡ j) → k' ≢ k)
      → in_pml4 page_flags changed pml4 h' i' j' k' ≡ in_pml4 page_flags t pml4 h' i' j' k'
  miss h' i' j' k' other =
      up4 page_flags role pml4 t changed tree pml4 h' i' j' k' tree.root (above4 pml4 h' tree.root)
        (λ g3 r3.
          up3 page_flags role pml4 t changed tree g3 h' i' j' k' r3 (above3 g3 i' h' r3) (λ g2 r2.
            up2 page_flags role pml4 t changed tree g2 h' i' j' k' r2 (above2 g2 j' h' i' r2)
              (λ g1 r1.
                ap (λ x. frame page_flags x)
                  (set_entry_other t pt k e g1 k' (λ same.
                    let (p, q, r) = level1-injective (sym r1 ∙ ap role same ∙ leads.place1) in
                    other p q r)))))

  edge_of :
      (r : Role) → (f x : ℕ) → role f ≡ r → (huge : Bool) → IsInner r huge → changed f x ≡ t f x
  edge_of level4 f x p huge n = above4 f x p
  edge_of (level3 h') f x p huge n = above3 f x h' p
  edge_of (level2 h' i') f x p huge n = above2 f x h' i' p
  edge_of (level1 _ _ _) f x p huge n = elim n [ ]
  edge_of no_table f x p huge n = elim n [ ]
  edge_of (page _) f x p huge n = elim n [ ]

  pub changed-IsTree : IsTree page_flags role pml4 changed
  changed-IsTree = record {
    root = tree.root;
    edge = λ f x g inner p.
        let same : changed f x ≡ t f x = edge_of (role f) f x refl _ inner in
        tree.edge f x g (subst (λ y. IsInner (role f) (is_huge page_flags y)) same inner)
          (ap (λ y. frame page_flags y) (sym same) ∙ p);
    large = λ f h' i' x g r p is.
        let same : changed f x ≡ t f x = above2 f x h' i' r in
        tree.large f h' i' x g r (ap (λ y. frame page_flags y) (sym same) ∙ p)
          (ap (λ y. is_huge page_flags y) (sym same) ∙ is);
  }
