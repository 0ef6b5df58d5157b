-- ===== src/Mm/Paging/Grow.antt =====
-- A new table in the tree: what it keeps.
use mathlib.Core.Path.{subst}
use native.Mathlib.Decide.{ℕ_discrete}
use pindos.Base.{
  ℕ, ◌^◌, ◌%◌, ◌<◌, ◌≡◌, refl, ◌≢◌, true, false, some, none, ◌∙◌, ap, sym, inl, inr, ◌⊎◌,
  Option-cases, Bool-cases, update, update_self, update_ne,
}
use pindos.Mm.Paging.{PageFlags, Tables, is_huge, frame}
use pindos.Mm.Paging.Walk.{
  Role, no_table, level4, level3, level2, level1, child, IsInner, child-used, IsTree, in_pt, in_pd,
  in_pdpt, in_pml4,
}

-- The places with the table `g` entered.
abbrev pub extended : (ℕ → Role) → ℕ → ℕ → ℕ → ℕ → Role
extended role a i g = update role g (child (role a) i)

level1-level2 : {h i j h' i' : ℕ} → level1 h i j ≡ level2 h' i' → ⊥
level1-level2 e = absurd cc

level4-used : level4 ≡ no_table → ⊥
level4-used e = absurd cc

module _ (page_flags : PageFlags) (role : ℕ → Role) (pml4 : ℕ) (t t' : Tables) where
  -- The entry of `t` at `a` and `i` is made to lead to the unused table `g`, and nothing else changes.
  pub record Grown (a i g : ℕ) : Type 0 where
    pub unused : role g ≡ no_table
    pub inner : IsInner (role a) false
    pub points : frame page_flags (t' a i) ≡ some g
    pub small : is_huge page_flags (t' a i) ≡ false
    pub others : (f k : ℕ) → f ≢ g → (f ≡ a → k ≢ i) → t' f k ≡ t f k
    -- The new table is empty, or it is of the lowest level.
    pub leaf :
        ((k : ℕ) → frame page_flags (t' g k) ≡ none)
        ⊎ ((h i' j : ℕ) × (child (role a) i ≡ level1 h i' j))
    pub same2 :
        (h i' k : ℕ)
        → role a ≡ level2 h i'
        → k < 512
        → in_pd page_flags t' a i k ≡ in_pd page_flags t a i k
    pub same3 :
        (h j k : ℕ)
        → role a ≡ level3 h
        → k < 512
        → in_pdpt page_flags t' a i j k ≡ in_pdpt page_flags t a i j k
    pub same4 :
        (i' j k : ℕ)
        → role a ≡ level4
        → k < 512
        → in_pml4 page_flags t' a i i' j k ≡ in_pml4 page_flags t a i i' j k

  -- What is the same below an entry that stays is the same above it.
  module _ (tree : IsTree page_flags role pml4 t) where
    pub up2 :
        (f h i j k : ℕ)
        → role f ≡ level2 h i
        → t' f j ≡ t f j
        → ((g : ℕ) → role g ≡ level1 h i j → in_pt page_flags t' g k ≡ in_pt page_flags t g k)
        → in_pd page_flags t' f j k ≡ in_pd page_flags t f j k
    up2 f h i j k r e below = elim (Option-cases (frame page_flags (t f j))) [
      | inl absent ↦ rw (e, absent) refl
      | inr (g, here) ↦ elim (Bool-cases (is_huge page_flags (t f j))) [
        | inl huge ↦ rw (e, here, huge) refl
        | inr small ↦
            rw (e, here, small) (below g (tree.edge f j g (rw (r, small) refl) here ∙ rw r refl))
      ]
    ]

    pub up3 :
        (f h i j k : ℕ)
        → role f ≡ level3 h
        → t' f i ≡ t f i
        → ((g : ℕ) → role g ≡ level2 h i → in_pd page_flags t' g j k ≡ in_pd page_flags t g j k)
        → in_pdpt page_flags t' f i j k ≡ in_pdpt page_flags t f i j k
    up3 f h i j k r e below = elim (Option-cases (frame page_flags (t f i))) [
      | inl absent ↦ rw (e, absent) refl
      | inr (g, here) ↦ rw (e, here) (below g (tree.edge f i g (rw r tt) here ∙ rw r refl))
    ]

    pub up4 :
        (f h i j k : ℕ)
        → role f ≡ level4
        → t' f h ≡ t f h
        → ((g : ℕ)
            → role g ≡ level3 h
            → in_pdpt page_flags t' g i j k ≡ in_pdpt page_flags t g i j k)
        → in_pml4 page_flags t' f h i j k ≡ in_pml4 page_flags t f h i j k
    up4 f h i j k r e below = elim (Option-cases (frame page_flags (t f h))) [
      | inl absent ↦ rw (e, absent) refl
      | inr (g, here) ↦ rw (e, here) (below g (tree.edge f h g (rw r tt) here ∙ rw r refl))
    ]

  module _ (tree : IsTree page_flags role pml4 t) {a i g : ℕ} (grown : Grown a i g) where
    -- A table that was in use keeps its place.
    pub kept_role : (f : ℕ) → role f ≢ no_table → extended role a i g f ≡ role f
    kept_role f u = update_ne role g f (child (role a) i) (λ e. u (ap role (sym e) ∙ grown.unused))

    at_entry : (f k : ℕ) → ((f ≡ a) × (k ≡ i)) ⊎ (f ≡ a → k ≢ i)
    at_entry f k = elim (ℕ_discrete f a) [
      | no other ↦ inr (λ e. absurd (other e))
      | yes same ↦ elim (ℕ_discrete k i) [
        | yes here ↦ inl (same, here)
        | no apart ↦ inr (λ _. apart)
      ]
    ]

    apart : (f : ℕ) → role f ≢ no_table → f ≢ g
    apart f u e = u (ap role e ∙ grown.unused)

    unchanged : (f k : ℕ) (r : Role) → role f ≡ r → r ≢ no_table → (f ≡ a → k ≢ i) → t' f k ≡ t f k
    unchanged f k r e u other = grown.others f k (apart f (λ n. u (sym e ∙ n))) other

    grown-same1 :
        (f h i' j k : ℕ) → role f ≡ level1 h i' j → in_pt page_flags t' f k ≡ in_pt page_flags t f k
    grown-same1 f h i' j k r =
        ap (λ e. frame page_flags e)
          (unchanged f k (level1 h i' j) r (λ n. absurd cc)
            (λ e. absurd (subst (λ x. IsInner x false) (ap role (sym e) ∙ r) grown.inner)))

    grown-same2 :
        (f h i' j k : ℕ)
        → role f ≡ level2 h i'
        → k < 512
        → in_pd page_flags t' f j k ≡ in_pd page_flags t f j k
    grown-same2 f h i' j k r small = elim (at_entry f j) [
      | inl (same, here) ↦ rw (same, here) (grown.same2 h i' k (ap role (sym same) ∙ r) small)
      | inr other ↦
          up2 tree f h i' j k r (unchanged f j (level2 h i') r (λ n. absurd cc) other)
            (λ g' r'. grown-same1 g' h i' j k r')
    ]

    grown-same3 :
        (f h i' j k : ℕ)
        → role f ≡ level3 h
        → k < 512
        → in_pdpt page_flags t' f i' j k ≡ in_pdpt page_flags t f i' j k
    grown-same3 f h i' j k r small = elim (at_entry f i') [
      | inl (same, here) ↦ rw (same, here) (grown.same3 h j k (ap role (sym same) ∙ r) small)
      | inr other ↦
          up3 tree f h i' j k r (unchanged f i' (level3 h) r (λ n. absurd cc) other)
            (λ g' r'. grown-same2 g' h i' j k r' small)
    ]

    -- Every walk ends as before.
    pub grown-same :
        (h i' j k : ℕ)
        → k < 512
        → in_pml4 page_flags t' pml4 h i' j k ≡ in_pml4 page_flags t pml4 h i' j k
    grown-same h i' j k small = elim (at_entry pml4 h) [
      | inl (same, here) ↦
          rw (same, here) (grown.same4 i' j k (ap role (sym same) ∙ tree.root) small)
      | inr other ↦
          up4 tree pml4 h i' j k tree.root
            (unchanged pml4 h level4 tree.root (λ n. absurd cc) other)
            (λ g' r'. grown-same3 g' h i' j k r' small)
    ]

    at_new : (extended role a i g) g ≡ child (role a) i
    at_new = update_self role g (child (role a) i)

    at_old : (f : ℕ) → f ≢ g → (extended role a i g) f ≡ role f
    at_old f ne = update_ne role g f (child (role a) i) (λ e. ne (sym e))

    edge_elsewhere :
        (f k g' : ℕ)
        → f ≢ g
        → IsInner (role f) (is_huge page_flags (t' f k))
        → frame page_flags (t' f k) ≡ some g'
        → (extended role a i g) g' ≡ child (role f) k
    edge_elsewhere f k g' ne inner e = elim (at_entry f k) [
      | inl (same, here) ↦
          let new : g' ≡ g = cc (e, grown.points, same, here) in
          ap (extended role a i g) new ∙ update_self role g (child (role a) i) ∙ cc (same, here)
      | inr other ↦
          let old : t' f k ≡ t f k = grown.others f k ne other in
          let inner' : IsInner (role f) (is_huge page_flags (t f k)) =
            subst (λ x. IsInner (role f) (is_huge page_flags x)) old inner in
          let place : role g' ≡ child (role f) k =
            tree.edge f k g' inner' (ap (λ x. frame page_flags x) (sym old) ∙ e) in
          kept_role g' (λ n. child-used (role f) _ k inner' (sym place ∙ n)) ∙ place
    ]

    grown-edge :
        (f k g' : ℕ)
        → IsInner ((extended role a i g) f) (is_huge page_flags (t' f k))
        → frame page_flags (t' f k) ≡ some g'
        → (extended role a i g) g' ≡ child ((extended role a i g) f) k
    grown-edge f k g' inner e = elim (ℕ_discrete f g) [
      | yes new ↦ elim grown.leaf [
        | inl empty ↦ absurd (cc (e, new, empty k))
        | inr (h, i', j, lowest) ↦ absurd (
            subst (λ x. IsInner x (is_huge page_flags (t' f k)))
              (ap (extended role a i g) new ∙ at_new ∙ lowest) inner)
      ]
      | no old ↦
          edge_elsewhere f k g' old
            (subst (λ x. IsInner x (is_huge page_flags (t' f k))) (at_old f old) inner) e
          ∙ ap (λ x. child x k) (sym (at_old f old))
    ]

    grown-large :
        (f h i' j g' : ℕ)
        → (extended role a i g) f ≡ level2 h i'
        → frame page_flags (t' f j) ≡ some g'
        → is_huge page_flags (t' f j) ≡ true
        → g' % 2 ^ 21 ≡ 0
    grown-large f h i' j g' r e huge = elim (ℕ_discrete f g) [
      | yes new ↦ elim grown.leaf [
        | inl empty ↦ absurd (cc (e, new, empty j))
        | inr (h', i'', j', lowest) ↦
            absurd
              (level1-level2 (sym lowest ∙ sym at_new ∙ ap (extended role a i g) (sym new) ∙ r))
      ]
      | no old ↦ elim (at_entry f j) [
        | inl (same, here) ↦ absurd (cc (huge, grown.small, same, here))
        | inr other ↦
            let entry : t f j ≡ t' f j = sym (grown.others f j old other) in
            tree.large f h i' j g' (sym (at_old f old) ∙ r) (ap (λ x. frame page_flags x) entry ∙ e)
              (ap (λ x. is_huge page_flags x) entry ∙ huge)
      ]
    ]

    pub grown-IsTree : IsTree page_flags (extended role a i g) pml4 t'
    grown-IsTree = record {
      root = kept_role pml4 (λ n. absurd (level4-used (sym tree.root ∙ n))) ∙ tree.root;
      edge = grown-edge;
      large = grown-large;
    }
