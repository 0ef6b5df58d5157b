-- ===== src/Loader/Pages.antt =====
-- The loop over the pages of a segment places all of them, or stops with an error.
use pindos.Base.{
  ℕ, zero, suc, ◌+◌, ◌*◌, ◌^◌, ◌≤◌, ◌<◌, ◌≡◌, ◌≢◌, refl, arith, ◌∙◌, sym, ◌⊎◌, inl, inr,
}
use mathlib.Core.Path.{subst}
use native.Mathlib.Decide.{dec_lt}
use pindos.Mm.Buddy.{add64}
use pindos.Mm.Paging.{PageFlags, Memory, Tables, allocate_frame, map_page}
use pindos.Mm.Paging.Walk.{Role, no_table, level4, level3, level2, level1, page, IsTree}
use pindos.Mm.Paging.Backed.{IsBacked}
use pindos.Mm.Paging.Address.{page_number}
use pindos.Loader.{
  Outcome, ok, err, panic, fault, and_then, map_err, allocation_error, mapping_error, map_pages,
}
use pindos.Loader.Place.{Keeps, Keeps-trans, IsPlaced, IsAfter, Placed, new_frame-Placed}

Role-cases : (r : Role) → (r ≡ no_table) ⊎ (r ≢ no_table)
Role-cases no_table = inl refl
Role-cases level4 = inr (λ e. absurd cc)
Role-cases (level3 _) = inr (λ e. absurd cc)
Role-cases (level2 _ _) = inr (λ e. absurd cc)
Role-cases (level1 _ _ _) = inr (λ e. absurd cc)
Role-cases (page _) = inr (λ e. absurd cc)

module _ (page_flags : PageFlags) (pml4 : ℕ) where
  -- A page that was placed stays so, if its addresses are where they were.
  pub IsPlaced-after :
      (first role role' : ℕ → Role) (m m' : Memory) (lo hi n : ℕ)
      → IsAfter page_flags pml4 role m lo hi role' m'
      → (n < lo) ⊎ (hi ≤ n)
      → IsPlaced page_flags pml4 first role m.tables n
      → IsPlaced page_flags pml4 first role' m'.tables n
  IsPlaced-after first role role' m m' lo hi n after far p = record {
    frame_of = p.frame_of;
    unused = p.unused;
    holds = after.keeps p.frame_of (λ e. absurd (cc (e, p.holds))) ∙ p.holds;
    aligned = p.aligned;
    found = λ v e. after.others v (subst (λ k. (k < lo) ⊎ (hi ≤ k)) (sym e) far) ∙ p.found v e;
  }

  -- A page that is placed by later roles was unused before, too.
  pub IsPlaced-before :
      (first role role' : ℕ → Role) (t : Tables) (n : ℕ)
      → Keeps first role
      → IsPlaced page_flags pml4 role role' t n
      → IsPlaced page_flags pml4 first role' t n
  IsPlaced-before first role role' t n keeps p = record {
    frame_of = p.frame_of;
    unused = elim (Role-cases (first p.frame_of)) [
      | inl was ↦ was
      | inr used ↦ absurd (used (sym (keeps p.frame_of used) ∙ p.unused))
    ];
    holds = p.holds;
    aligned = p.aligned;
    found = p.found;
  }

  -- One stretch of pages after another.
  pub IsAfter-trans :
      (role role1 role' : ℕ → Role) (m m1 m' : Memory) (lo mid hi : ℕ)
      → lo ≤ mid
      → mid ≤ hi
      → IsAfter page_flags pml4 role m lo mid role1 m1
      → IsAfter page_flags pml4 role1 m1 mid hi role' m'
      → IsAfter page_flags pml4 role m lo hi role' m'
  IsAfter-trans role role1 role' m m1 m' lo mid hi p q after rest = record {
    keeps = Keeps-trans after.keeps rest.keeps;
    tree = rest.tree;
    backed = rest.backed;
    others = λ v far. rest.others v (ground (arith, far)) ∙ after.others v (ground (arith, far));
  }

  module _ (role role1 : ℕ → Role) (m m1 : Memory) (a n : ℕ)
      (after : IsAfter page_flags pml4 role m a (a + 1) role1 m1)
      (here : (k : ℕ) → a ≤ k → k < a + 1 → IsPlaced page_flags pml4 role role1 m1.tables k) where
    pages_more :
        (role' : ℕ → Role) (m' : Memory)
        → IsAfter page_flags pml4 role1 m1 (a + 1) (a + 1 + n) role' m'
        → ((k : ℕ) → a + 1 ≤ k → k < a + 1 + n → IsPlaced page_flags pml4 role1 role' m'.tables k)
        → (k : ℕ) → a ≤ k
        → k < a + suc n
        → IsPlaced page_flags pml4 role role' m'.tables k
    pages_more role' m' rest pages k lo hi = elim (dec_lt k (a + 1)) [
      | yes now ↦
          IsPlaced-after role role1 role' m1 m' (a + 1) (a + 1 + n) k rest (inl now) (here k lo now)
      | no later ↦
          IsPlaced-before role role1 role' m'.tables k after.keeps
            (pages k (omega (arith, later)) (omega (arith, hi)))
    ]

    Placed-more :
        (r : Outcome Unit × Memory)
        → Placed page_flags pml4 role1 m1 (a + 1) (a + 1 + n) r
        → Placed page_flags pml4 role m a (a + suc n) r
    Placed-more (ok u, m') (role', rest, pages) = (
      role',
      subst (λ b. IsAfter page_flags pml4 role m a b role' m') (omega arith)
          (IsAfter-trans role role1 role' m m1 m' a (a + 1) (a + 1 + n) (omega arith) (omega arith)
            after rest),
      pages_more role' m' rest pages,
    )
    Placed-more (err e, m') (role', rest, short) = (
      role',
      subst (λ b. IsAfter page_flags pml4 role m a b role' m') (omega arith)
          (IsAfter-trans role role1 role' m m1 m' a (a + 1) (a + 1 + n) (omega arith) (omega arith)
            after rest),
      short,
    )
    Placed-more (panic, m') h = h
    Placed-more (fault, m') h = h

  -- The first page, and what a loop does after it.
  Placed-then :
      (role : ℕ → Role) (m : Memory) (a n : ℕ) (r : Outcome Unit × Memory)
      (f : Memory → Outcome Unit × Memory)
      → Placed page_flags pml4 role m a (a + 1) r
      → ((role1 : ℕ → Role) (m1 : Memory)
          → IsTree page_flags role1 pml4 m1.tables
          → IsBacked role1 m1
          → Placed page_flags pml4 role1 m1 (a + 1) (a + 1 + n) (f m1))
      → Placed page_flags pml4 role m a (a + suc n) (and_then r (λ _ m1. f m1))
  Placed-then role m a n (ok u, m1) f (role1, after, here) go =
      Placed-more role role1 m m1 a n after here (f m1) (go role1 m1 after.tree after.backed)
  Placed-then role m a n (err e, m1) f (role1, after, short) go = (
    role1,
    record {
      keeps = after.keeps;
      tree = after.tree;
      backed = after.backed;
      others = λ v far. after.others v (ground (arith, far));
    },
    short,
  )
  Placed-then role m a n (panic, m1) f h go = elim h [ ]
  Placed-then role m a n (fault, m1) f h go = elim h [ ]

  and_then_assoc :
      {A B C : Type 0} (r : Outcome A × Memory) (f : A → Memory → Outcome B × Memory)
      (g : B → Memory → Outcome C × Memory)
      → and_then r (λ a m. and_then (f a m) g) ≡ and_then (and_then r f) g
  and_then_assoc (ok a, m) f g = refl
  and_then_assoc (err e, m) f g = refl
  and_then_assoc (panic, m) f g = refl
  and_then_assoc (fault, m) f g = refl

  module _ (fl : PageFlags.Flags page_flags) (start : ℕ) where
    -- `n` pages from the page `a` of the address on.
    pub map_pages-Placed :
        (n i a : ℕ) (role : ℕ → Role) (m : Memory)
        → start + i * 4096 ≡ a * 4096
        → a + n ≤ 2 ^ 36
        → IsTree page_flags role pml4 m.tables
        → IsBacked role m
        → Placed page_flags pml4 role m a (a + n) (map_pages page_flags pml4 n i start fl m)
    unfolding map_pages
    map_pages-Placed zero i a role m e fits tree backed = (
      role,
      record { keeps = λ f u. refl; tree = tree; backed = backed; others = λ v far. refl },
      λ k lo hi. absurd (omega (arith, lo, hi)),
    )
    map_pages-Placed (suc n) i a role m e fits tree backed =
        let virt : ℕ = add64 start (i * 4096) in
        let at : page_number virt ≡ a = omega (arith, e, fits) in
        subst (Placed page_flags pml4 role m a (a + suc n))
          (sym (
            and_then_assoc (map_err allocation_error (allocate_frame m))
              (λ frame m1. map_err mapping_error (map_page page_flags pml4 m1 virt frame fl))
              (λ _ m2. map_pages page_flags pml4 n (i + 1) start fl m2)))
          (Placed-then role m a n _ (λ m2. map_pages page_flags pml4 n (i + 1) start fl m2)
            (subst
              (λ b. Placed page_flags pml4 role m b (b + 1) (
                and_then (map_err allocation_error (allocate_frame m))
                  (λ frame m1. map_err mapping_error (map_page page_flags pml4 m1 virt frame fl))))
              at (new_frame-Placed page_flags pml4 role virt m fl tree backed))
            (λ role1 m1 tree1 backed1.
              map_pages-Placed n (i + 1) (a + 1) role1 m1 (omega (arith, e)) (omega (arith, fits))
                tree1 backed1))
