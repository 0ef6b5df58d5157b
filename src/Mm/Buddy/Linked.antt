-- ===== src/Mm/Buddy/Linked.antt =====
-- The representation invariant of the free lists, and the two elementary moves: a block is put on
-- a list, and the first block of a list is taken.
use pindos.Base.{
  ℕ, ◌+◌, ◌%◌, ◌^◌, ◌≤◌, ◌<◌, ◌≡◌, refl, Option, none, some, List, [], ◌∷◌, arith, All, at_update,
  at_update_one, update_self, ap, update,
}
use mathlib.Core.Path.{subst}
use pindos.Mm.Buddy.{BuddyAllocator, block_size, max_order, push}
use pindos.Mm.Buddy.Cover.{
  FreeLists, within, cover_list, count, cover, occurs, occurs-le-cover, cover-update,
  count-le-occurs,
}

-- From `h` the `next` pointers lead through exactly the blocks of the list.
abbrev pub Chain : (ℕ → Option ℕ) → Option ℕ → List ℕ → Type 0
Chain next h [] = h ≡ none
Chain next h (x ∷ xs) = (h ≡ some x) × Chain next (next x) xs

-- A block of a size is aligned to it and ends inside the address space.
abbrev pub IsAligned : ℕ → ℕ → Type 0
IsAligned size a = (a % size ≡ 0) × (a + size ≤ 2 ^ 64)

-- The lists `fl` are what the pointers spell, and no byte is in two free blocks.
pub record IsLinked (s : BuddyAllocator) (fl : FreeLists) : Type 0 where
  pub chain : (k : ℕ) → k < max_order → Chain s.next (s.free_lists k) (fl k)
  pub aligned : (k : ℕ) → All (IsAligned (block_size k)) (fl k)
  pub disjoint : (p : ℕ) → cover fl p ≤ 1

-- A write at an address that is not on the list keeps the chain.
pub Chain-update :
    (next : ℕ → Option ℕ) (x : ℕ) (v h : Option ℕ) (xs : List ℕ)
    → count x xs ≡ 0
    → Chain next h xs
    → Chain (update next x v) h xs
Chain-update next x v h [] out c = c
Chain-update next x v h (y ∷ xs) out c =
    (c.0, rw (update-off) (Chain-update next x v (next y) xs (ground arith) c.1))
  where
    update-off : update next x v y ≡ next y
    update-off = ground arith

module _ {s : BuddyAllocator} {fl : FreeLists} (l : IsLinked s fl) where
  -- No address is on the lists twice.
  pub occurs-le-one : (x : ℕ) → occurs fl x ≤ 1
  occurs-le-one x = omega (arith, occurs-le-cover fl x, l.disjoint x)

  pub push-IsLinked :
      (k x : ℕ)
      → k < max_order
      → IsAligned (block_size k) x
      → ((p : ℕ) → within (block_size k) x p + cover fl p ≤ 1)
      → within (block_size k) x x ≡ 1
      → IsLinked (push s k x) (update fl k (x ∷ fl k))
  unfolding push
  push-IsLinked k x hk al free self = record {
    chain =
        at_update (λ j h xs. j < max_order → Chain (update s.next x (s.free_lists k)) h xs)
          s.free_lists fl k (some x) (x ∷ fl k)
          (λ _. (refl, rw (update_self s.next x (s.free_lists k)) (kept k hk)))
          (λ j _ hj. kept j hj);
    aligned =
        at_update_one (λ j xs. All (IsAligned (block_size j)) xs) fl k (x ∷ fl k) (al, l.aligned k)
          (λ j _. l.aligned j);
    disjoint = λ p. omega (arith, cover-update fl k (x ∷ fl k) hk p, free p);
  }
    where
      kept :
          (j : ℕ) → j < max_order → Chain (update s.next x (s.free_lists k)) (s.free_lists j) (fl j)
      kept j hj =
          Chain-update s.next x (s.free_lists k) (s.free_lists j) (fl j)
            (omega (arith, count-le-occurs fl j x hj, occurs-le-cover fl x, free x, self))
            (l.chain j hj)

-- The first block of a list, if there is one.
pub Chain-some :
    {next : ℕ → Option ℕ} {h : Option ℕ} {x : ℕ} (xs : List ℕ)
    → Chain next h xs
    → h ≡ some x
    → (rest : List ℕ) × (xs ≡ x ∷ rest) × Chain next (next x) rest
Chain-some [] c e = cc (c, e)
Chain-some {x} (y ∷ ys) c e = let same : x ≡ y = cc (c.0, e) in (ys, rw same, rw same c.1)

module _ {s : BuddyAllocator} {fl : FreeLists} (l : IsLinked s fl) where
  pub pop-IsLinked :
      (k x : ℕ) (rest : List ℕ)
      → k < max_order
      → fl k ≡ x ∷ rest
      → IsLinked (record s { free_lists = update s.free_lists k (s.next x) }) (update fl k rest)
  pop-IsLinked k x rest hk e = record {
    chain =
        at_update (λ j h xs. j < max_order → Chain s.next h xs) s.free_lists fl k (s.next x) rest
          (λ _. (subst (Chain s.next (s.free_lists k)) e (l.chain k hk)).1)
          (λ j _ hj. l.chain j hj);
    aligned =
        at_update_one (λ j xs. All (IsAligned (block_size j)) xs) fl k rest
          (subst (All (IsAligned (block_size k))) e (l.aligned k)).1 (λ j _. l.aligned j);
    disjoint = λ p. omega (arith, pop-cover p, l.disjoint p);
  }
    where
      pop-cover : (p : ℕ) → cover (update fl k rest) p + within (block_size k) x p ≡ cover fl p
      pop-cover p =
          omega (arith, cover-update fl k rest hk p, ap (λ ys. cover_list (block_size k) ys p) e)
