-- ===== src/Mm/Buddy/Free.antt =====
-- Freeing a block: the merging loop ends, keeps the lists linked, and the free bytes grow by
-- exactly the bytes of the block.
use pindos.Base.{
  ℕ, zero, suc, ◌+◌, ◌-◌, ◌*◌, ◌%◌, ◌^◌, ◌≤◌, ◌<◌, min, ◌≡◌, refl, true, false, some, ◌∷◌, arith,
  length, ltb, bit, Bool-cases, ◌∙◌, inl, inr, update, ap, bit_xor, at_update_one, ltb→lt,
}
use native.Mathlib.Numerals.{add-one}
use native.Mathlib.Nat.{pow-suc}
use pindos.Mm.Buddy.{
  BuddyAllocator, block_size, max_order, push, merge_loop, deallocate_internal, add64,
}
use pindos.Mm.Buddy.Cover.{
  FreeLists, within, cover, frames, length-le-frames, frames-update, cover-update, block_size-pos,
  block_size-suc,
}
use pindos.Mm.Buddy.Linked.{IsAligned, IsLinked, push-IsLinked}
use pindos.Mm.Buddy.Pair.{pair_lem, Pair}
use pindos.Mm.Buddy.Remove.{has, erase, length-erase, All-has, Removed, remove_from_list-Removed}

-- Every list is shorter than the fuel.
abbrev pub Enough : ℕ → FreeLists → Type 0
Enough fuel fl = (k : ℕ) → k < max_order → length (fl k) < fuel

-- The block at `a` is aligned, and none of its bytes is free.
pub record IsTaken (fl : FreeLists) (k a : ℕ) : Type 0 where
  pub aligned : IsAligned (block_size k) a
  pub apart : (p : ℕ) → within (block_size k) a p + cover fl p ≤ 1

-- Merging turns the lists `fl` and a block into lists and a block of the same bytes.
pub record Merged (s : BuddyAllocator) (fl : FreeLists) (k a : ℕ) (t : BuddyAllocator)
    (gl : FreeLists) (j b : ℕ) : Type 0 where
  pub linked : IsLinked t gl
  pub enough : (fuel : ℕ) → Enough fuel fl → Enough fuel gl
  pub order : j < max_order
  pub taken : IsTaken gl j b
  pub covered :
      (p : ℕ) → within (block_size j) b p + cover gl p ≡ within (block_size k) a p + cover fl p
  pub pages : frames gl + 2 ^ j ≡ frames fl + 2 ^ k
  pub free : t.free_frames ≡ s.free_frames
  pub total : t.total_frames ≡ s.total_frames

-- An aligned block contains its own address.
pub within_self : (size a : ℕ) → 0 < size → within size a a ≡ 1
within_self size a h = ground arith

module _ {s : BuddyAllocator} {fl : FreeLists} {k a : ℕ} where
  -- Nothing is merged.
  Merged-refl : IsLinked s fl → k < max_order → IsTaken fl k a → Merged s fl k a s fl k a
  Merged-refl l hk taken = record {
    linked = l;
    enough = λ fuel e. e;
    order = hk;
    taken = taken;
    covered = λ p. refl;
    pages = refl;
    free = refl;
    total = refl;
  }

-- One round: the buddy `b` was on its list, and the two are one block of the next order.
module _ {s : BuddyAllocator} {fl : FreeLists} (k a b : ℕ) {t : BuddyAllocator} (l : IsLinked s fl)
    (hk : suc k < max_order) (taken : IsTaken fl k a) (pair : Pair k a b) (r : Removed s fl k b t)
    (found : has b (fl k) ≡ true) where
  round-covered :
      (p : ℕ)
      → within (block_size (suc k)) (min a b) p + cover (update fl k (erase b (fl k))) p
        ≡ within (block_size k) a p + cover fl p
  round-covered p = ground (arith, pair.joined p, r.covered p)

  listed : IsAligned (block_size k) b
  listed = All-has (IsAligned (block_size k)) b (fl k) found (l.aligned k)

  round-IsTaken : IsTaken (update fl k (erase b (fl k))) (suc k) (min a b)
  round-IsTaken = record {
    aligned = (
      pair.aligned_lower,
      omega (arith, pair.upper, taken.aligned.1, listed.1, block_size-suc k),
    );
    apart = λ p. omega (arith, round-covered p, taken.apart p);
  }

  round-pages : frames (update fl k (erase b (fl k))) + 2 ^ suc k ≡ frames fl + 2 ^ k
  round-pages =
      let gone : length (erase b (fl k)) + 1 ≡ length (fl k) =
        omega (arith, length-erase b (fl k), ap bit found) in
      omega (
        arith,
        frames-update fl k (erase b (fl k)) (omega arith),
        ap (λ (n : ℕ). n * 2 ^ k) gone,
        pow-suc 2 k,
      )

  round-Enough : (fuel : ℕ) → Enough fuel fl → Enough fuel (update fl k (erase b (fl k)))
  round-Enough fuel e =
      at_update_one (λ j xs. j < max_order → length xs < fuel) fl k (erase b (fl k))
        (λ h. omega (arith, length-erase b (fl k), e k h)) (λ j _. e j)

  round-Merged :
      {u : BuddyAllocator} {gl : FreeLists} {j c : ℕ}
      → Merged t (update fl k (erase b (fl k))) (suc k) (min a b) u gl j c
      → Merged s fl k a u gl j c
  round-Merged m = record {
    linked = m.linked;
    enough = λ fuel e. m.enough fuel (round-Enough fuel e);
    order = m.order;
    taken = m.taken;
    covered = λ p. m.covered p ∙ round-covered p;
    pages = m.pages ∙ round-pages;
    free = m.free ∙ r.free;
    total = m.total ∙ r.total;
  }

-- The buddy is not on its list: the walk changes nothing that counts.
module _ {s : BuddyAllocator} {fl : FreeLists} {k a b : ℕ} {t : BuddyAllocator} (l : IsLinked s fl)
    (hk : k < max_order) (taken : IsTaken fl k a) (r : Removed s fl k b t)
    (absent : has b (fl k) ≡ false) where
  stay-covered : (p : ℕ) → cover (update fl k (erase b (fl k))) p ≡ cover fl p
  stay-covered p = ground (arith, r.covered p)

  stay-Merged : Merged s fl k a t (update fl k (erase b (fl k))) k a
  stay-Merged = record {
    linked = r.linked;
    enough = λ fuel e.
        at_update_one (λ j xs. j < max_order → length xs < fuel) fl k (erase b (fl k))
          (λ h. omega (arith, length-erase b (fl k), e k h)) (λ j _. e j);
    order = hk;
    taken = record {
      aligned = taken.aligned;
      apart = λ p. omega (arith, stay-covered p, taken.apart p);
    };
    covered = λ p. omega (arith, stay-covered p);
    pages =
        let same : length (erase b (fl k)) ≡ length (fl k) =
          omega (arith, length-erase b (fl k), ap bit absent) in
        omega (arith, frames-update fl k (erase b (fl k)) hk, ap (λ (n : ℕ). n * 2 ^ k) same);
    free = r.free;
    total = r.total;
  }

-- The merging loop ends within the orders that are left.
merge_loop-Merged :
    (rounds fuel : ℕ) (s : BuddyAllocator) (fl : FreeLists) (a k : ℕ)
    → max_order ≤ rounds + k
    → Enough fuel fl
    → k < max_order
    → IsLinked s fl
    → IsTaken fl k a
    → (t : BuddyAllocator) × (b : ℕ) × (j : ℕ) × (gl : FreeLists) × (merge_loop fuel rounds s a k
        ≡ some (t, b, j))
      × Merged s fl k a t gl j b
unfolding merge_loop
merge_loop-Merged zero fuel s fl a k h enough hk l taken = absurd (omega arith)
merge_loop-Merged (suc rounds) fuel s fl a k h enough hk l taken =
    elim (Bool-cases (ltb k (max_order - 1))) [
      | inr top ↦ (s, a, k, fl, rw top, Merged-refl l hk taken)
      | inl below ↦
          let (t, run, r) =
            remove_from_list-Removed l fuel k (bit_xor a (block_size k)) hk (enough k hk) in
          elim (Bool-cases (has (bit_xor a (block_size k)) (fl k))) [
            | inr absent ↦ (
              t,
              a,
              k,
              update fl k (erase (bit_xor a (block_size k)) (fl k)),
              rw (below, run, absent),
              stay-Merged l hk taken r absent,
            )
            | inl found ↦
                let pair : Pair k a (bit_xor a (block_size k)) = pair_lem k a taken.aligned.0 in
                let hk' : suc k < max_order = omega (arith, ltb→lt k (max_order - 1) below) in
                let (u, b, j, gl, run', m) =
                  merge_loop-Merged rounds fuel t
                    (update fl k (erase (bit_xor a (block_size k)) (fl k)))
                    (min a (bit_xor a (block_size k))) (suc k) (omega arith)
                    (round-Enough k a _ l hk' taken pair r found fuel enough) hk' r.linked
                    (round-IsTaken k a _ l hk' taken pair r found) in
                (
                  u,
                  b,
                  j,
                  gl,
                  rw (below, run, found, add-one) run',
                  round-Merged k a _ l hk' taken pair r found m,
                )
          ]
    ]

-- A representation with its page counter.
pub record IsValid (s : BuddyAllocator) (fl : FreeLists) : Type 0 where
  pub linked : IsLinked s fl
  pub counted : s.free_frames ≡ frames fl % 2 ^ 64

-- `t` is `s` with the block of order `k` at `a` made free.
pub record Freed (s : BuddyAllocator) (fl : FreeLists) (k a : ℕ) (t : BuddyAllocator)
    (gl : FreeLists) : Type 0 where
  pub valid : IsValid t gl
  pub covered : (p : ℕ) → cover gl p ≡ cover fl p + within (block_size k) a p
  pub pages : frames gl ≡ frames fl + 2 ^ k
  pub total : t.total_frames ≡ s.total_frames

-- A list is no longer than there are free pages.
Enough-of_frames : (fuel : ℕ) (fl : FreeLists) → frames fl < fuel → Enough fuel fl
Enough-of_frames fuel fl h k hk = omega (arith, length-le-frames fl k hk)

-- The merged block is put on its list, and the pages are counted.
Merged-Freed :
    (s : BuddyAllocator) (fl : FreeLists) (k a : ℕ) (u : BuddyAllocator) (gl : FreeLists) (j b : ℕ)
    → IsValid s fl
    → Merged s fl k a u gl j b
    → Freed s fl k a
        (record (push u j b) { free_frames = add64 (push u j b).free_frames (2 ^ k) })
        (update gl j (b ∷ gl j))
Merged-Freed s fl k a u gl j b v m = record {
  valid = record {
    linked = linked;
    counted = unfold push in omega (arith, pages, m.free, v.counted);
  };
  covered = λ p. omega (arith, cover-update gl j (b ∷ gl j) m.order p, m.covered p);
  pages = pages;
  total = unfold push in m.total;
}
  where
    pushed : IsLinked (push u j b) (update gl j (b ∷ gl j))
    pushed =
        push-IsLinked m.linked j b m.order m.taken.aligned m.taken.apart
          (within_self (block_size j) b (block_size-pos j))

    linked :
        IsLinked
          (record (push u j b) { free_frames = add64 (push u j b).free_frames (2 ^ k) })
          (update gl j (b ∷ gl j))
    linked = record { chain = pushed.chain; aligned = pushed.aligned; disjoint = pushed.disjoint }

    pages : frames (update gl j (b ∷ gl j)) ≡ frames fl + 2 ^ k
    pages = omega (arith, frames-update gl j (b ∷ gl j) m.order, m.pages)

-- Freeing an aligned block of an order below `MAX_ORDER` whose bytes are not free returns, with one round of fuel for every free page:
-- the free bytes are then the old ones and the bytes of the block, no byte is in two free blocks,
-- and the page counter has grown by the pages of the block.
pub deallocate_internal-Freed :
    (fuel : ℕ) (s : BuddyAllocator) (fl : FreeLists) (a k : ℕ)
    → frames fl < fuel
    → k < max_order
    → IsValid s fl
    → IsTaken fl k a
    → (t : BuddyAllocator) × (gl : FreeLists) × (deallocate_internal fuel s a k ≡ some t)
      × Freed s fl k a t gl
unfolding deallocate_internal
deallocate_internal-Freed fuel s fl a k enough hk v taken =
    let (u, b, j, gl, run, m) =
      merge_loop-Merged max_order fuel s fl a k (omega arith) (Enough-of_frames fuel fl enough) hk
        v.linked taken in
    (_, update gl j (b ∷ gl j), rw (run, deallocate_internal), Merged-Freed s fl k a u gl j b v m)
