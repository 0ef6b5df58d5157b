-- ===== src/Mm/Buddy/Remove.antt =====
-- `remove_from_list` walks a free list and unlinks a block: on the list of blocks it drops one
-- entry, and it leaves all other lists alone.
use pindos.Base.{
  ℕ, zero, suc, ◌+◌, ◌≤◌, ◌<◌, ◌≡◌, refl, ◌≢◌, Bool, true, false, ◌||◌, Option, some, List, [], ◌∷◌,
  arith, All, length, bit, Bool-cases, ==_refl, at_update_one, update_self, update_ne, ap, ◌∙◌, inl,
  inr, ◌==◌, update, if◌then◌else◌,
}
use pindos.Mm.Buddy.{
  BuddyAllocator, block_size, max_order, Slot, head, field, read, write, remove_loop,
  remove_from_list,
}
use pindos.Mm.Buddy.Cover.{
  FreeLists, within, cover_list, count, cover, cover-update, count-le-occurs, count_apart,
}
use pindos.Mm.Buddy.Linked.{Chain, IsAligned, IsLinked, occurs-le-one, Chain-update}

abbrev pub has : ℕ → List ℕ → Bool
has a [] = false
has a (x ∷ xs) = (x == a) || has a xs

-- The list less the first entry `a`.
pub erase : ℕ → List ℕ → List ℕ
erase a [] = []
erase a (x ∷ xs) = if x == a then xs else x ∷ erase a xs

-- The slot is not a field of a node of the list.
abbrev IsFresh : Slot → List ℕ → Type 0
IsFresh (head k) xs = Unit
IsFresh (field q) xs = count q xs ≡ 0

abbrev NotField : Slot → ℕ → Type 0
NotField (head k) y = Unit
NotField (field q) y = q ≢ y

abbrev NotHead : Slot → ℕ → Type 0
NotHead (head k) j = k ≢ j
NotHead (field q) j = Unit

-- What a walk from `slot` over `xs` may change, and what it leaves at the slot.
record Rewired (s t : BuddyAllocator) (slot : Slot) (xs ys : List ℕ) : Type 0 where
  chain : Chain t.next (read t slot) ys
  nodes : (y : ℕ) → count y xs ≡ 0 → NotField slot y → t.next y ≡ s.next y
  heads : (k : ℕ) → NotHead slot k → t.free_lists k ≡ s.free_lists k
  free : t.free_frames ≡ s.free_frames
  total : t.total_frames ≡ s.total_frames

-- The write that unlinks the first node.
unlink-Rewired :
    (s : BuddyAllocator) (slot : Slot) (x : ℕ) (xs : List ℕ)
    → Chain s.next (s.next x) xs
    → IsFresh slot xs
    → Rewired s (write s slot (s.next x)) slot (x ∷ xs) xs
unfolding read write
unlink-Rewired s (head k) x xs c fresh = record {
  chain = rw (update_self s.free_lists k (s.next x)) c;
  nodes = λ y _ _. refl;
  heads = λ j ne. update_ne s.free_lists k j (s.next x) ne;
  free = refl;
  total = refl;
}
unlink-Rewired s (field q) x xs c fresh = record {
  chain =
      rw (update_self s.next q (s.next x)) (Chain-update s.next q (s.next x) (s.next x) xs fresh c);
  nodes = λ y _ ne. update_ne s.next q y (s.next x) ne;
  heads = λ j _. refl;
  free = refl;
  total = refl;
}

-- A walk that starts at the field of the first node also ends well at the slot before it.
step-Rewired :
    (s t : BuddyAllocator) (slot : Slot) (x : ℕ) (xs ys : List ℕ)
    → read s slot ≡ some x
    → IsFresh slot (x ∷ xs)
    → Rewired s t (field x) xs ys
    → Rewired s t slot (x ∷ xs) (x ∷ ys)
unfolding read
step-Rewired s t (head k) x xs ys e fresh r = record {
  chain = (r.heads k tt ∙ e, r.chain);
  nodes = λ y out _. r.nodes y (ground arith) (ground arith);
  heads = λ j _. r.heads j tt;
  free = r.free;
  total = r.total;
}
step-Rewired s t (field q) x xs ys e fresh r = record {
  chain = (r.nodes q (ground arith) (ground arith) ∙ e, r.chain);
  nodes = λ y out _. r.nodes y (ground arith) (ground arith);
  heads = λ j _. r.heads j tt;
  free = r.free;
  total = r.total;
}

IsFresh-tail : (x : ℕ) (xs : List ℕ) (slot : Slot) → IsFresh slot (x ∷ xs) → IsFresh slot xs
IsFresh-tail x xs (head k) f = tt
IsFresh-tail x xs (field q) f = omega arith

remove_loop-Rewired :
    (xs : List ℕ) (fuel : ℕ) (s : BuddyAllocator) (slot : Slot) (a : ℕ)
    → length xs < fuel
    → Chain s.next (read s slot) xs
    → ((y : ℕ) → count y xs ≤ 1)
    → IsFresh slot xs
    → (t : BuddyAllocator) × (remove_loop fuel s slot a ≡ some (t, has a xs))
      × Rewired s t slot xs (erase a xs)
unfolding remove_loop erase read
remove_loop-Rewired xs zero s slot a h c nodup fresh = absurd (omega arith)
remove_loop-Rewired [] (suc fuel) s slot a h c nodup fresh = (
  s,
  rw (c, remove_loop),
  record { chain = c; nodes = λ y _ _. refl; heads = λ k _. refl; free = refl; total = refl },
)
remove_loop-Rewired (x ∷ xs) (suc fuel) s slot a h c nodup fresh = elim (Bool-cases (x == a)) [
  | inl e ↦ (
    write s slot (s.next x),
    rw (c.0, remove_loop, e),
    rw e (unlink-Rewired s slot x xs c.1 (IsFresh-tail x xs slot fresh)),
  )
  | inr e ↦
      let (t, run, r) =
        remove_loop-Rewired xs fuel s (field x) a (omega arith) c.1 (λ y. omega (arith, nodup y))
          (omega (arith, nodup x, ap bit (==_refl x))) in
      (t, rw (c.0, remove_loop, e) run, rw e (step-Rewired s t slot x xs (erase a xs) c.0 fresh r))
]

-- Dropping an entry drops its cover, and only if it is there.
cover_list-erase :
    (size a p : ℕ) (xs : List ℕ)
    → cover_list size (erase a xs) p + (if has a xs then within size a p else 0)
      ≡ cover_list size xs p
unfolding erase
cover_list-erase size a p [] = refl
cover_list-erase size a p (x ∷ xs) = ground (arith, cover_list-erase size a p xs)

All-erase : (P : ℕ → Type 0) (a : ℕ) (xs : List ℕ) → All P xs → All P (erase a xs)
unfolding erase
All-erase P a [] h = tt
All-erase P a (x ∷ xs) h = elim (Bool-cases (x == a)) [
  | inl e ↦ rw e h.1
  | inr e ↦ rw e (h.0, All-erase P a xs h.1)
]

pub length-erase : (a : ℕ) (xs : List ℕ) → length (erase a xs) + bit (has a xs) ≡ length xs
unfolding erase
length-erase a [] = refl
length-erase a (x ∷ xs) = ground (arith, length-erase a xs)

pub All-has : (P : ℕ → Type 0) (a : ℕ) (xs : List ℕ) → has a xs ≡ true → All P xs → P a
All-has P a [] h l = cc
All-has P a (x ∷ xs) h l = elim (Bool-cases (x == a)) [
  | inl e ↦ let same : a ≡ x = ground arith in rw same l.0
  | inr e ↦ All-has P a xs (ground arith) l.1
]

-- A chain depends on its own nodes alone.
Chain-same :
    (next other : ℕ → Option ℕ) (h : Option ℕ) (xs : List ℕ)
    → ((y : ℕ) → 0 < count y xs → other y ≡ next y)
    → Chain next h xs
    → Chain other h xs
Chain-same next other h [] same c = c
Chain-same next other h (x ∷ xs) same c = (
  c.0,
  rw (same x (omega (arith, ap bit (==_refl x))))
      (Chain-same next other (next x) xs (λ y m. same y (omega arith)) c.1),
)

-- What `remove_from_list` returns on linked lists: whether the block was on the list, and a state
-- whose list of that order is less the block. The counters and all other lists are as before.
pub record Removed (s : BuddyAllocator) (fl : FreeLists) (k a : ℕ) (t : BuddyAllocator)
    : Type 0 where
  pub linked : IsLinked t (update fl k (erase a (fl k)))
  pub covered :
      (p : ℕ)
      → cover (update fl k (erase a (fl k))) p
          + (if has a (fl k) then within (block_size k) a p else 0)
        ≡ cover fl p
  pub free : t.free_frames ≡ s.free_frames
  pub total : t.total_frames ≡ s.total_frames

module _ {s : BuddyAllocator} {fl : FreeLists} (l : IsLinked s fl) where
  -- The other lists do not hold the nodes that the walk rewrote.
  Rewired-Removed :
      (k a : ℕ) (t : BuddyAllocator)
      → k < max_order
      → Rewired s t (head k) (fl k) (erase a (fl k))
      → Removed s fl k a t
  unfolding read
  Rewired-Removed k a t hk r = record {
    linked = record {
      chain =
          at_update_one (λ j xs. j < max_order → Chain t.next (t.free_lists j) xs) fl k
            (erase a (fl k)) (λ _. r.chain) others;
      aligned =
          at_update_one (λ j xs. All (IsAligned (block_size j)) xs) fl k (erase a (fl k))
            (All-erase (IsAligned (block_size k)) a (fl k) (l.aligned k)) (λ j _. l.aligned j);
      disjoint = λ p. omega (arith, covered p, l.disjoint p);
    };
    covered = covered;
    free = r.free;
    total = r.total;
  }
    where
      covered :
          (p : ℕ)
          → cover (update fl k (erase a (fl k))) p
              + (if has a (fl k) then within (block_size k) a p else 0)
            ≡ cover fl p
      covered p = omega (
        arith,
        cover-update fl k (erase a (fl k)) hk p,
        cover_list-erase (block_size k) a p (fl k),
      )

      others : (j : ℕ) → k ≢ j → j < max_order → Chain t.next (t.free_lists j) (fl j)
      others j ne hj = rw (r.heads j ne) (
          Chain-same s.next t.next (s.free_lists j) (fl j)
            (λ y m.
              r.nodes y (omega (arith, count_apart fl k j y hk hj ne, occurs-le-one l y, m)) tt)
            (l.chain j hj))

  pub remove_from_list-Removed :
      (fuel k a : ℕ)
      → k < max_order
      → length (fl k) < fuel
      → (t : BuddyAllocator) × (remove_from_list fuel s k a ≡ some (t, has a (fl k)))
        × Removed s fl k a t
  unfolding remove_from_list read
  remove_from_list-Removed fuel k a hk enough =
      let (t, run, r) =
        remove_loop-Rewired (fl k) fuel s (head k) a enough (l.chain k hk)
          (λ y. omega (arith, count-le-occurs fl k y hk, occurs-le-one l y)) tt in
      (t, run, Rewired-Removed k a t hk r)
