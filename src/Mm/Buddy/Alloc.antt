-- ===== src/Mm/Buddy/Alloc.antt =====
-- Allocating a block: the search through the orders, and the splitting of a larger block.
use pindos.Base.{
  ℕ, zero, suc, ◌+◌, ◌-◌, ◌*◌, ◌/◌, ◌%◌, ◌^◌, ◌≤◌, ◌<◌, ◌≡◌, refl, Option, none, List, [], ◌∷◌,
  arith, All, length, leb, Bool-cases, Option-cases, inl, inr, sym, update, ap, leb→le,
}
use mathlib.Core.Path.{subst}
use native.Mathlib.Nat.{pow-suc, mul-mod_left, div-add-mod, pow-le-pow_right}
use native.Mathlib.Decide.{ℕ_discrete}
use pindos.Mm.Buddy.{
  BuddyAllocator, block_size, max_order, push, split_loop, take_block, search_loop, allocate,
  Result, ok, err, out_of_memory, invalid_order, add64,
}
use pindos.Mm.Buddy.Cover.{
  FreeLists, within, cover, cover_list, frames, frames-update, cover-update, block_size-pos,
  block_size-suc,
}
use pindos.Mm.Buddy.Linked.{Chain, Chain-some, IsAligned, IsLinked, push-IsLinked, pop-IsLinked}
use pindos.Mm.Buddy.Pair.{within-pair}
use pindos.Mm.Buddy.Free.{IsTaken, IsValid, within_self}

-- The lower and the upper half of an aligned block are aligned.
halves_aligned :
    (size a : ℕ)
    → 0 < size
    → IsAligned (2 * size) a
    → IsAligned size a × IsAligned size (a + size) × (a + size < 2 ^ 64)
halves_aligned size a pos al = ((low, omega arith), (high, omega arith), omega arith)
  where
    multiple : a ≡ a / (2 * size) * 2 * size
    multiple = omega (arith, div-add-mod a (2 * size), al.0)

    low : a % size ≡ 0
    low = rw multiple (mul-mod_left (a / (2 * size) * 2) size)

    high : (a + size) % size ≡ 0
    high =
        let next : a + size ≡ (a / (2 * size) * 2 + 1) * size = omega (arith, multiple) in
        rw next (mul-mod_left (a / (2 * size) * 2 + 1) size)

-- The state `t` with lists `gl` is `s` with the block of order `n` at `a` free, but for its first
-- block of order `k`.
record Split (s : BuddyAllocator) (fl : FreeLists) (n k a : ℕ) (t : BuddyAllocator) (gl : FreeLists)
    : Type 0 where
  linked : IsLinked t gl
  covered :
      (p : ℕ) → cover gl p + within (block_size k) a p ≡ cover fl p + within (block_size n) a p
  aligned : IsAligned (block_size k) a
  pages : frames gl + 2 ^ k ≡ frames fl + 2 ^ n
  free : t.free_frames ≡ s.free_frames
  total : t.total_frames ≡ s.total_frames

-- One split: the upper half of a block of order `suc j` is put on the list of order `j`.
module _ {s : BuddyAllocator} {fl : FreeLists} (j a : ℕ) (hj : suc j < max_order)
    (l : IsLinked s fl) (taken : IsTaken fl (suc j) a) where
  halves :
      IsAligned (block_size j) a
      × IsAligned (block_size j) (a + block_size j)
      × (a + block_size j < 2 ^ 64)
  halves =
      halves_aligned (block_size j) a (block_size-pos j)
        (subst (λ z. IsAligned z a) (block_size-suc j) taken.aligned)

  no_wrap : add64 a (block_size j) ≡ a + block_size j
  no_wrap = omega (arith, halves.2)

  joined :
      (p : ℕ)
      → within (block_size (suc j)) a p
        ≡ within (block_size j) a p + within (block_size j) (a + block_size j) p
  joined p = rw (block_size-suc j) (within-pair (block_size j) a p)

  upper-IsLinked :
      IsLinked (push s j (add64 a (block_size j))) (update fl j ((a + block_size j) ∷ fl j))
  upper-IsLinked = rw no_wrap (
      push-IsLinked l j (a + block_size j) (omega arith) halves.1
        (λ p. omega (arith, joined p, taken.apart p))
        (within_self (block_size j) (a + block_size j) (block_size-pos j)))

  upper-covered :
      (p : ℕ)
      → cover (update fl j ((a + block_size j) ∷ fl j)) p
        ≡ cover fl p + within (block_size j) (a + block_size j) p
  upper-covered p = omega (arith, cover-update fl j ((a + block_size j) ∷ fl j) (omega arith) p)

  lower-IsTaken : IsTaken (update fl j ((a + block_size j) ∷ fl j)) j a
  lower-IsTaken = record {
    aligned = halves.0;
    apart = λ p. omega (arith, upper-covered p, joined p, taken.apart p);
  }

  upper-pages : frames (update fl j ((a + block_size j) ∷ fl j)) + 2 ^ j ≡ frames fl + 2 ^ suc j
  upper-pages =
      omega (arith, frames-update fl j ((a + block_size j) ∷ fl j) (omega arith), pow-suc 2 j)

  join-Split :
      {k : ℕ} {t : BuddyAllocator} {gl : FreeLists}
      → Split
          (push s j (add64 a (block_size j)))
          (update fl j ((a + block_size j) ∷ fl j))
          j
          k
          a
          t
          gl
      → Split s fl (suc j) k a t gl
  join-Split r = record {
    linked = r.linked;
    covered = λ p. omega (arith, r.covered p, upper-covered p, joined p);
    aligned = r.aligned;
    pages = omega (arith, r.pages, upper-pages);
    free = unfold push in r.free;
    total = unfold push in r.total;
  }

split_loop-Split :
    (n : ℕ) (s : BuddyAllocator) (fl : FreeLists) (m a k : ℕ)
    → m ≡ k + n
    → m < max_order
    → IsLinked s fl
    → IsTaken fl m a
    → (gl : FreeLists) × Split s fl m k a (split_loop n s a k) gl
unfolding split_loop
split_loop-Split zero s fl m a k e h l taken =
    let same : m ≡ k = omega arith in
    (
      fl,
      rw same (record {
        linked = l;
        covered = λ p. refl;
        aligned = subst (λ i. IsAligned (block_size i) a) same taken.aligned;
        pages = refl;
        free = refl;
        total = refl;
      }),
    )
split_loop-Split (suc n) s fl m a k e h l taken =
    let same : m ≡ suc (k + n) = omega arith in
    let taken' : IsTaken fl (suc (k + n)) a = subst (λ i. IsTaken fl i a) same taken in
    let hj : suc (k + n) < max_order = omega arith in
    let (gl, r) =
      split_loop-Split n (push s (k + n) (add64 a (block_size (k + n)))) _ (k + n) a k refl
        (omega arith) (upper-IsLinked (k + n) a hj l taken')
        (lower-IsTaken (k + n) a hj l taken') in
    subst (λ i. (gl : FreeLists) × Split s fl i k a (split_loop (suc n) s a k) gl) (sym same)
      (gl, join-Split (k + n) a hj l taken' r)

two_pow_small : (k : ℕ) → k < max_order → 2 ^ k ≤ 1024
two_pow_small k h = pow-le-pow_right {n = 2} (omega arith) {i = k} {j = 10} (omega arith)

-- What an allocation of order `k` that returns `a` leaves: the block is aligned, all its bytes were
-- free, the free bytes are less by exactly the block, and the page counter by its pages.
pub record Taken (s : BuddyAllocator) (fl : FreeLists) (k a : ℕ) (t : BuddyAllocator)
    (gl : FreeLists) : Type 0 where
  pub valid : IsValid t gl
  pub covered : (p : ℕ) → cover gl p + within (block_size k) a p ≡ cover fl p
  pub aligned : IsAligned (block_size k) a
  pub pages : frames gl + 2 ^ k ≡ frames fl
  pub total : t.total_frames ≡ s.total_frames

-- The block `a` heads the list of order `m`.
module _ {s : BuddyAllocator} {fl : FreeLists} (v : IsValid s fl) (m a : ℕ) (rest : List ℕ)
    (hm : m < max_order) (e : fl m ≡ a ∷ rest) where
  popped : BuddyAllocator
  popped = record s { free_lists = update s.free_lists m (s.next a) }

  popped-covered : (p : ℕ) → cover (update fl m rest) p + within (block_size m) a p ≡ cover fl p
  popped-covered p =
      omega (arith, cover-update fl m rest hm p, ap (λ ys. cover_list (block_size m) ys p) e)

  popped-pages : frames (update fl m rest) + 2 ^ m ≡ frames fl
  popped-pages =
      omega (arith, frames-update fl m rest hm, ap (λ (ys : List ℕ). length ys * 2 ^ m) e)

  popped-IsTaken : IsTaken (update fl m rest) m a
  popped-IsTaken = record {
    aligned = (subst (All (IsAligned (block_size m))) e (v.linked.aligned m)).0;
    apart = λ p. omega (arith, popped-covered p, v.linked.disjoint p);
  }

  pub take_block-Taken : (k : ℕ) → k ≤ m → (gl : FreeLists) × Taken s fl k a (take_block s k m a) gl
  unfolding take_block popped
  take_block-Taken k le =
      let (gl, r) =
        split_loop-Split (m - k) popped (update fl m rest) m a k (omega arith) hm
          (pop-IsLinked v.linked m a rest hm e) popped-IsTaken in
      let pages : frames gl + 2 ^ k ≡ frames fl = omega (arith, r.pages, popped-pages) in
      (
        gl,
        record {
          valid = record {
            linked = record {
              chain = r.linked.chain;
              aligned = r.linked.aligned;
              disjoint = r.linked.disjoint;
            };
            counted = omega (arith, pages, r.free, v.counted, two_pow_small k (omega arith));
          };
          covered = λ p. omega (arith, r.covered p, popped-covered p);
          aligned = r.aligned;
          pages = pages;
          total = r.total;
        },
      )

-- What the search from order `current` up finds: all those lists are empty and the state is as it
-- was, or a block is taken.
abbrev pub Answer : BuddyAllocator → FreeLists → ℕ → ℕ → Result ℕ × BuddyAllocator → Type 0
Answer s fl k current (err out_of_memory, t) =
    ((j : ℕ) → current ≤ j → j < max_order → fl j ≡ []) × (t ≡ s)
Answer s fl k current (err invalid_order, t) = ⊥
Answer s fl k current (ok a, t) = (gl : FreeLists) × Taken s fl k a t gl

-- A lower order whose list is empty may be added.
Answer-lower :
    (s : BuddyAllocator) (fl : FreeLists) (k current : ℕ) (r : Result ℕ × BuddyAllocator)
    → fl current ≡ []
    → Answer s fl k (current + 1) r
    → Answer s fl k current r
Answer-lower s fl k current (err out_of_memory, t) e (h, same) = (all, same)
  where
    all : (j : ℕ) → current ≤ j → j < max_order → fl j ≡ []
    all j le lt = elim (ℕ_discrete current j) [
      | yes p ↦ subst (λ i. fl i ≡ []) p e
      | no n ↦ h j (omega arith) lt
    ]
Answer-lower s fl k current (err invalid_order, t) e h = h
Answer-lower s fl k current (ok a, t) e h = h

-- A list whose head is null is empty.
Chain-none :
    (next : ℕ → Option ℕ) (h : Option ℕ) (xs : List ℕ) → Chain next h xs → h ≡ none → xs ≡ []
Chain-none next h [] c e = refl
Chain-none next h (x ∷ xs) c e = cc (c.0, e)

search_loop-Answer :
    (n : ℕ) (s : BuddyAllocator) (fl : FreeLists) (k current : ℕ)
    → n + current ≡ max_order
    → k ≤ current
    → IsValid s fl
    → Answer s fl k current (search_loop n s k current)
unfolding search_loop
search_loop-Answer zero s fl k current h le v = (λ j above below. absurd (omega arith), refl)
search_loop-Answer (suc n) s fl k current h le v = elim (Option-cases (s.free_lists current)) [
  | inl e ↦
      let run : search_loop (suc n) s k current ≡ search_loop n s k (current + 1) =
        rw (e, search_loop) in
      rw run (
        Answer-lower s fl k current (search_loop n s k (current + 1))
          (Chain-none s.next (s.free_lists current) (fl current)
            (v.linked.chain current (omega arith)) e)
          (search_loop-Answer n s fl k (current + 1) (omega arith) (omega arith) v))
  | inr (a, e) ↦
      let (rest, listed, _) = Chain-some (fl current) (v.linked.chain current (omega arith)) e in
      let run : search_loop (suc n) s k current ≡ (ok a, take_block s k current a) =
        rw (e, search_loop) in
      rw run (take_block-Taken v current a rest (omega arith) listed k le)
]

-- `allocate` refuses orders from 11 on, and says `OutOfMemory` only where no list from the order
-- on has a block; either way the state is unchanged. Otherwise it returns an aligned block all of
-- whose bytes were free, and takes exactly those bytes off the free ones.
abbrev pub AllocateSpec : BuddyAllocator → FreeLists → ℕ → Result ℕ × BuddyAllocator → Type 0
AllocateSpec s fl k (err invalid_order, t) = (max_order ≤ k) × (t ≡ s)
AllocateSpec s fl k (err out_of_memory, t) =
    ((j : ℕ) → k ≤ j → j < max_order → fl j ≡ []) × (k < max_order) × (t ≡ s)
AllocateSpec s fl k (ok a, t) = (k < max_order) × ((gl : FreeLists) × Taken s fl k a t gl)

Answer-AllocateSpec :
    (s : BuddyAllocator) (fl : FreeLists) (k : ℕ) (r : Result ℕ × BuddyAllocator)
    → k < max_order
    → Answer s fl k k r
    → AllocateSpec s fl k r
Answer-AllocateSpec s fl k (err out_of_memory, t) h (empty, same) = (empty, h, same)
Answer-AllocateSpec s fl k (err invalid_order, t) h taken = elim taken [ ]
Answer-AllocateSpec s fl k (ok a, t) h taken = (h, taken)

pub allocate-AllocateSpec :
    (s : BuddyAllocator) (fl : FreeLists) (k : ℕ)
    → IsValid s fl
    → AllocateSpec s fl k (allocate s k)
unfolding allocate
allocate-AllocateSpec s fl k v = elim (Bool-cases (leb max_order k)) [
  | inl big ↦ rw big (leb→le max_order k big, refl)
  | inr small ↦
      let h : k < max_order = ground (arith, small) in
      rw small (
        Answer-AllocateSpec s fl k (search_loop (max_order - k) s k k) h
          (search_loop-Answer (max_order - k) s fl k k (omega arith) (omega arith) v))
]
