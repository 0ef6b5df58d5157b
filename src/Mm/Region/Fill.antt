-- ===== src/Mm/Region/Fill.antt =====
-- Filling a range with blocks: the loop ends, and the pages that become free are exactly the whole
-- pages of the range.
use pindos.Base.{
  ℕ, zero, suc, ◌+◌, ◌-◌, ◌*◌, ◌/◌, ◌%◌, ◌^◌, ◌≤◌, ◌<◌, ◌≡◌, some, arith, ltb, leb, ◌==◌,
  if◌then◌else◌, Bool-cases, inl, inr, ap, ◌∙◌,
}
use native.Mathlib.Nat.{one-le-pow}
use pindos.Mm.Buddy.{BuddyAllocator, max_order, page_size, block_size, add64}
use pindos.Mm.Buddy.Cover.{FreeLists, within, cover, frames, block_size-eq}
use pindos.Mm.Buddy.Free.{IsTaken, IsValid, Freed, deallocate_internal-Freed}
use pindos.Mm.Region.{pick_order, fill_loop, fill_range}

-- The order that is picked fits and is aligned.
pick_order_lem :
    (n m a : ℕ)
    → 1 ≤ m
    → a % page_size ≡ 0
    → (2 ^ pick_order n m a ≤ m) × (a % block_size (pick_order n m a) ≡ 0) × (pick_order n m a ≤ n)
unfolding pick_order
pick_order_lem zero m a h al = (h, rw (block_size-eq 0) al, omega arith)
pick_order_lem (suc n) m a h al = ground (arith, pick_order_lem n m a h al)

-- How many whole pages a range has.
abbrev pub pages_in : ℕ → ℕ → ℕ
pages_in a b = (b - a) / page_size

-- `t` is `s` with the whole pages from `a` up to `b` free, and counted.
pub record Filled (s : BuddyAllocator) (fl : FreeLists) (a b : ℕ) (t : BuddyAllocator)
    (gl : FreeLists) : Type 0 where
  pub valid : IsValid t gl
  pub covered : (p : ℕ) → cover gl p ≡ cover fl p + within (pages_in a b * page_size) a p
  pub pages : frames gl ≡ frames fl + pages_in a b
  pub total : t.total_frames % 2 ^ 64 ≡ (s.total_frames + pages_in a b) % 2 ^ 64

-- The range is page aligned at its start, and none of its whole pages is free yet.
pub record IsFillable (fl : FreeLists) (a b : ℕ) : Type 0 where
  pub aligned : a % page_size ≡ 0
  pub bounded : b < 2 ^ 64
  pub apart : (p : ℕ) → within (pages_in a b * page_size) a p + cover fl p ≤ 1

-- The first block of a range, and the range behind it.
module _ (fl : FreeLists) (a b k : ℕ) (f : IsFillable fl a b) (fits : 2 ^ k ≤ pages_in a b) where
  rest-start : add64 a (block_size k) ≡ a + block_size k
  rest-start = omega (arith, f.bounded, block_size-eq k, one-le-pow k 2 (omega arith))

  rest-pages : pages_in (a + block_size k) b + 2 ^ k ≡ pages_in a b
  rest-pages = omega (arith, block_size-eq k)

  rest-within :
      (p : ℕ)
      → within (pages_in a b * page_size) a p
        ≡ within (block_size k) a p
          + within (pages_in (a + block_size k) b * page_size) (a + block_size k) p
  rest-within p = ground (arith, rest-pages, block_size-eq k)

  first-IsTaken : a % block_size k ≡ 0 → IsTaken fl k a
  first-IsTaken al = record {
    aligned = (al, omega (arith, f.bounded, block_size-eq k));
    apart = λ p. omega (arith, rest-within p, f.apart p);
  }

  rest-IsFillable :
      {s t : BuddyAllocator} {gl : FreeLists}
      → Freed s fl k a t gl
      → IsFillable gl (a + block_size k) b
  rest-IsFillable r = record {
    aligned = omega (arith, block_size-eq k, f.aligned);
    bounded = f.bounded;
    apart = λ p. omega (arith, rest-within p, f.apart p, r.covered p);
  }

-- The counter of all pages is not part of the representation.
recount :
    {s : BuddyAllocator} {fl : FreeLists} (n : ℕ)
    → IsValid s fl
    → IsValid (record s { total_frames = n }) fl
recount n v = record {
  linked = record {
    chain = v.linked.chain;
    aligned = v.linked.aligned;
    disjoint = v.linked.disjoint;
  };
  counted = v.counted;
}

-- Nothing is filled.
Filled-none :
    {s : BuddyAllocator} {fl : FreeLists} (a b : ℕ)
    → pages_in a b ≡ 0
    → IsValid s fl
    → Filled s fl a b s fl
Filled-none {s} {fl} a b e v = record {
  valid = v;
  covered = λ p. ground (arith, e);
  pages = omega arith;
  total = rw e (ground arith);
}

module _ {s t u : BuddyAllocator} {fl gl hl : FreeLists} (a b k : ℕ) (f : IsFillable fl a b)
    (fits : 2 ^ k ≤ pages_in a b) (r : Freed s fl k a t gl) where
  -- The first block and the rest.
  Filled-more :
      Filled (record t { total_frames = add64 t.total_frames (2 ^ k) }) gl (a + block_size k) b u hl
      → Filled s fl a b u hl
  Filled-more m = record {
    valid = m.valid;
    covered = λ p. omega (arith, m.covered p, r.covered p, rest-within fl a b k f fits p);
    pages = omega (arith, m.pages, r.pages, rest-pages fl a b k f fits);
    total = omega (arith, m.total, r.total, rest-pages fl a b k f fits);
  }

pub fill_loop-Filled :
    (fuel rounds : ℕ) (s : BuddyAllocator) (fl : FreeLists) (a b : ℕ)
    → pages_in a b < rounds
    → frames fl + pages_in a b < fuel
    → IsValid s fl
    → IsFillable fl a b
    → (t : BuddyAllocator) × (gl : FreeLists) × (fill_loop fuel rounds s a b ≡ some t)
      × Filled s fl a b t gl
unfolding fill_loop
fill_loop-Filled fuel zero s fl a b h e v f = absurd (omega arith)
fill_loop-Filled fuel (suc rounds) s fl a b h e v f = elim (Bool-cases (ltb a b)) [
  | inr past ↦
      let none_left : pages_in a b ≡ 0 = ground (arith, past) in
      (s, fl, rw past, Filled-none a b none_left v)
  | inl inside ↦ elim (Bool-cases (pages_in a b == 0)) [
    | inl done ↦ (s, fl, rw (inside, done), Filled-none a b (ground (arith, done)) v)
    | inr more ↦
        let order = pick_order (max_order - 1) (pages_in a b) a in
        let (fits, al, small) =
          pick_order_lem (max_order - 1) (pages_in a b) a (ground (arith, more)) f.aligned in
        let (t, gl, run, r) =
          deallocate_internal-Freed fuel s fl a order (omega (arith, e)) (omega arith) v
            (first-IsTaken fl a b order f fits al) in
        let start : add64 a (block_size order) ≡ a + block_size order =
          rest-start fl a b order f fits in
        let (u, hl, run', m) =
          fill_loop-Filled fuel rounds
            (record t { total_frames = add64 t.total_frames (2 ^ order) }) gl (a + block_size order)
            b (omega (arith, rest-pages fl a b order f fits, one-le-pow order 2 (omega arith)))
            (omega (arith, r.pages, rest-pages fl a b order f fits)) (recount _ r.valid)
            (rest-IsFillable fl a b order f fits r) in
        let run'' =
          ap
            (λ (i : ℕ).
              fill_loop fuel rounds (record t { total_frames = add64 t.total_frames (2 ^ order) }) i
                b)
            start
          ∙ run' in
        (u, hl, rw (inside, more, run) run'', Filled-more a b order f fits r m)
  ]
]

-- Page 0 is left out.
abbrev pub first_page : ℕ → ℕ
first_page a = if a == 0 then page_size else a

pub fill_range-Filled :
    (fuel rounds : ℕ) (s : BuddyAllocator) (fl : FreeLists) (a b : ℕ)
    → pages_in a b < rounds
    → frames fl + pages_in a b < fuel
    → IsValid s fl
    → IsFillable fl (first_page a) b
    → (t : BuddyAllocator) × (gl : FreeLists) × (fill_range fuel rounds s a b ≡ some t)
      × Filled s fl (first_page a) b t gl
unfolding fill_range
fill_range-Filled fuel rounds s fl a b h e v f =
    let less : pages_in (first_page a) b ≤ pages_in a b = ground arith in
    elim (Bool-cases (leb b a)) [
      | inl out ↦
          let none_left : pages_in (first_page a) b ≡ 0 = ground (arith, out) in
          (s, fl, rw out, Filled-none (first_page a) b none_left v)
      | inr go ↦
          let (t, gl, run, r) =
            fill_loop-Filled fuel rounds s fl (first_page a) b (omega (arith, less))
              (omega (arith, less)) v f in
          (t, gl, rw go run, r)
    ]
