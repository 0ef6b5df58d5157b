-- ===== src/Mm/Heap/Fit.antt =====
-- An allocated block lies in the free memory, is aligned, and is not free any more.
use mathlib.Core.Path.{subst}
use native.Mathlib.Nat.{
  pow-suc, one-le-pow, div-lt_iff_lt-mul, mod-eq_of_lt, lt-div-mul-add, pow-le-pow_right,
  div-mul-le_self, mul-mod_left,
}
use pindos.Base.{
  ℕ, zero, suc, ◌+◌, ◌-◌, ◌*◌, ◌/◌, ◌%◌, ◌^◌, ◌≤◌, ◌<◌, ◌≡◌, refl, max, Option, none, some, [], ◌∷◌,
  arith, leb, All, Bool-cases, Option-cases, inl, inr, ap, sym, ◌∙◌,
}
use pindos.Base.Bits.{bit_and_high, pow-add}
use pindos.Mm.Heap.{
  LinkedHeapAllocator, align_up, remainder, fit_loop, block_of, alloc_raw, dealloc_raw,
}
use pindos.Mm.Buddy.Cover.{within}

-- How many holes contain a byte.
abbrev pub cover : LinkedHeapAllocator → ℕ → ℕ
cover [] p = 0
cover (h ∷ rest) p = within h.size h.addr p + cover rest p

-- Every hole ends in the lower quarter of the address space.
abbrev pub IsLow : LinkedHeapAllocator → Type 0
IsLow holes = All (λ h. h.addr + h.size ≤ 2 ^ 62) holes

pow_split : (k w : ℕ) → k + w ≡ 64 → 2 ^ k * 2 ^ w ≡ 2 ^ 64
pow_split k w e = sym (pow-add k w) ∙ ap (λ (x : ℕ). 2 ^ x) e

less_one : (a b : ℕ) → 1 ≤ a → (a - 1) * b + b ≡ a * b
less_one zero b h = absurd (omega (arith, h))
less_one (suc a) b h = ground arith

pub align_up_lem :
    (k w x : ℕ)
    → k + w ≡ 64
    → x + 2 ^ k ≤ 2 ^ 64
    → (align_up x (2 ^ k) % 2 ^ k ≡ 0) × (x ≤ align_up x (2 ^ k)) × (align_up x (2 ^ k) < x + 2 ^ k)
unfolding align_up
align_up_lem k w x e h =
    let pos : 1 ≤ 2 ^ k = one-le-pow k 2 (omega arith) in
    let fits : (x + (2 ^ k - 1)) % 2 ^ 64 ≡ x + (2 ^ k - 1) =
      mod-eq_of_lt (omega (arith, h, pos)) in
    let mask : 2 ^ 64 - 2 ^ k ≡ (2 ^ w - 1) * 2 ^ k =
      omega (arith, pow_split k w e, less_one (2 ^ w) (2 ^ k) (one-le-pow w 2 (omega arith))) in
    let quotient : (x + (2 ^ k - 1)) / 2 ^ k < 2 ^ w =
      (div-lt_iff_lt-mul pos).1 omega (arith, pow_split k w e, h, pos) in
    let value : align_up x (2 ^ k) ≡ (x + (2 ^ k - 1)) / 2 ^ k * 2 ^ k =
      rw (fits, mask)
        (bit_and_high k w (x + (2 ^ k - 1)) ∙ ap (λ (z : ℕ). z * 2 ^ k) (mod-eq_of_lt quotient)) in
    (
      rw value (mul-mod_left ((x + (2 ^ k - 1)) / 2 ^ k) (2 ^ k)),
      omega (arith, value, lt-div-mul-add {a = x + (2 ^ k - 1)} pos),
      omega (arith, value, div-mul-le_self (x + (2 ^ k - 1)) (2 ^ k), pos),
    )

-- A request: an alignment that is a power of two.
pub record IsLayout (size align k w : ℕ) : Type 0 where
  pub power : align ≡ 2 ^ k
  pub width : k + w ≡ 64
  pub align_small : align ≤ 2 ^ 61
  pub size_small : size ≤ 2 ^ 61

remainder-cover :
    (addr size : ℕ) (rest : LinkedHeapAllocator) (p : ℕ)
    → cover (remainder addr size rest) p ≤ within size addr p + cover rest p
unfolding remainder
remainder-cover addr size rest p = ground arith

remainder-IsLow :
    (addr size : ℕ) (rest : LinkedHeapAllocator)
    → addr + size ≤ 2 ^ 62
    → IsLow rest
    → IsLow (remainder addr size rest)
unfolding remainder
remainder-IsLow addr size rest h low = ground (arith, h, low)

-- A block and what is behind it lie in the hole, apart from each other.
within-parts :
    (c size a n left p : ℕ)
    → c ≤ a
    → a + n + left ≡ c + size
    → within left (a + n) p + within n a p ≤ within size c p
within-parts c size a n left p h e = ground (arith, h, e)

-- The block `a` of a size comes out of the holes.
pub record Fitted (holes : LinkedHeapAllocator) (size align a : ℕ) (holes' : LinkedHeapAllocator)
    : Type 0 where
  pub aligned : a % align ≡ 0
  pub covered : (p : ℕ) → cover holes' p + within size a p ≤ cover holes p
  pub low : IsLow holes'

-- No hole has room for the block, or it comes out of one.
abbrev Answered : LinkedHeapAllocator → ℕ → ℕ → Option (ℕ × LinkedHeapAllocator) → Type 0
Answered holes size align none = All (λ h. h.addr + h.size < align_up h.addr align + size) holes
Answered holes size align (some (a, holes')) = Fitted holes size align a holes'

align_up_layout :
    (size align k w x : ℕ)
    → IsLayout size align k w
    → x ≤ 2 ^ 62
    → (align_up x align % align ≡ 0) × (x ≤ align_up x align) × (align_up x align < x + align)
align_up_layout size align k w x l h =
    rw l.power (align_up_lem k w x l.width (omega (arith, h, l.align_small, l.power)))

module _ (size align k w : ℕ) (l : IsLayout size align k w) where
  -- What is taken of a hole, without wrap-around.
  required_lem :
      (c : ℕ)
      → c ≤ 2 ^ 62
      → (size + (align_up c align + 2 ^ 64 - c) % 2 ^ 64) % 2 ^ 64 + c ≡ size + align_up c align
  required_lem c h =
      let (al, ge, lt) = align_up_layout size align k w c l h in
      omega (arith, ge, lt, h, l.size_small, l.align_small)

  take_hole :
      (c room required : ℕ) (rest : LinkedHeapAllocator)
      → required + c ≡ size + align_up c align
      → required ≤ room
      → c + room ≤ 2 ^ 62
      → IsLow rest
      → Fitted
          (record { addr = c; size = room } ∷ rest)
          size
          align
          (align_up c align)
          (remainder (align_up c align + size) (room - required) rest)
  take_hole c room required rest e fits bound low =
      let (al, ge, lt) = align_up_layout size align k w c l (omega (arith, bound)) in
      record {
        aligned = al;
        covered = λ p. omega (
          arith,
          remainder-cover (align_up c align + size) (room - required) rest p,
          within-parts c room (align_up c align) size (room - required) p ge
              (omega (arith, e, fits)),
        );
        low =
            remainder-IsLow (align_up c align + size) (room - required) rest
              (omega (arith, e, fits, bound)) low;
      }

  fit_loop-Answered :
      (holes : LinkedHeapAllocator)
      → IsLow holes
      → Answered holes size align (fit_loop holes size align)
  unfolding fit_loop
  fit_loop-Answered [] low = tt
  fit_loop-Answered (curr ∷ rest) low =
      elim (Bool-cases (
        leb ((size + (align_up curr.addr align + 2 ^ 64 - curr.addr) % 2 ^ 64) % 2 ^ 64)
          curr.size)) [
            | inl fits ↦ rw fits (
                take_hole curr.addr curr.size _ rest (required_lem curr.addr (omega (arith, low.0)))
                  (ground (arith, fits)) low.0 low.1)
            | inr small ↦ elim (Option-cases (fit_loop rest size align)) [
              | inl nothing ↦
                  rw (small, nothing)
                    (
                      ground (arith, small, required_lem curr.addr (omega (arith, low.0))),
                      subst (Answered rest size align) nothing (fit_loop-Answered rest low.1),
                    )
              | inr ((a, holes'), found) ↦
                  let t : Fitted rest size align a holes' =
                    subst (Answered rest size align) found (fit_loop-Answered rest low.1) in
                  rw (small, found)
                    (record {
                      aligned = t.aligned;
                      covered = λ p. omega (arith, t.covered p);
                      low = (low.0, t.low);
                    })
            ]
          ]

-- The alignment of a hole or more is a power of two.
raise :
    (k : ℕ)
    → k ≤ 60
    → (j : ℕ) × (j ≤ 60) × (max (2 ^ k) 8 ≡ 2 ^ j) × ((a : ℕ) → a % 2 ^ j ≡ 0 → a % 2 ^ k ≡ 0)
raise zero h = (3, omega arith, refl, λ a e. omega (arith, e))
raise (suc zero) h = (3, omega arith, refl, λ a e. omega (arith, e))
raise (suc (suc zero)) h = (3, omega arith, refl, λ a e. omega (arith, e))
raise (suc (suc (suc k))) h = (
  suc (suc (suc k)),
  h,
  omega (
    arith,
    pow-suc 2 k,
    pow-suc 2 (suc k),
    pow-suc 2 (suc (suc k)),
    one-le-pow k 2 (omega arith),
  ),
  λ a e. e,
)

-- What an allocation answers. None: no hole has room for the block at an aligned address. Else an
-- aligned block whose bytes were in a hole and are in none after it; given back, no byte is free twice.
abbrev pub Allocated : LinkedHeapAllocator → ℕ → ℕ → Option (ℕ × LinkedHeapAllocator) → Type 0
Allocated holes size align none =
    All (λ h. h.addr + h.size < align_up h.addr (max align 8) + block_of size align) holes
Allocated holes size align (some (a, holes')) =
    (a % align ≡ 0)
    × ((p : ℕ) → cover holes' p + within (max size 24) a p ≤ cover holes p)
    × IsLow holes'
    × ((p : ℕ) → cover (dealloc_raw holes' a size align) p ≤ cover holes p)

-- The smaller range of the same start holds fewer bytes.
within-le : (size block a p : ℕ) → size ≤ block → within size a p ≤ within block a p
within-le size block a p h = ground (arith, h)

Answered-Allocated :
    (holes : LinkedHeapAllocator) (size align : ℕ) (r : Option (ℕ × LinkedHeapAllocator))
    → max size 24 ≤ block_of size align
    → ((a : ℕ) → a % max align 8 ≡ 0 → a % align ≡ 0)
    → Answered holes (block_of size align) (max align 8) r
    → Allocated holes size align r
unfolding dealloc_raw
Answered-Allocated holes size align none enough divides answer = answer
Answered-Allocated holes size align (some (a, holes')) enough divides t =
    let kept : (p : ℕ) → cover holes' p + within (max size 24) a p ≤ cover holes p =
      λ p. omega (arith, t.covered p, within-le (max size 24) (block_of size align) a p enough) in
    (divides a t.aligned, kept, t.low, λ p. omega (arith, kept p))

-- A request of at most 2 ^ 60 bytes, whose alignment is a power of two up to 2 ^ 60, over holes that
-- end in the lower quarter of the address space, is answered as `Allocated` says.
pub alloc_raw-Allocated :
    (holes : LinkedHeapAllocator) (size align k : ℕ)
    → align ≡ 2 ^ k
    → k ≤ 60
    → size ≤ 2 ^ 60
    → IsLow holes
    → Allocated holes size align (alloc_raw holes size align)
unfolding alloc_raw block_of
alloc_raw-Allocated holes size align k e small h low =
    let (j, jsmall, power, divides) = raise k small in
    let width : j + (64 - j) ≡ 64 = omega (arith, jsmall) in
    let unit : max align 8 ≡ 2 ^ j = ap (λ (x : ℕ). max x 8) e ∙ power in
    let bound : 2 ^ j ≤ 2 ^ 60 = pow-le-pow_right (omega arith) jsmall in
    let (_, enough, tight) =
      align_up_lem j (64 - j) (max size 24) width (omega (arith, h, bound)) in
    let block : block_of size align ≡ align_up (max size 24) (2 ^ j) =
      ap (λ (x : ℕ). align_up (max size 24) x) unit in
    let layout : IsLayout (block_of size align) (max align 8) j (64 - j) = record {
      power = unit;
      width = width;
      align_small = omega (arith, unit, bound);
      size_small = omega (arith, block, tight, h, bound);
    } in
    Answered-Allocated holes size align (alloc_raw holes size align) (omega (arith, block, enough))
      (λ a m. rw e (divides a (rw unit at m)))
      (fit_loop-Answered (block_of size align) (max align 8) j (64 - j) layout holes low)
