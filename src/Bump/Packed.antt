-- ===== src/Bump/Packed.antt =====
-- The blocks of a program lie one behind the other in its heap.
use mathlib.Core.Path.{subst}
use native.Mathlib.Nat.{pow-le-pow_right}
use pindos.Base.{
  ℕ, ◌+◌, ◌-◌, ◌%◌, ◌^◌, ◌≤◌, ◌<◌, ◌≡◌, false, Option, none, some, List, [], ◌∷◌, ltb, ◌==◌,
  if◌then◌else◌, arith, All, Bool-cases, inl, inr,
}
use pindos.Mm.Heap.{align_up}
use pindos.Mm.Heap.Fit.{align_up_lem}
use pindos.Bump.{Layout, heap_size, alloc, is_misplaced, alloc_placed, run}

-- What Rust promises of a `Layout`, for alignments up to 2 ^ 60.
abbrev pub IsLayout : Layout → Type 0
IsLayout layout = (layout.size < 2 ^ 63) × ((k : ℕ) × (k ≤ 60) × (layout.align ≡ 2 ^ k))

-- The blocks lie from `low` to `high`, aligned, each behind the one before.
abbrev pub ArePacked : ℕ → ℕ → List Layout → List (Option ℕ) → Type 0
ArePacked low high [] [] = Unit
ArePacked low high (layout ∷ layouts) (none ∷ rest) = ArePacked low high layouts rest
ArePacked low high (layout ∷ layouts) (some a ∷ rest) =
    (low ≤ a)
    × (a + layout.size ≤ high)
    × (a % layout.align ≡ 0)
    × ArePacked (a + layout.size) high layouts rest
ArePacked low high _ _ = ⊥

-- Where the next block may begin.
abbrev base_of : ℕ → ℕ → ℕ
base_of heap_start next = if next == 0 then heap_start else next

align_up_layout :
    (x : ℕ) (layout : Layout)
    → IsLayout layout
    → x ≤ 2 ^ 62
    → (align_up x layout.align % layout.align ≡ 0)
      × (x ≤ align_up x layout.align)
      × (align_up x layout.align < x + 2 ^ 60)
align_up_layout x layout (small, (k, le, e)) h =
    let bound : 2 ^ k ≤ 2 ^ 60 = pow-le-pow_right (omega arith) le in
    let (al, ge, lt) = align_up_lem k (64 - k) x (omega (arith, le)) (omega (arith, h, bound)) in
    rw e (al, ge, omega (arith, lt, bound))

module _ (heap_start : ℕ) (placed : is_misplaced heap_start ≡ false) where
  above_zero : 0 < heap_start
  unfolding is_misplaced
  above_zero = ground (arith, placed)

  below_4gib : heap_start < 2 ^ 32
  unfolding is_misplaced
  below_4gib = ground (arith, placed)

  -- A block that fits is taken without wrap-around.
  taken :
      (a size : ℕ)
      → heap_start ≤ a
      → a ≤ 2 ^ 62 + 2 ^ 61
      → size < 2 ^ 63
      → base_of heap_start ((a + size) % 2 ^ 64) ≡ a + size
  taken a size ge le h =
      let value : (a + size) % 2 ^ 64 ≡ a + size = omega (arith, le, h) in
      rw value (ground (arith, ge, above_zero))

  run-at :
      (next : ℕ) (layouts : List Layout)
      → All IsLayout layouts
      → heap_start ≤ base_of heap_start next
      → next ≤ heap_start + heap_size
      → ArePacked
          (base_of heap_start next)
          (heap_start + heap_size)
          layouts
          (run heap_start next layouts)
  unfolding run alloc_placed alloc
  run-at next [] l ge le = tt
  run-at next (layout ∷ layouts) l ge le =
      let room : base_of heap_start next ≤ 2 ^ 62 = ground (arith, le, below_4gib) in
      let (al, above, below) = align_up_layout (base_of heap_start next) layout l.0 room in
      elim (Bool-cases (
        ltb (heap_start + heap_size)
          ((align_up (base_of heap_start next) layout.align + layout.size) % 2 ^ 64))) [
            | inl full ↦ rw (placed, full) (run-at next layouts l.1 ge le)
            | inr fits ↦
                let value : base_of heap_start
                      ((align_up (base_of heap_start next) layout.align + layout.size) % 2 ^ 64)
                    ≡ align_up (base_of heap_start next) layout.align + layout.size =
                  taken (align_up (base_of heap_start next) layout.align) layout.size
                    (omega (arith, above, ge)) (omega (arith, below, room)) l.0.0 in
                let whole : (align_up (base_of heap_start next) layout.align + layout.size) % 2 ^ 64
                    ≡ align_up (base_of heap_start next) layout.align + layout.size =
                  omega (arith, below, room, l.0.0) in
                let inside : align_up (base_of heap_start next) layout.align + layout.size
                    ≤ heap_start + heap_size =
                  ground (arith, fits, whole) in
                rw (placed, fits)
                  (
                    above,
                    inside,
                    al,
                    subst
                        (λ x. ArePacked x (heap_start + heap_size) layouts (
                          run heap_start
                            ((align_up (base_of heap_start next) layout.align + layout.size)
                              % 2 ^ 64)
                            layouts))
                        value
                        (run-at
                          ((align_up (base_of heap_start next) layout.align + layout.size) % 2 ^ 64)
                          layouts l.1 (omega (arith, value, above, ge))
                          (omega (arith, whole, inside))),
                  )
          ]

-- Whatever blocks a program asks for, one after the other, from its start on: each one that it gets is
-- aligned, and they lie behind one another in the heap, so that no two share a byte. The sizes are below
-- 2 ^ 63, as Rust promises, the alignments powers of two up to 2 ^ 60.
pub run-ArePacked :
    (heap_start : ℕ) (layouts : List Layout)
    → is_misplaced heap_start ≡ false
    → All IsLayout layouts
    → ArePacked heap_start (heap_start + heap_size) layouts (run heap_start 0 layouts)
run-ArePacked heap_start layouts placed l =
    run-at heap_start placed 0 layouts l (omega arith) (omega arith)
