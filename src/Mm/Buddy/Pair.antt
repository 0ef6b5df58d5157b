-- ===== src/Mm/Buddy/Pair.antt =====
-- Buddies: the address of a block with one bit flipped, and the block of twice the size.
use pindos.Base.{
  ℕ, zero, suc, ◌+◌, ◌-◌, ◌*◌, ◌/◌, ◌%◌, ◌^◌, min, ◌≡◌, refl, ◌⊎◌, inl, inr, arith, bit_xor, ap,
  ◌∙◌,
}
use pindos.Base.Bits.{bit_xor_split, bit_xor_one}
use native.Mathlib.Nat.{pow-suc, one-le-pow, div-add-mod, add_comm, mul-mod_left}
use native.Mathlib.Decide.{ℕ_discrete}
use pindos.Mm.Buddy.{block_size}
use pindos.Mm.Buddy.Cover.{within, block_size-suc}

-- A block of order `k` has its size in bit `k + 12`.
block_size-eq-pow : (e k : ℕ) → e ≡ 12 + k → block_size k ≡ 2 ^ e
unfolding block_size
block_size-eq-pow e zero h = let e' : e ≡ 12 = omega arith in rw e' (omega arith)
block_size-eq-pow zero (suc k) h = absurd (omega arith)
block_size-eq-pow (suc e) (suc k) h =
    omega (arith, pow-suc 2 e, pow-suc 2 k, block_size-eq-pow e k (omega arith))

bit_xor-block_size :
    (k m : ℕ) → bit_xor (m * block_size k) (block_size k) ≡ (m + 1 - 2 * (m % 2)) * block_size k
bit_xor-block_size k m = rw (block_size-eq-pow (12 + k) k refl) (
    ground
      (arith, bit_xor_split (12 + k) m 1 0 (one-le-pow (12 + k) 2 (omega arith)), bit_xor_one m))

module _ (k n a : ℕ) where
  pair_even :
      a ≡ 2 * n * block_size k
      → (a ≡ n * (2 * block_size k))
        × (bit_xor a (block_size k) ≡ n * (2 * block_size k) + block_size k)
  pair_even e =
      let flip : 2 * n + 1 - 2 * (2 * n % 2) ≡ 2 * n + 1 = omega arith in
      (
        omega arith,
        rw e (omega (arith, bit_xor-block_size k (2 * n), ap (λ (t : ℕ). t * block_size k) flip)),
      )

  pair_odd :
      a ≡ (2 * n + 1) * block_size k
      → (a ≡ n * (2 * block_size k) + block_size k)
        × (bit_xor a (block_size k) ≡ n * (2 * block_size k))
  pair_odd e =
      let flip : 2 * n + 1 + 1 - 2 * ((2 * n + 1) % 2) ≡ 2 * n = omega arith in
      (
        omega arith,
        rw e (
            omega (arith, bit_xor-block_size k (2 * n + 1), ap (λ (t : ℕ). t * block_size k) flip)),
      )

-- The two blocks of a pair, in either order.
pub pair_cases :
    (k a : ℕ)
    → a % block_size k ≡ 0
    → (n : ℕ) × ((a ≡ n * (2 * block_size k))
          × (bit_xor a (block_size k) ≡ n * (2 * block_size k) + block_size k)
        ⊎ (a ≡ n * (2 * block_size k) + block_size k)
          × (bit_xor a (block_size k) ≡ n * (2 * block_size k)))
pair_cases k a h = elim (ℕ_discrete (a / block_size k % 2) 0) [
  | yes e ↦
      (a / block_size k / 2, inl (pair_even k (a / block_size k / 2) a (split _ (omega arith))))
  | no e ↦ (a / block_size k / 2, inr (pair_odd k (a / block_size k / 2) a (split _ (omega arith))))
]
  where
    split : (m : ℕ) → a / block_size k ≡ m → a ≡ m * block_size k
    split m e = rw (← e) (omega (arith, div-add-mod a (block_size k)))

pub within-pair :
    (size a p : ℕ) → within (2 * size) a p ≡ within size a p + within size (a + size) p
within-pair size a p = ground arith

-- What merging a block with its buddy gives.
pub record Pair (k a b : ℕ) : Type 0 where
  pub aligned_lower : min a b % block_size (suc k) ≡ 0
  pub upper : (min a b + block_size k ≡ a) ⊎ (min a b + block_size k ≡ b)
  pub joined :
      (p : ℕ)
      → within (block_size (suc k)) (min a b) p
        ≡ within (block_size k) a p + within (block_size k) b p

Pair-at :
    (k lo a b : ℕ)
    → lo % block_size (suc k) ≡ 0
    → ((a ≡ lo) × (b ≡ lo + block_size k)) ⊎ ((a ≡ lo + block_size k) × (b ≡ lo))
    → Pair k a b
Pair-at k lo a b al sides = record {
  aligned_lower = rw lower al;
  upper = ground (arith, sides, lower);
  joined = λ p. rw (lower, block_size-suc k) (within-pair (block_size k) lo p ∙ halves p);
}
  where
    lower : min a b ≡ lo
    lower = omega (arith, sides)

    halves :
        (p : ℕ)
        → within (block_size k) lo p + within (block_size k) (lo + block_size k) p
          ≡ within (block_size k) a p + within (block_size k) b p
    halves p = elim sides [ inl (e, f) ↦ rw (e, f) | inr (e, f) ↦ rw (e, f) (add_comm _ _) ]

pub pair_lem : (k a : ℕ) → a % block_size k ≡ 0 → Pair k a (bit_xor a (block_size k))
pair_lem k a h =
    let (n, sides) = pair_cases k a h in
    Pair-at k (n * (2 * block_size k)) a (bit_xor a (block_size k))
      (rw (block_size-suc k) (mul-mod_left n (2 * block_size k))) sides
