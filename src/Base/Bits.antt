-- ===== src/Base/Bits.antt =====
-- The bit operations as arithmetic, at every width: one binary digit at a time.
use Prim.Native.Nat.{
  ℕ, zero, suc, ◌+◌, ◌-◌, ◌*◌, ◌/◌, ◌%◌, ◌^◌, ◌≤◌, ◌<◌, min, max, digits, bit_and, bit_or, bit_xor,
  bitwise, differ, bit_and-bitwise, bit_or-bitwise, bit_xor-bitwise,
}
use mathlib.Core.Path.{◌≡◌, refl, ap, sym, ◌∙◌}
use native.Mathlib.Nat.{pow-suc, one-le-pow}
use native.Mathlib.Omega.{arith}

module _ (z : ℕ → ℕ) (f : ℕ → ℕ → ℕ) where
  -- Fuel beyond the first operand changes nothing.
  digits_enough : (n m a b : ℕ) → a ≤ n → a ≤ m → digits z f n a b ≡ digits z f m a b
  digits_enough zero zero a b p q = refl
  digits_enough zero (suc m) zero b p q = refl
  digits_enough zero (suc m) (suc a) b p q = absurd (omega arith)
  digits_enough (suc n) zero zero b p q = refl
  digits_enough (suc n) zero (suc a) b p q = absurd (omega arith)
  digits_enough (suc n) (suc m) zero b p q = refl
  digits_enough (suc n) (suc m) (suc a) b p q =
      rw (digits_enough n m (suc a / 2) (b / 2) (omega arith) (omega arith))

module _ (z : ℕ → ℕ) (f : ℕ → ℕ → ℕ) where
  bitwise_digit :
      (a b : ℕ)
      → bitwise z f (suc a) b ≡ bitwise z f (suc a / 2) (b / 2) * 2 + f (suc a % 2) (b % 2)
  bitwise_digit a b =
      omega (arith, digits_enough z f a (suc a / 2) (suc a / 2) (b / 2) (omega arith) (omega arith))

pub bit_xor_digit : (a b : ℕ) → bit_xor a b ≡ bit_xor (a / 2) (b / 2) * 2 + differ (a % 2) (b % 2)
bit_xor_digit zero b = simp bit_xor-bitwise (omega arith)
bit_xor_digit (suc a) b = simp bit_xor-bitwise (bitwise_digit (λ y. y) differ a b)

pub bit_or_digit : (a b : ℕ) → bit_or a b ≡ bit_or (a / 2) (b / 2) * 2 + max (a % 2) (b % 2)
bit_or_digit zero b = simp bit_or-bitwise (omega arith)
bit_or_digit (suc a) b = simp bit_or-bitwise (bitwise_digit (λ y. y) max a b)

pub bit_and_digit : (a b : ℕ) → bit_and a b ≡ bit_and (a / 2) (b / 2) * 2 + min (a % 2) (b % 2)
bit_and_digit zero b = simp bit_and-bitwise (omega arith)
bit_and_digit (suc a) b = simp bit_and-bitwise (bitwise_digit (λ y. 0) min a b)

-- The exclusive or of two binary digits.
differ-digit : (x y : ℕ) → x < 2 → y < 2 → differ x y ≡ (x + y) % 2
differ-digit zero y hx hy = omega arith
differ-digit (suc zero) zero hx hy = refl
differ-digit (suc zero) (suc zero) hx hy = refl
differ-digit (suc zero) (suc (suc y)) hx hy = absurd (omega arith)
differ-digit (suc (suc x)) y hx hy = absurd (omega arith)

bit_xor_low : (a b : ℕ) → bit_xor a b ≡ bit_xor (a / 2) (b / 2) * 2 + (a % 2 + b % 2) % 2
bit_xor_low a b =
    omega (arith, bit_xor_digit a b, differ-digit (a % 2) (b % 2) (omega arith) (omega arith))

pub bit_xor-zero : (n a : ℕ) → a ≤ n → bit_xor a 0 ≡ a
bit_xor-zero n zero h = refl
bit_xor-zero zero (suc a) h = absurd (omega arith)
bit_xor-zero (suc n) (suc a) h =
    omega (arith, bit_xor_low (suc a) 0, bit_xor-zero n (suc a / 2) (omega arith))

pub bit_or-zero : (n a : ℕ) → a ≤ n → bit_or a 0 ≡ a
bit_or-zero n zero h = refl
bit_or-zero zero (suc a) h = absurd (omega arith)
bit_or-zero (suc n) (suc a) h =
    omega (arith, bit_or_digit (suc a) 0, bit_or-zero n (suc a / 2) (omega arith))

pub bit_or_zero_left : (b : ℕ) → bit_or 0 b ≡ b
bit_or_zero_left b = simp bit_or-bitwise refl

pub bit_and-zero : (n a : ℕ) → a ≤ n → bit_and a 0 ≡ 0
bit_and-zero n zero h = refl
bit_and-zero zero (suc a) h = absurd (omega arith)
bit_and-zero (suc n) (suc a) h =
    omega (arith, bit_and_digit (suc a) 0, bit_and-zero n (suc a / 2) (omega arith))

-- `2 ^ k` is doubled at the next width.
double_pow : (q k : ℕ) → q * 2 ^ suc k ≡ 2 * (q * 2 ^ k)
double_pow q k = omega (arith, ap (λ (t : ℕ). q * t) (pow-suc 2 k))

-- Two numbers split at bit `k`.
pub bit_or_split :
    (k p q r : ℕ) → r < 2 ^ k → bit_or (p * 2 ^ k) (q * 2 ^ k + r) ≡ bit_or p q * 2 ^ k + r
bit_or_split zero p q r h = ground (arith)
bit_or_split (suc k) p q r h = ground (
  arith,
  bit_or_digit (p * 2 ^ suc k) (q * 2 ^ suc k + r),
  double_pow p k,
  double_pow q k,
  double_pow (bit_or p q) k,
  pow-suc 2 k,
  bit_or_split k p q (r / 2) (omega (arith, pow-suc 2 k)),
)

pub bit_and_split :
    (k p q r : ℕ) → r < 2 ^ k → bit_and (p * 2 ^ k + r) (q * 2 ^ k) ≡ bit_and p q * 2 ^ k
bit_and_split zero p q r h = ground (arith)
bit_and_split (suc k) p q r h = ground (
  arith,
  bit_and_digit (p * 2 ^ suc k + r) (q * 2 ^ suc k),
  double_pow p k,
  double_pow q k,
  double_pow (bit_and p q) k,
  pow-suc 2 k,
  bit_and_split k p q (r / 2) (omega (arith, pow-suc 2 k)),
)

pub bit_xor_split :
    (k p q r : ℕ) → r < 2 ^ k → bit_xor (p * 2 ^ k + r) (q * 2 ^ k) ≡ bit_xor p q * 2 ^ k + r
bit_xor_split zero p q r h = ground (arith)
bit_xor_split (suc k) p q r h = ground (
  arith,
  bit_xor_low (p * 2 ^ suc k + r) (q * 2 ^ suc k),
  double_pow p k,
  double_pow q k,
  double_pow (bit_xor p q) k,
  pow-suc 2 k,
  bit_xor_split k p q (r / 2) (omega (arith, pow-suc 2 k)),
)

-- The low bits of the left operand stand beside a right operand without any.
pub bit_or_split_left :
    (k p q r : ℕ) → r < 2 ^ k → bit_or (p * 2 ^ k + r) (q * 2 ^ k) ≡ bit_or p q * 2 ^ k + r
bit_or_split_left zero p q r h = ground (arith)
bit_or_split_left (suc k) p q r h = ground (
  arith,
  bit_or_digit (p * 2 ^ suc k + r) (q * 2 ^ suc k),
  double_pow p k,
  double_pow q k,
  double_pow (bit_or p q) k,
  pow-suc 2 k,
  bit_or_split_left k p q (r / 2) (omega (arith, pow-suc 2 k)),
)

-- A mask that has all low bits keeps them.
pub bit_and_split_low :
    (k p q r : ℕ)
    → r < 2 ^ k
    → bit_and (p * 2 ^ k + r) (q * 2 ^ k + (2 ^ k - 1)) ≡ bit_and p q * 2 ^ k + r
bit_and_split_low zero p q r h = ground (arith)
bit_and_split_low (suc k) p q r h = ground (
  arith,
  bit_and_digit (p * 2 ^ suc k + r) (q * 2 ^ suc k + (2 ^ suc k - 1)),
  double_pow p k,
  double_pow q k,
  double_pow (bit_and p q) k,
  pow-suc 2 k,
  one-le-pow k 2,
  bit_and_split_low k p q (r / 2) (omega (arith, pow-suc 2 k)),
)

-- Flipping the lowest bit.
pub bit_xor_one : (p : ℕ) → bit_xor p 1 ≡ p + 1 - 2 * (p % 2)
bit_xor_one p = omega (arith, bit_xor_low p 1, bit_xor-zero (p / 2) (p / 2) (omega arith))

pub bit_or_one : (p : ℕ) → bit_or p 1 ≡ p + 1 - p % 2
bit_or_one p = omega (arith, bit_or_digit p 1, bit_or-zero (p / 2) (p / 2) (omega arith))

mask_fields : (k q r : ℕ) → r < 2 ^ k → bit_and (q * 2 ^ k + r) (2 ^ k - 1) ≡ r
mask_fields zero q r h = omega (arith, bit_and-zero (q * 1 + r) (q * 1 + r) (omega arith))
mask_fields (suc k) q r h = ground (
  arith,
  bit_and_digit (q * 2 ^ suc k + r) (2 ^ suc k - 1),
  double_pow q k,
  pow-suc 2 k,
  one-le-pow k 2,
  mask_fields k q (r / 2) (omega (arith, pow-suc 2 k)),
)

-- The mask of the `k` low bits is a remainder.
pub bit_and_low : (k a : ℕ) → bit_and a (2 ^ k - 1) ≡ a % 2 ^ k
bit_and_low k a = ground (arith, one-le-pow k 2, mask_fields k (a / 2 ^ k) (a % 2 ^ k))

-- The mask of the bits from `k` to `k + w` rounds down to a multiple of `2 ^ k`.
pub bit_and_high : (k w a : ℕ) → bit_and a ((2 ^ w - 1) * 2 ^ k) ≡ ((a / 2 ^ k) % 2 ^ w) * 2 ^ k
bit_and_high k w a = ground (
  arith,
  one-le-pow k 2,
  bit_and_split k (a / 2 ^ k) (2 ^ w - 1) (a % 2 ^ k),
  bit_and_low w (a / 2 ^ k),
)

pub pow-add : (n k : ℕ) → 2 ^ (n + k) ≡ 2 ^ n * 2 ^ k
pow-add zero k = let e : 0 + k ≡ k = omega arith in rw e (omega arith)
pow-add (suc n) k =
    let e : suc n + k ≡ suc (n + k) = omega arith in
    rw e (
      omega (
        arith,
        pow-suc 2 (n + k),
        pow-suc 2 n,
        pow-add n k,
        ap (λ (x : ℕ). x * 2 ^ k) (pow-suc 2 n),
      ))

-- Where the bits do not meet, the union is the sum.
pub bit_or_add : (k p r : ℕ) → r < 2 ^ k → bit_or (p * 2 ^ k) r ≡ p * 2 ^ k + r
bit_or_add k p r h =
    let e : 0 * 2 ^ k + r ≡ r = omega arith in
    ap (bit_or (p * 2 ^ k)) (sym e)
    ∙ bit_or_split k p 0 r h
    ∙ ap (λ (x : ℕ). x * 2 ^ k + r) (bit_or-zero p p (omega arith))
