-- ===== src/Base/Sets.antt =====
-- Numbers as sets of bits: a set of flags within a mask stays there.
use Prim.Native.Nat.{ℕ, zero, suc, ◌+◌, ◌-◌, ◌/◌, ◌%◌, ◌≤◌, bit_and, bit_or, bit_and-bitwise}
use mathlib.Core.Path.{◌≡◌, refl, ap, sym, ◌∙◌}
use native.Mathlib.Omega.{arith}
use pindos.Base.Bits.{bit_and_digit, bit_or_digit, bit_or_zero_left}

half_or : (a b : ℕ) → bit_or a b / 2 ≡ bit_or (a / 2) (b / 2)
half_or a b = omega (arith, bit_or_digit a b)

half_and : (a b : ℕ) → bit_and a b / 2 ≡ bit_and (a / 2) (b / 2)
half_and a b = omega (arith, bit_and_digit a b)

-- A number within a mask, a digit at a time.
abbrev IsWithin : ℕ → ℕ → Type 0
IsWithin a c = bit_and a c ≡ a

half-IsWithin : (a c : ℕ) → IsWithin a c → IsWithin (a / 2) (c / 2)
half-IsWithin a c h = sym (half_and a c) ∙ ap (λ (x : ℕ). x / 2) h

bit-IsWithin : (a c : ℕ) → IsWithin a c → a % 2 ≤ c % 2
bit-IsWithin a c h = omega (arith, bit_and_digit a c, h)

IsWithin-of_half : (a c : ℕ) → IsWithin (a / 2) (c / 2) → a % 2 ≤ c % 2 → IsWithin a c
IsWithin-of_half a c h low = omega (arith, bit_and_digit a c, h, low)

pub bit_or-IsWithin :
    (n a b c : ℕ) → a + b ≤ n → IsWithin a c → IsWithin b c → IsWithin (bit_or a b) c
bit_or-IsWithin zero zero b c h p q = rw (bit_or_zero_left b) q
bit_or-IsWithin zero (suc a) b c h p q = absurd (omega (arith, h))
bit_or-IsWithin (suc n) a b c h p q =
    IsWithin-of_half (bit_or a b) c
      (rw (half_or a b) (
        bit_or-IsWithin n (a / 2) (b / 2) (c / 2) (omega (arith, h)) (half-IsWithin a c p)
          (half-IsWithin b c q)))
      (omega (arith, bit_or_digit a b, bit-IsWithin a c p, bit-IsWithin b c q))

bit_and-zero_left : (b : ℕ) → bit_and 0 b ≡ 0
bit_and-zero_left b = simp bit_and-bitwise refl

bit_and-le : (n a b : ℕ) → a ≤ n → bit_and a b ≤ a
bit_and-le n zero b h = omega (arith, bit_and-zero_left b)
bit_and-le zero (suc a) b h = absurd (omega (arith, h))
bit_and-le (suc n) (suc a) b h =
    omega (arith, bit_and_digit (suc a) b, bit_and-le n (suc a / 2) (b / 2) (omega (arith, h)))

half_less : (a b : ℕ) → (a - bit_and a b) / 2 ≡ a / 2 - bit_and (a / 2) (b / 2)
half_less a b = omega (arith, bit_and_digit a b, bit_and-le (a / 2) (a / 2) (b / 2) (omega arith))

pub less-IsWithin : (n a b c : ℕ) → a ≤ n → IsWithin a c → IsWithin (a - bit_and a b) c
less-IsWithin n zero b c h p =
    let none_left : 0 - bit_and 0 b ≡ 0 = omega arith in
    rw none_left (omega (arith, bit_and_digit 0 c, bit_and-zero_left (c / 2)))
less-IsWithin zero (suc a) b c h p = absurd (omega (arith, h))
less-IsWithin (suc n) (suc a) b c h p =
    IsWithin-of_half (suc a - bit_and (suc a) b) c
      (rw (half_less (suc a) b) (
        less-IsWithin n (suc a / 2) (b / 2) (c / 2) (omega (arith, h)) (half-IsWithin (suc a) c p)))
      (omega (
        arith,
        bit_and_digit (suc a) b,
        bit_and-le (suc a / 2) (suc a / 2) (b / 2) (omega arith),
        bit-IsWithin (suc a) c p,
      ))
