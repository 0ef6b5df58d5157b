-- ===== src/Mm/Buddy/Cover.antt =====
-- Sums over the free lists of all orders, and how one list's change moves them.
use native.Mathlib.Decide.{ℕ_discrete}
use native.Mathlib.Nat.{pow-suc, one-le-pow}
use pindos.Mm.Buddy.{block_size, max_order, page_size}
use pindos.Base.{
  ℕ, zero, suc, ◌+◌, ◌*◌, ◌^◌, ◌≤◌, ◌<◌, ◌≡◌, refl, ◌≢◌, List, [], ◌∷◌, arith, length, bit, ltb,
  leb, ◌==◌, ◌&&◌, update,
}

abbrev pub FreeLists : Type 0
FreeLists = ℕ → List ℕ

-- The sum over the first `n` orders of a measure of each list.
pub total : (ℕ → List ℕ → ℕ) → ℕ → FreeLists → ℕ
total g zero fl = 0
total g (suc n) fl = total g n fl + g n (fl n)

module _ (g : ℕ → List ℕ → ℕ) where
  total_above :
      (n k : ℕ) (fl : FreeLists) (xs : List ℕ) → n ≤ k → total g n (update fl k xs) ≡ total g n fl
  unfolding total
  total_above zero k fl xs h = refl
  total_above (suc n) k fl xs h = ground (arith, total_above n k fl xs (omega arith))

  pub total-update :
      (n k : ℕ) (fl : FreeLists) (xs : List ℕ)
      → k < n
      → total g n (update fl k xs) + g k (fl k) ≡ total g n fl + g k xs
  unfolding total
  total-update zero k fl xs h = elim h [ ]
  total-update (suc n) k fl xs h = ground (arith, total_above n k fl xs, total-update n k fl xs)

  pub le-total : (n k : ℕ) (fl : FreeLists) → k < n → g k (fl k) ≤ total g n fl
  unfolding total
  le-total zero k fl h = elim h [ ]
  le-total (suc n) k fl h = grind (arith, le-total n k fl)

  -- Two lists of different orders count separately.
  pub add-le-total :
      (n j k : ℕ) (fl : FreeLists) → j < n → k < n → j ≢ k → g j (fl j) + g k (fl k) ≤ total g n fl
  unfolding total
  add-le-total zero j k fl hj hk d = elim hj [ ]
  add-le-total (suc n) j k fl hj hk d = elim (ℕ_discrete j n) [
    | yes e ↦ rw e (omega (arith, le-total n k fl (omega arith)))
    | no ne ↦ elim (ℕ_discrete k n) [
      | yes e ↦ rw e (omega (arith, le-total n j fl (omega arith)))
      | no ne' ↦ omega (arith, add-le-total n j k fl (omega arith) (omega arith) d)
    ]
  ]

-- Does the block of a size at `a` contain the byte `p`?
abbrev pub within : ℕ → ℕ → ℕ → ℕ
within size a p = bit (leb a p && ltb p (a + size))

abbrev pub cover_list : ℕ → List ℕ → ℕ → ℕ
cover_list size [] p = 0
cover_list size (a ∷ xs) p = within size a p + cover_list size xs p

abbrev pub count : ℕ → List ℕ → ℕ
count x [] = 0
count x (a ∷ xs) = bit (a == x) + count x xs

pub count-le-cover_list : (size x : ℕ) (xs : List ℕ) → 0 < size → count x xs ≤ cover_list size xs x
count-le-cover_list size x [] h = omega arith
count-le-cover_list size x (a ∷ xs) h = ground (arith, count-le-cover_list size x xs h)

-- How many free blocks contain the byte `p`.
pub cover : FreeLists → ℕ → ℕ
cover fl p = total (λ k xs. cover_list (block_size k) xs p) max_order fl

-- How often `x` is the address of a free block.
pub occurs : FreeLists → ℕ → ℕ
occurs fl x = total (λ k xs. count x xs) max_order fl

-- How many pages the free blocks have.
pub frames : FreeLists → ℕ
frames fl = total (λ k xs. length xs * 2 ^ k) max_order fl

pub block_size-eq : (k : ℕ) → block_size k ≡ 2 ^ k * page_size
unfolding block_size
block_size-eq k = refl

pub block_size-pos : (k : ℕ) → 0 < block_size k
unfolding block_size
block_size-pos k = omega (arith, one-le-pow k 2)

pub block_size-suc : (k : ℕ) → block_size (suc k) ≡ 2 * block_size k
unfolding block_size
block_size-suc k = omega (arith, pow-suc 2 k)

total_mono :
    (g h : ℕ → List ℕ → ℕ) (n : ℕ) (fl : FreeLists)
    → ((k : ℕ) (xs : List ℕ) → g k xs ≤ h k xs)
    → total g n fl ≤ total h n fl
unfolding total
total_mono g h zero fl le = omega arith
total_mono g h (suc n) fl le = omega (arith, le n (fl n), total_mono g h n fl le)

-- A free block contains its own address.
pub occurs-le-cover : (fl : FreeLists) (x : ℕ) → occurs fl x ≤ cover fl x
unfolding occurs cover
occurs-le-cover fl x =
    total_mono (λ k xs. count x xs) (λ k xs. cover_list (block_size k) xs x) max_order fl
      (λ k xs. count-le-cover_list (block_size k) x xs (block_size-pos k))

module _ (fl : FreeLists) (k : ℕ) (xs : List ℕ) (h : k < max_order) where
  pub cover-update :
      (p : ℕ)
      → cover (update fl k xs) p + cover_list (block_size k) (fl k) p
        ≡ cover fl p + cover_list (block_size k) xs p
  unfolding cover
  cover-update p = total-update (λ k xs. cover_list (block_size k) xs p) max_order k fl xs h

  pub frames-update :
      frames (update fl k xs) + length (fl k) * 2 ^ k ≡ frames fl + length xs * 2 ^ k
  unfolding frames
  frames-update = total-update (λ k xs. length xs * 2 ^ k) max_order k fl xs h

pub count-le-occurs : (fl : FreeLists) (k x : ℕ) → k < max_order → count x (fl k) ≤ occurs fl x
unfolding occurs
count-le-occurs fl k x h = le-total (λ k xs. count x xs) max_order k fl h

pub count_apart :
    (fl : FreeLists) (j k x : ℕ)
    → j < max_order
    → k < max_order
    → j ≢ k
    → count x (fl j) + count x (fl k) ≤ occurs fl x
unfolding occurs
count_apart fl j k x = add-le-total (λ k xs. count x xs) max_order j k fl

le_mul : (n m : ℕ) → 1 ≤ m → n ≤ n * m
le_mul n m h = grind arith

-- A list is no longer than there are free pages.
pub length-le-frames : (fl : FreeLists) (k : ℕ) → k < max_order → length (fl k) ≤ frames fl
unfolding frames
length-le-frames fl k h = omega (
  arith,
  le-total (λ k xs. length xs * 2 ^ k) max_order k fl h,
  le_mul (length (fl k)) (2 ^ k) (one-le-pow k 2 (omega arith)),
)

pub cover-nil : (p : ℕ) → cover (λ _. []) p ≡ 0
unfolding cover total
cover-nil p = refl

pub frames-nil : frames (λ _. []) ≡ 0
unfolding frames total
frames-nil = refl
