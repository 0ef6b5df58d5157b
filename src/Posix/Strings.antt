-- ===== src/Posix/Strings.antt =====
-- The string functions against the strings that the memory holds.
use pindos.Base.{
  ℕ, zero, suc, ◌+◌, ◌<◌, ◌≡◌, refl, ◌≢◌, true, false, ◌||◌, ◌&&◌, some, arith, ℤ, pos, ltb, leb,
  ◌==◌, if◌then◌else◌, update, Bool-cases, inl, inr, ◌⊎◌, ap, sym, ◌∙◌, ◌%◌,
}
use mathlib.Core.Path.{subst}
use pindos.Posix.{State, strlen, strlen_loop, strcmp, strcmp_loop, memset, memset_loop, difference}

-- A string of `n` characters starts at `ptr`.
pub record IsString (memory : ℕ → ℕ) (ptr n : ℕ) : Type 0 where
  pub inside : (i : ℕ) → i < n → memory (ptr + i) ≢ 0
  pub end : memory (ptr + n) ≡ 0

here : (p : ℕ) → p ≡ p + 0
here p = omega arith

shift : (p i : ℕ) → p + suc i ≡ p + 1 + i
shift p i = omega arith

module _ (memory : ℕ → ℕ) where
  tail_of : (ptr n : ℕ) → IsString memory ptr (suc n) → IsString memory (ptr + 1) n
  tail_of ptr n s = record {
    inside = λ i h e. s.inside (suc i) (omega arith) (ap memory (omega arith) ∙ e);
    end = ap memory (omega arith) ∙ s.end;
  }

  strlen_loop-lem :
      (fuel ptr len n : ℕ)
      → n < fuel
      → IsString memory ptr n
      → strlen_loop fuel memory ptr len ≡ some (len + n)
  unfolding strlen_loop
  strlen_loop-lem zero ptr len n h s = absurd (omega arith)
  strlen_loop-lem (suc fuel) ptr len zero h s =
      let ended : memory ptr ≡ 0 = ap memory (here ptr) ∙ s.end in
      let stop : (memory ptr == 0) ≡ true = ground (arith, ended) in rw stop (ap some (here len))
  strlen_loop-lem (suc fuel) ptr len (suc n) h s =
      let more : memory ptr ≢ 0 = λ e. s.inside 0 (omega arith) (ap memory (sym (here ptr)) ∙ e) in
      let go : (memory ptr == 0) ≡ false = ground (arith, more) in
      let total : len + 1 + n ≡ len + suc n = omega arith in
      rw go
        (strlen_loop-lem fuel (ptr + 1) (len + 1) n (omega arith) (tail_of ptr n s) ∙ ap some total)

  -- The strings are equal, or `i` is the first position where they differ.
  abbrev pub Compared : ℕ → ℕ → ℕ → ℕ → ℤ → Type 0
  Compared a b n m r =
      ((r ≡ pos 0) × (n ≡ m) × ((i : ℕ) → i < n → memory (a + i) ≡ memory (b + i)))
      ⊎ ((i : ℕ) × (r ≡ difference (memory (a + i)) (memory (b + i)))
          × (memory (a + i) ≢ memory (b + i))
          × ((j : ℕ) → j < i → memory (a + j) ≡ memory (b + j)))

  first_or_more :
      (a b i : ℕ)
      → memory a ≡ memory b
      → ((j : ℕ) → j < i → memory (a + 1 + j) ≡ memory (b + 1 + j))
      → (j : ℕ) → j < suc i
      → memory (a + j) ≡ memory (b + j)
  first_or_more a b i e f zero h = ap memory (sym (here a)) ∙ e ∙ ap memory (here b)
  first_or_more a b i e f (suc j) h =
      ap memory (shift a j) ∙ f j (omega arith) ∙ ap memory (sym (shift b j))

  Compared-next :
      (a b n m : ℕ) (r : ℤ)
      → memory a ≡ memory b
      → Compared (a + 1) (b + 1) n m r
      → Compared a b (suc n) (suc m) r
  Compared-next a b n m r e (inl (zero_result, same, equal)) =
      inl (zero_result, ap suc same, first_or_more a b n e equal)
  Compared-next a b n m r e (inr (i, result, differ, equal)) = inr (
    suc i,
    result ∙ (λ k. difference (memory (sym (shift a i) k)) (memory (sym (shift b i) k))),
    (λ same. differ (ap memory (sym (shift a i)) ∙ same ∙ ap memory (shift b i))),
    first_or_more a b i e equal,
  )

  -- At the end of a string stands a zero, and nowhere before.
  starts_zero : (p n : ℕ) → IsString memory p n → memory p ≡ 0 → n ≡ 0
  starts_zero p zero s e = refl
  starts_zero p (suc n) s e = absurd (s.inside 0 (omega arith) (ap memory (sym (here p)) ∙ e))

  starts_other :
      (p n : ℕ)
      → IsString memory p n
      → memory p ≢ 0
      → (k : ℕ) × (n ≡ suc k) × IsString memory (p + 1) k
  starts_other p zero s e = absurd (e (ap memory (here p) ∙ s.end))
  starts_other p (suc n) s e = (n, refl, tail_of p n s)

  strcmp_loop-Compared :
      (fuel a b n m : ℕ)
      → n < fuel
      → IsString memory a n
      → IsString memory b m
      → (r : ℤ) × (strcmp_loop fuel memory a b ≡ some r) × Compared a b n m r
  unfolding strcmp_loop
  strcmp_loop-Compared zero a b n m h s t = absurd (omega arith)
  strcmp_loop-Compared (suc fuel) a b n m h s t = elim (Bool-cases (memory a == memory b)) [
    | inr differ ↦
        let apart : memory a ≢ memory b = λ e. absurd (ground (arith, differ, e)) in
        (
          difference (memory a) (memory b),
          rw differ refl,
          inr (
            0,
            (λ k. difference (memory (here a k)) (memory (here b k))),
            (λ e. apart (ap memory (here a) ∙ e ∙ ap memory (sym (here b)))),
            λ j bad. absurd (omega arith),
          ),
        )
    | inl equal ↦
        let same : memory a ≡ memory b = ground (arith, equal) in
        elim (Bool-cases (memory a == 0)) [
          | inl ended ↦
              let stop : memory a ≡ 0 = ground (arith, ended) in
              let n_zero : n ≡ 0 = starts_zero a n s stop in
              (
                pos 0,
                rw (equal, ended) refl,
                inl (
                  refl,
                  n_zero ∙ sym (starts_zero b m t (sym same ∙ stop)),
                  λ i bad. absurd (omega (arith, n_zero)),
                ),
              )
          | inr more ↦
              let go : memory a ≢ 0 = λ e. absurd (ground (arith, more, e)) in
              let (n', n_suc, s') = starts_other a n s go in
              let (m', m_suc, t') = starts_other b m t (λ e. go (same ∙ e)) in
              let (r, run, compared) =
                strcmp_loop-Compared fuel (a + 1) (b + 1) n' m' (omega (arith, n_suc)) s' t' in
              (
                r,
                rw (equal, more) run,
                subst (λ x. Compared a b x m r) (sym n_suc)
                    (subst (λ y. Compared a b (suc n') y r) (sym m_suc)
                      (Compared-next a b n' m' r same compared)),
              )
        ]
  ]

memset_loop-lem :
    (n : ℕ) (mem : ℕ → ℕ) (ptr byte p : ℕ)
    → memset_loop n mem ptr byte p ≡ (if leb ptr p && ltb p (ptr + n) then byte else mem p)
unfolding memset_loop
memset_loop-lem zero mem ptr byte p = ground arith
memset_loop-lem (suc n) mem ptr byte p =
    memset_loop-lem n (update mem ptr byte) (ptr + 1) byte p ∙ ground arith

-- `strlen` of a string that the memory holds at an address other than null returns its length, with
-- one round of fuel for every character and the terminating zero.
pub strlen-IsString :
    (fuel : ℕ) (s : State) (ptr n : ℕ)
    → n < fuel
    → ptr ≢ 0
    → IsString s.memory ptr n
    → strlen fuel s ptr ≡ some n
unfolding strlen
strlen-IsString fuel s ptr n h p str =
    let not_null : (ptr == 0) ≡ false = ground (arith, p) in
    let total : 0 + n ≡ n = omega arith in
    rw not_null (strlen_loop-lem s.memory fuel ptr 0 n h str ∙ ap some total)

-- `strcmp` of two strings returns, with one round of fuel for every character of the first and its
-- zero: 0 where the strings are equal, and otherwise the difference of the first characters that
-- differ.
pub strcmp-Compared :
    (fuel : ℕ) (s : State) (a b n m : ℕ)
    → n < fuel
    → a ≢ 0
    → b ≢ 0
    → IsString s.memory a n
    → IsString s.memory b m
    → (r : ℤ) × (strcmp fuel s a b ≡ some r) × Compared s.memory a b n m r
unfolding strcmp
strcmp-Compared fuel s a b n m h p q str str' =
    let not_null : ((a == 0) || (b == 0)) ≡ false = ground (arith, p, q) in
    let (r, run, compared) = strcmp_loop-Compared s.memory fuel a b n m h str str' in
    (r, rw not_null run, compared)

-- `memset` at an address other than null writes exactly the `n` bytes from it on.
pub memset_lem :
    (s : State) (ptr c n p : ℕ)
    → ptr ≢ 0
    → (memset s ptr c n).1.memory p ≡ (if leb ptr p && ltb p (ptr + n) then c % 256 else s.memory p)
unfolding memset
memset_lem s ptr c n p h =
    let not_null : (ptr == 0) ≡ false = ground (arith, h) in
    rw not_null (memset_loop-lem n s.memory ptr (c % 256) p)
