-- ===== src/Io/Ring/Window.antt =====
-- The entries of a ring from its head on, as a list: a push at the tail appends to it.
use pindos.Base.{
  ℕ, zero, suc, ◌+◌, ◌-◌, ◌%◌, ◌≤◌, ◌<◌, ◌≡◌, refl, ◌≢◌, Option, some, List, [], ◌∷◌, ◌++◌, arith,
  length, get_elem?, set, get_elem?-set_ne, get_elem?-set_self, Bool-cases, inl, inr, ltb, ltb→lt,
  ap, sym, ◌∙◌,
}
use native.Mathlib.Nat.{suc-mod, mod-add-mod, mod-eq_of_lt, mod-eq-sub-mod, mod-lt}

-- Positions less than a lap apart have different indices.
mod_apart : (m a d : ℕ) → 0 < d → d < m → a % m ≢ (a + d) % m
mod_apart m a d lo hi same = elim (Bool-cases (ltb (a % m + d) m)) [
  | inl below ↦
      let e : (a % m + d) % m ≡ a % m + d = mod-eq_of_lt (ltb→lt (a % m + d) m below) in
      omega (arith, mod-add-mod a m d)
  | inr above ↦
      let bound : a % m < m = mod-lt a (omega arith) in
      let over : m ≤ a % m + d = ground (arith, above) in
      let e : (a % m + d) % m ≡ (a % m + d - m) % m = mod-eq-sub-mod over in
      let f : (a % m + d - m) % m ≡ a % m + d - m = mod-eq_of_lt (omega arith) in
      omega (arith, mod-add-mod a m d)
]

module _ {ℓ} {A : Type ℓ} (m : ℕ) where
  -- `n` entries from the position `from` on.
  abbrev pub window : List A → ℕ → ℕ → List (Option A)
  window slots from zero = []
  window slots from (suc n) = get_elem? slots (from % m) ∷ window slots (suc from) n

  -- Only the index of the position counts.
  pub window_mod :
      (slots : List A) (a b n : ℕ) → a % m ≡ b % m → window slots a n ≡ window slots b n
  window_mod slots a b zero e = refl
  window_mod slots a b (suc n) e =
      let next : suc a % m ≡ suc b % m = suc-mod a m ∙ ap (λ x. suc x % m) e ∙ sym (suc-mod b m) in
      rw (e, window_mod slots (suc a) (suc b) n next) refl

  -- A write at the window's end, or later in the lap, is outside it.
  window-set :
      (slots : List A) (v : A) (from n d : ℕ)
      → n ≤ d
      → d < m
      → window (set slots ((from + d) % m) v) from n ≡ window slots from n
  window-set slots v from zero d h hd = refl
  window-set slots v from (suc n) zero h hd = absurd (omega arith)
  window-set slots v from (suc n) (suc d) h hd =
      let here : get_elem? (set slots ((from + suc d) % m) v) (from % m)
          ≡ get_elem? slots (from % m) =
        get_elem?-set_ne slots ((from + suc d) % m) (from % m) v
          (λ e. mod_apart m from (suc d) (omega arith) hd (sym e)) in
      let rest : window (set slots ((suc from + d) % m) v) (suc from) n
          ≡ window slots (suc from) n =
        window-set slots v (suc from) n d (omega arith) (omega arith) in
      let shift : suc from + d ≡ from + suc d = omega arith in
      rw (here, ap (λ x. window (set slots (x % m) v) (suc from) n) (sym shift), rest) refl

  window_last :
      (slots : List A) (from n : ℕ)
      → window slots from (suc n) ≡ window slots from n ++ get_elem? slots ((from + n) % m) ∷ []
  window_last slots from zero = ap (λ (x : ℕ). get_elem? slots (x % m) ∷ []) (omega arith)
  window_last slots from (suc n) =
      let shift : suc from + n ≡ from + suc n = omega arith in
      rw (ap (λ (x : ℕ). x % m) (sym shift))
        (ap (λ l. get_elem? slots (from % m) ∷ l) (window_last slots (suc from) n))

  pub window_push :
      (slots : List A) (v : A) (from n : ℕ)
      → n < m
      → m ≤ length slots
      → window (set slots ((from + n) % m) v) from (suc n) ≡ window slots from n ++ some v ∷ []
  window_push slots v from n h room =
      let bound : (from + n) % m < m = mod-lt (from + n) (omega arith) in
      window_last (set slots ((from + n) % m) v) from n
      ∙ rw
          (
            get_elem?-set_self slots ((from + n) % m) v (omega arith),
            window-set slots v from n n (omega arith) h,
          )
          refl
