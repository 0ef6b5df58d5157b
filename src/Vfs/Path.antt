-- ===== src/Vfs/Path.antt =====
-- Normal paths: one leading slash, no doubled slash, no trailing slash; normalising twice is
-- normalising once.
use pindos.Base.{
  ℕ, suc, ◌≡◌, refl, Bool, true, false, List, [], ◌∷◌, ◌++◌, length, arith, ltb, ◌==◌, Bool-cases,
  inl, inr, ◌⊎◌, ap, sym, ◌∙◌,
}
use mathlib.Core.Path.{subst}
use mathlib.Core.List.{append_assoc, append-nil}
use pindos.Vfs.{slash, ends_with_slash, pop, normalize_loop, trim, root, normalize_path}

-- No slash follows a slash, `before` included.
abbrev pub IsSingle : Bool → List ℕ → Type 0
IsSingle before [] = Unit
IsSingle before (ch ∷ rest) = (before ≡ true → (ch == slash) ≡ false) × IsSingle (ch == slash) rest

pub record IsCanonical (path : List ℕ) : Type 0 where
  pub rest : List ℕ
  pub rooted : path ≡ slash ∷ rest
  pub single : IsSingle true rest
  pub trimmed : (rest ≡ []) ⊎ (ends_with_slash true rest ≡ false)

IsSingle-append :
    (before : Bool) (l : List ℕ) (ch : ℕ)
    → IsSingle before l
    → (ends_with_slash before l ≡ true → (ch == slash) ≡ false)
    → IsSingle before (l ++ ch ∷ [])
IsSingle-append before [] ch s h = (h, tt)
IsSingle-append before (c ∷ rest) ch s h = (s.0, IsSingle-append (c == slash) rest ch s.1 h)

ends-append :
    (before : Bool) (l : List ℕ) (ch : ℕ) → ends_with_slash before (l ++ ch ∷ []) ≡ (ch == slash)
ends-append before [] ch = refl
ends-append before (c ∷ rest) ch = ends-append (c == slash) rest ch

-- The loop keeps the path single.
normalize_loop-IsSingle :
    (acc : List ℕ) (prev : Bool) (path : List ℕ)
    → IsSingle false acc
    → ends_with_slash false acc ≡ prev
    → IsSingle false (normalize_loop acc prev path)
unfolding normalize_loop
normalize_loop-IsSingle acc prev [] s e = s
normalize_loop-IsSingle [] true (ch ∷ rest) s e = absurd (cc)
normalize_loop-IsSingle (a ∷ acc) true (ch ∷ rest) s e = elim (Bool-cases (ch == slash)) [
  | inl here ↦ rw here (normalize_loop-IsSingle (a ∷ acc) true rest s e)
  | inr other ↦ rw other (
      normalize_loop-IsSingle (a ∷ acc ++ ch ∷ []) false rest
        (IsSingle-append false (a ∷ acc) ch s (λ _. other))
        (ends-append false (a ∷ acc) ch ∙ other))
]
normalize_loop-IsSingle acc false (ch ∷ rest) s e = elim (Bool-cases (ch == slash)) [
  | inl here ↦ rw here (
      normalize_loop-IsSingle (acc ++ ch ∷ []) true rest
        (IsSingle-append false acc ch s (λ h. absurd (cc (h, e))))
        (ends-append false acc ch ∙ here))
  | inr other ↦ rw other (
      normalize_loop-IsSingle (acc ++ ch ∷ []) false rest
        (IsSingle-append false acc ch s (λ _. other)) (ends-append false acc ch ∙ other))
]

-- A single path goes through the loop as it is.
normalize_loop-single :
    (acc : List ℕ) (prev : Bool) (path : List ℕ)
    → IsSingle prev path
    → normalize_loop acc prev path ≡ acc ++ path
unfolding normalize_loop
normalize_loop-single acc prev [] s = sym (append-nil acc)
normalize_loop-single acc true (ch ∷ rest) s = rw (s.0 refl) (
    normalize_loop-single (acc ++ ch ∷ []) false rest (subst (λ b. IsSingle b rest) (s.0 refl) s.1)
    ∙ append_assoc acc (ch ∷ []) rest)
normalize_loop-single acc false (ch ∷ rest) s = elim (Bool-cases (ch == slash)) [
  | inl here ↦ rw here (
      normalize_loop-single (acc ++ ch ∷ []) true rest (subst (λ b. IsSingle b rest) here s.1)
      ∙ append_assoc acc (ch ∷ []) rest)
  | inr other ↦ rw other (
      normalize_loop-single (acc ++ ch ∷ []) false rest (subst (λ b. IsSingle b rest) other s.1)
      ∙ append_assoc acc (ch ∷ []) rest)
]

IsSingle-pop : (before : Bool) (l : List ℕ) → IsSingle before l → IsSingle before (pop l)
IsSingle-pop before [] s = s
IsSingle-pop before (ch ∷ []) s = tt
IsSingle-pop before (ch ∷ next ∷ rest) s = (s.0, IsSingle-pop (ch == slash) (next ∷ rest) s.1)

-- Behind a trailing slash stands another character.
ends-pop :
    (before : Bool) (ch : ℕ) (rest : List ℕ)
    → IsSingle before (ch ∷ rest)
    → ends_with_slash before (ch ∷ rest) ≡ true
    → ends_with_slash before (pop (ch ∷ rest)) ≡ false
ends-pop true ch [] s e = absurd (cc (s.0 refl, e))
ends-pop false ch [] s e = refl
ends-pop before ch (next ∷ rest) s e = ends-pop (ch == slash) next rest s.1 e

-- A single path gets its leading slash and stays single.
root-IsCanonical :
    (path : List ℕ)
    → IsSingle false path
    → (ltb 1 (length path) ≡ false) ⊎ (ends_with_slash false path ≡ false)
    → IsCanonical (root path)
unfolding root
root-IsCanonical [] s t = record { rest = []; rooted = refl; single = tt; trimmed = inl refl }
root-IsCanonical (ch ∷ rest) s t = elim (Bool-cases (ch == slash)) [
  | inl here ↦ rw here (record {
    rest = rest;
    rooted = ap (λ c. c ∷ rest) (ground (arith, here));
    single = subst (λ b. IsSingle b rest) here s.1;
    trimmed = elim t [
      | inl short ↦ inl (none_left rest short)
      | inr e ↦ inr (subst (λ b. ends_with_slash b rest ≡ false) here e)
    ];
  })
  | inr other ↦ rw other (record {
    rest = ch ∷ rest;
    rooted = refl;
    single = (λ _. other, s.1);
    trimmed = inr (elim t [
      | inl short ↦
          subst (λ l. ends_with_slash (ch == slash) l ≡ false) (sym (none_left rest short)) other
      | inr e ↦ e
    ]);
  })
]
  where
    none_left : (l : List ℕ) → ltb 1 (suc (length l)) ≡ false → l ≡ []
    none_left [] h = refl
    none_left (c ∷ l) h = absurd (ground (arith, h))

trim-lem :
    (path : List ℕ)
    → IsSingle false path
    → IsSingle false (trim path)
      × ((ltb 1 (length (trim path)) ≡ false) ⊎ (ends_with_slash false (trim path) ≡ false))
unfolding trim
trim-lem [] s = (s, inr refl)
trim-lem (ch ∷ []) s = (s, inl refl)
trim-lem (ch ∷ next ∷ rest) s =
    let long : ltb 1 (length (ch ∷ next ∷ rest)) ≡ true = ground arith in
    elim (Bool-cases (ends_with_slash false (ch ∷ next ∷ rest))) [
      | inl slashed ↦
          rw (long, slashed)
            (
              IsSingle-pop false (ch ∷ next ∷ rest) s,
              inr (ends-pop false ch (next ∷ rest) s slashed),
            )
      | inr fine ↦ rw (long, fine) (s, inr fine)
    ]

-- Every path is normalised to a canonical one.
pub normalize_path-IsCanonical : (path : List ℕ) → IsCanonical (normalize_path path)
unfolding normalize_path
normalize_path-IsCanonical path =
    let (single, trimmed) =
      trim-lem (normalize_loop [] false path) (normalize_loop-IsSingle [] false path tt refl) in
    root-IsCanonical (trim (normalize_loop [] false path)) single trimmed

trim_kept : (path : List ℕ) → ends_with_slash false path ≡ false → trim path ≡ path
unfolding trim
trim_kept path e = elim (Bool-cases (ltb 1 (length path))) [
  | inl long ↦ rw (long, e) refl
  | inr short ↦ rw short refl
]

-- Canonical paths are left as they are.
pub normalize_path_canonical : (path : List ℕ) → IsCanonical path → normalize_path path ≡ path
unfolding normalize_path trim root
normalize_path_canonical path c = rw c.rooted (
    ap (λ l. root (trim l))
      (normalize_loop-single [] false (slash ∷ c.rest) ((λ h. absurd (cc (h))), c.single))
    ∙ elim c.trimmed [ inl lone ↦ rw lone refl | inr e ↦ ap root (trim_kept (slash ∷ c.rest) e) ])

-- Normalising again changes nothing.
pub normalize_path-idempotent :
    (path : List ℕ) → normalize_path (normalize_path path) ≡ normalize_path path
normalize_path-idempotent path =
    normalize_path_canonical (normalize_path path) (normalize_path-IsCanonical path)
