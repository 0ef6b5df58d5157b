-- ===== src/Mm/UserPtr/Pages.antt =====
-- A range is accepted exactly when it is not at null, and is empty or in the user half with each byte's
-- page passing the check.
use pindos.Base.{
  ℕ, zero, suc, ◌+◌, ◌-◌, ◌*◌, ◌%◌, ◌^◌, ◌≤◌, ◌<◌, ◌≡◌, refl, ◌≢◌, Bool, true, false, Option, none,
  some, arith, ltb, leb, ◌==◌, bit_and, Bool-cases, Option-cases, max, inl, inr, ◌⊎◌, leb→le, ap,
  ◌∙◌,
}
use pindos.Mm.Region.{page_mask}
use pindos.Mm.Region.Init.{align_down, page_mask_lem}
use pindos.Mm.UserPtr.{
  UserPtrError, AddressSpace, UserSlice, empty, from_raw_parts, Result, ok, err, page_loop,
  validate, user_max, validate_user_slice_mut, write_error, bad_address, not_mapped, not_writable,
}

module _ (error : ℕ → Option UserPtrError) where
  -- No page from `page` to `last_page` has an error.
  abbrev pub IsClean : ℕ → ℕ → Type 0
  IsClean page last_page = (p : ℕ) → p % 4096 ≡ 0 → page ≤ p → p ≤ last_page → error p ≡ none

  -- What the loop finds: a clean range, or the lowest page with an error.
  abbrev pub Found : ℕ → ℕ → Option UserPtrError → Type 0
  Found page last_page none = IsClean page last_page
  Found page last_page (some e) =
      (p : ℕ) × (p % 4096 ≡ 0)
      × (page ≤ p)
      × (p ≤ last_page)
      × (error p ≡ some e)
      × ((q : ℕ) → q % 4096 ≡ 0 → page ≤ q → q < p → error q ≡ none)

  first_or_later :
      (page p : ℕ) → page % 4096 ≡ 0 → p % 4096 ≡ 0 → page ≤ p → (p ≡ page) ⊎ (page + 4096 ≤ p)
  first_or_later page p al a lo = elim (Bool-cases (p == page)) [
    | inl first ↦ inl (ground (arith, first))
    | inr later ↦
        inr (let apart : p ≢ page = λ e. absurd (ground (arith, later, e)) in ground arith)
  ]

  Found-more :
      (page last_page : ℕ)
      → page % 4096 ≡ 0
      → error page ≡ none
      → (r : Option UserPtrError) → Found (page + 4096) last_page r
      → Found page last_page r
  Found-more page last_page al good none clean = λ p a lo hi. elim (first_or_later page p al a lo) [
    | inl e ↦ ap error e ∙ good
    | inr le ↦ clean p a le hi
  ]
  Found-more page last_page al good (some x) (p, a, lo, hi, bad, before) = (
    p,
    a,
    omega arith,
    hi,
    bad,
    λ q b lo' hi'. elim (first_or_later page q al b lo') [
      | inl e ↦ ap error e ∙ good
      | inr le ↦ before q b le hi'
    ],
  )

  page_loop-Found :
      (fuel page last_page : ℕ)
      → page % 4096 ≡ 0
      → last_page + 4096 < page + 4096 * fuel
      → 0 < fuel
      → (r : Option UserPtrError) × (page_loop error fuel page last_page ≡ some r)
        × Found page last_page r
  unfolding page_loop
  page_loop-Found zero page last_page al e f = absurd (omega arith)
  page_loop-Found (suc fuel) page last_page al e f = elim (Bool-cases (leb page last_page)) [
    | inr past ↦ (none, rw past refl, λ p a lo hi. absurd (ground (arith, past)))
    | inl inside ↦ elim (Option-cases (error page)) [
      | inr (x, bad) ↦ (
        some x,
        rw (inside, bad) refl,
        (
          page,
          al,
          omega arith,
          leb→le page last_page inside,
          bad,
          λ q a lo hi. absurd (omega arith),
        ),
      )
      | inl good ↦
          let (r, run, found) =
            page_loop-Found fuel (page + 4096) last_page (omega arith) (omega arith)
              (omega (arith, leb→le page last_page inside)) in
          (r, rw (inside, good) run, Found-more page last_page al good r found)
    ]
  ]

  -- The range lies in the user half, and no byte's page has an error; an empty range only wants a
  -- pointer that is not null.
  abbrev pub IsAccepted : ℕ → ℕ → Type 0
  IsAccepted ptr len =
      (ptr ≢ 0)
      × ((len ≡ 0)
          ⊎ ((ptr + len ≤ user_max)
              × ((p : ℕ) → ptr ≤ p → p < ptr + len → error (align_down p) ≡ none)))

  -- What a check answers for a range.
  abbrev pub Answered : ℕ → ℕ → ℕ → Type 0
  Answered fuel ptr len =
      ((s : UserSlice) × (validate error fuel ptr len ≡ some (ok s)) × IsAccepted ptr len)
      ⊎ ((e : UserPtrError) × (validate error fuel ptr len ≡ some (err e))
          × (IsAccepted ptr len → ⊥))

  abbrev outcome : ℕ → ℕ → Option UserPtrError → Result
  outcome ptr len none = ok (from_raw_parts ptr len)
  outcome ptr len (some e) = err e

  -- In range, the loop decides.
  validate-page_loop :
      (fuel ptr len : ℕ) (r : Option UserPtrError)
      → ptr ≢ 0
      → len ≢ 0
      → ptr + len ≤ user_max
      → page_loop error fuel (align_down ptr) (align_down (ptr + len - 1)) ≡ some r
      → validate error fuel ptr len ≡ some (outcome ptr len r)
  unfolding validate
  validate-page_loop fuel ptr len r p l h run =
      let p' : (ptr == 0) ≡ false = ground (arith, p) in
      let l' : (len == 0) ≡ false = ground (arith, l) in
      let w : leb (2 ^ 64) (ptr + len) ≡ false = ground (arith, h) in
      let u : ltb user_max (ptr + len) ≡ false = ground (arith, h) in
      let first : bit_and ptr page_mask ≡ align_down ptr = page_mask_lem ptr (omega arith) in
      let last : bit_and (ptr + len - 1) page_mask ≡ align_down (ptr + len - 1) =
        page_mask_lem (ptr + len - 1) (omega arith) in
      rw (p', l', w, u, first, last, run) (by_cases r)
    where
      by_cases :
          (r : Option UserPtrError)
          → elim r as (λ _. Option Result) [
            | none ↦ some (ok (from_raw_parts ptr len))
            | some e ↦ some (err e)
          ]
            ≡ some (outcome ptr len r)
      by_cases none = refl
      by_cases (some e) = refl

  answer :
      (fuel ptr len : ℕ) (r : Option UserPtrError)
      → ptr ≢ 0
      → len ≢ 0
      → ptr + len ≤ user_max
      → page_loop error fuel (align_down ptr) (align_down (ptr + len - 1)) ≡ some r
      → Found (align_down ptr) (align_down (ptr + len - 1)) r
      → Answered fuel ptr len
  answer fuel ptr len none p l h run clean = inl (
    from_raw_parts ptr len,
    validate-page_loop fuel ptr len none p l h run,
    (p, inr (h, λ b lo hi. clean (align_down b) (omega arith) (omega arith) (omega arith))),
  )
  answer fuel ptr len (some e) p l h run (q, a, lo, hi, bad, before) =
      inr (e, validate-page_loop fuel ptr len (some e) p l h run, refuse)
    where
      refuse : IsAccepted ptr len → ⊥
      refuse (_, inl none_wanted) = l none_wanted
      refuse (_, inr (_, every)) =
          let here : align_down (max q ptr) ≡ q = omega arith in
          let good : error (align_down (max q ptr)) ≡ none =
            every (max q ptr) (omega arith) (omega arith) in
          absurd (cc (bad, good, ap error here))

  -- For every pointer and length the check returns, with one round of fuel for every page of the
  -- user half, and it accepts exactly the ranges whose bytes all lie in the user half on pages that
  -- pass, and the empty ranges whose pointer is not null.
  pub validate-Answered : (fuel ptr len : ℕ) → 2 ^ 35 + 1 < fuel → Answered fuel ptr len
  unfolding validate
  validate-Answered fuel ptr len e = elim (Bool-cases (ptr == 0)) [
    | inl null ↦ inr (bad_address, rw null refl, λ accepted. accepted.0 (ground (arith, null)))
    | inr p ↦ elim (Bool-cases (len == 0)) [
      | inl none_wanted ↦
          inl (
            empty,
            rw (p, none_wanted) refl,
            (ground (arith, p), inl (ground (arith, none_wanted))),
          )
      | inr l ↦ elim (Bool-cases (ltb user_max (ptr + len))) [
        | inl above ↦ inr (
          bad_address,
          ground (arith, p, l, above),
          λ accepted. elim accepted.1 [
            | inl none_wanted ↦ absurd (ground (arith, l, none_wanted))
            | inr (h, _) ↦ absurd (ground (arith, above, h))
          ],
        )
        | inr within_half ↦
            let h : ptr + len ≤ user_max = ground (arith, within_half) in
            let (r, run, found) =
              page_loop-Found fuel (align_down ptr) (align_down (ptr + len - 1)) (omega arith)
                (omega arith) (omega arith) in
            answer fuel ptr len r (ground (arith, p)) (ground (arith, l)) h run found
      ]
    ]
  ]

-- The slice of an accepted range is the range.
pub validate-slice :
    (error : ℕ → Option UserPtrError) (fuel ptr len : ℕ) (s : UserSlice)
    → validate error fuel ptr len ≡ some (ok s)
    → ((len ≡ 0) × (s ≡ empty)) ⊎ (s ≡ from_raw_parts ptr len)
unfolding validate
validate-slice error fuel ptr len s h = ground arith

-- The page walk says that the page is there and may be written.
writable_of :
    (aspace : AddressSpace) (page : ℕ)
    → write_error aspace page ≡ none
    → aspace.translate_flags page ≡ some true
unfolding write_error
writable_of aspace page h = go (aspace.translate_flags page) refl h
  where
    go :
        (o : Option Bool)
        → aspace.translate_flags page ≡ o
        → elim o as (λ _. Option UserPtrError) [
          | none ↦ some not_mapped
          | some true ↦ none
          | some false ↦ some not_writable
        ]
          ≡ none
        → aspace.translate_flags page ≡ some true
    go none e h' = absurd (cc)
    go (some true) e h' = e
    go (some false) e h' = absurd (cc)

-- A range that is accepted for writing, and is not empty, with one round of fuel for every page of
-- the user half, lies in the user half, and each byte of it is on a mapped
-- page with the flag `WRITABLE`.
pub validate_user_slice_mut-writable :
    (aspace : AddressSpace) (fuel ptr len : ℕ)
    → 2 ^ 35 + 1 < fuel
    → validate_user_slice_mut aspace fuel ptr len ≡ some (ok (from_raw_parts ptr len))
    → len ≢ 0
    → (ptr + len ≤ user_max)
      × ((p : ℕ) → ptr ≤ p → p < ptr + len → aspace.translate_flags (align_down p) ≡ some true)
unfolding validate_user_slice_mut
validate_user_slice_mut-writable aspace fuel ptr len e returned wanted =
    elim (validate-Answered (write_error aspace) fuel ptr len e) [
      | inl (_, _, (_, inl none_wanted)) ↦ absurd (wanted none_wanted)
      | inl (_, _, (_, inr (h, every))) ↦
          (h, λ p lo hi. writable_of aspace (align_down p) (every p lo hi))
      | inr (x, refused, _) ↦ absurd (cc (returned, refused))
    ]
