-- ===== src/Acpi/Entries.antt =====
-- The iterators over the entries of a table, against the list of its entries.
use pindos.Base.{
  not, ◌==◌, ℕ, zero, suc, ◌+◌, ◌≤◌, ◌<◌, ◌≡◌, refl, Bool, true, false, ◌&&◌, Option, none, some,
  List, [], ◌∷◌, arith, leb, if◌then◌else◌, Bool-cases, inl, inr, ◌⊎◌, ◌∙◌, All,
}
use pindos.Acpi.{
  Bytes, Madt, LocalApic, IoApic, is_passed, next, next_local, next_io, read_local_apic,
  read_io_apic,
}

-- A `for` loop over an iterator: what it answers until it answers `None`, `n` times at most.
unfoldable pub collect : {A : Type 0} → (ℕ → Option (Option A × ℕ)) → ℕ → ℕ → Option (List A)
collect step zero o = none
collect step (suc n) o = elim (step o) [
  | none ↦ none
  | some (x, o') ↦
      let rest = collect step n o' in
      elim x [
        | none ↦ some []
        | some item ↦ elim rest [ none ↦ none | some others ↦ some (item ∷ others) ]
      ]
]

module _ (memory : Bytes) {A : Type 0} (wanted least : ℕ) (read_item : ℕ → A)
    (entries_ptr len : ℕ) where
  abbrev len_at : ℕ → ℕ
  len_at o = memory (entries_ptr + o + 1)

  abbrev next_at : ℕ → ℕ → Option (Option A × ℕ)
  next_at = next memory wanted least read_item entries_ptr len

  -- The entry at the offset is of another type, or too short.
  abbrev passed : ℕ → Bool
  passed o = not ((memory (entries_ptr + o) == wanted) && leb least (len_at o))

  -- An entry stands at the offset, has its two first bytes, and ends in the table.
  abbrev is_entry : ℕ → Bool
  is_entry o = leb (o + 2) len && leb 2 (len_at o) && leb (o + len_at o) len

  -- The offsets of the entries that follow one another from an offset on.
  pub offsets : ℕ → ℕ → List ℕ
  offsets zero o = []
  offsets (suc n) o = let rest = offsets n (o + len_at o) in if is_entry o then o ∷ rest else []

  -- The items among the entries.
  pub items : List ℕ → List A
  items [] = []
  items (o ∷ rest) =
      let others = items rest in if passed o then others else read_item (entries_ptr + o) ∷ others

  next_end : (fuel o : ℕ) → is_entry o ≡ false → next_at (suc fuel) o ≡ some (none, o)
  unfolding next is_passed
  next_end fuel o h = ground (arith, h)

  next_passed :
      (fuel o : ℕ)
      → is_entry o ≡ true
      → passed o ≡ true
      → next_at (suc fuel) o ≡ next_at fuel (o + len_at o)
  unfolding next is_passed
  next_passed fuel o h p = ground (arith, h, p)

  next_item :
      (fuel o : ℕ)
      → is_entry o ≡ true
      → passed o ≡ false
      → next_at (suc fuel) o ≡ some (some (read_item (entries_ptr + o)), o + len_at o)
  unfolding next is_passed
  next_item fuel o h p = ground (arith, h, p)

  -- What `next` answers from an offset: no item is left, or the first one and the offset after it.
  abbrev Advanced : ℕ → ℕ → ℕ → Type 0
  Advanced fuel n o =
      ((o' : ℕ) × (next_at fuel o ≡ some (none, o')) × (items (offsets n o) ≡ []))
      ⊎ ((x : A) × (o' : ℕ) × (n' : ℕ) × (next_at fuel o ≡ some (some x, o'))
          × (n' < n)
          × (len < o' + n')
          × (items (offsets n o) ≡ x ∷ items (offsets n' o')))

  room : (o : ℕ) → is_entry o ≡ true → (2 ≤ len_at o) × (o + len_at o ≤ len)
  room o h = (ground (arith, h), ground (arith, h))

  next-Advanced : (fuel n o : ℕ) → 0 < fuel → len < o + fuel → len < o + n → Advanced fuel n o
  unfolding offsets items
  next-Advanced zero n o p hf hn = absurd (omega (arith, p))
  next-Advanced (suc fuel) zero o p hf hn = inl (o, next_end fuel o (ground (arith, hn)), refl)
  next-Advanced (suc fuel) (suc n) o p hf hn = elim (Bool-cases (is_entry o)) [
    | inr last ↦ inl (o, next_end fuel o last, rw last refl)
    | inl more ↦ elim (Bool-cases (passed o)) [
      | inr item ↦ inr (
        _,
        _,
        n,
        next_item fuel o more item,
        omega arith,
        omega (arith, room o more),
        rw (more, item) refl,
      )
      | inl skip ↦
          elim (next-Advanced fuel n (o + len_at o) (omega (arith, room o more))
            (omega (arith, room o more)) (omega (arith, room o more))) [
              | inl (o', run, nothing) ↦
                  inl (o', next_passed fuel o more skip ∙ run, rw (more, skip) nothing)
              | inr (x, o', n', run, lt, enough, found) ↦ inr (
                x,
                o',
                n',
                next_passed fuel o more skip ∙ run,
                omega (arith, lt),
                enough,
                rw (more, skip) found,
              )
            ]
    ]
  ]

  collect_from :
      (fuel n m o : ℕ)
      → len < fuel
      → n < m
      → len < o + n
      → collect (next_at fuel) m o ≡ some (items (offsets n o))
  unfolding collect
  collect_from fuel n zero o hf lt hn = absurd (omega (arith, lt))
  collect_from fuel n (suc m) o hf lt hn =
      elim (next-Advanced fuel n o (omega (arith, hf)) (omega (arith, hf)) hn) [
        | inl (o', run, nothing) ↦ rw (run, collect, nothing) refl
        | inr (x, o', n', run, less, enough, found) ↦
            let rest : collect (next_at fuel) m o' ≡ some (items (offsets n' o')) =
              collect_from fuel n' m o' hf (omega (arith, less, lt)) enough in
            rw (run, collect, rest, found) refl
      ]

  -- Every entry ends in the table, and takes two bytes or more.
  offsets-inside : (n o : ℕ) → All (λ e. (2 ≤ len_at e) × (e + len_at e ≤ len)) (offsets n o)
  unfolding offsets
  offsets-inside zero o = tt
  offsets-inside (suc n) o = elim (Bool-cases (is_entry o)) [
    | inl more ↦ rw more (room o more, offsets-inside n (o + len_at o))
    | inr last ↦ rw last tt
  ]

-- The items of a table: what its entries of the wanted type hold that are long enough.
abbrev pub local_items : Bytes → Madt → List LocalApic
local_items memory madt =
    items memory 0 8 (read_local_apic memory) madt.entries_ptr madt.entries_len (
      offsets memory 0 8 (read_local_apic memory) madt.entries_ptr madt.entries_len
        (suc madt.entries_len) 0)

abbrev pub io_items : Bytes → Madt → List IoApic
io_items memory madt = items memory 1 12 (read_io_apic memory) madt.entries_ptr madt.entries_len (
    offsets memory 1 12 (read_io_apic memory) madt.entries_ptr madt.entries_len
      (suc madt.entries_len) 0)

-- With a round of fuel for every byte of the entries and one more, both iterators return each time that
-- they are called and come to an end. They yield exactly what the entries of type 0 of 8 bytes or more
-- hold, and those of type 1 of 12 bytes or more, in their order, up to the first entry that is shorter
-- than 2 bytes or ends behind the table.
pub collect-items :
    (memory : Bytes) (madt : Madt) (fuel : ℕ)
    → madt.entries_len < fuel
    → (collect (next_local memory madt fuel) (madt.entries_len + 2) 0
        ≡ some (local_items memory madt))
      × (collect (next_io memory madt fuel) (madt.entries_len + 2) 0 ≡ some (io_items memory madt))
unfolding next_local next_io
collect-items memory madt fuel h = (
  collect_from memory 0 8 (read_local_apic memory) madt.entries_ptr madt.entries_len fuel
      (suc madt.entries_len) (madt.entries_len + 2) 0 h (omega arith) (omega arith),
  collect_from memory 1 12 (read_io_apic memory) madt.entries_ptr madt.entries_len fuel
      (suc madt.entries_len) (madt.entries_len + 2) 0 h (omega arith) (omega arith),
)
