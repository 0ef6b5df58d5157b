-- ===== src/Vfs/Initramfs/Archive/Parsed.antt =====
-- The loop of the parser finds the entries of the layout, and the parser makes its files of them.
use pindos.Base.{
  false, true, ℕ, zero, suc, ◌+◌, ◌^◌, ◌≤◌, ◌<◌, ◌≡◌, ◌≢◌, refl, Option, none, some, List, [], ◌∷◌,
  length, ltb, ◌==◌, arith, ap, sym, ◌∙◌, Bool-cases, inl, inr, ◌⊎◌,
}
use pindos.Vfs.{slash}
use pindos.Vfs.Initramfs.Archive.{
  Entries, insert, is_same, magic, trailer, slice, empty_directory, name_of, parse_loop, finish,
  parse,
}
use pindos.Vfs.Initramfs.Archive.Fields.{
  namesize_at, name_at, data_end, namesize_at_lem, name_at_lem, stored, data_end_lem, stored_lem,
  next_at_lem,
}
use pindos.Vfs.Initramfs.Archive.Files.{IsKept, finish-IsKept}
use pindos.Vfs.Initramfs.Archive.Layout.{
  Item, HasItem, IsEnd, IsBroken, Layout, part, number, next_at, entry_of, insert_all, is_same-true,
  is_same-false, header_lem, item_at, item_at-HasItem,
}

module _ (from_utf8 : List ℕ → Option (List ℕ)) (bytes : List ℕ) where
  module _ (small : length bytes < 2 ^ 63) where
    -- What the loop ends with: the entries up to where they end, or a panic behind them.
    abbrev Ends : ℕ → ℕ → Entries → Type 0
    Ends fuel pos entries =
        (items : List Item) × ((Layout from_utf8 bytes (IsEnd from_utf8 bytes) pos items
            × (parse_loop from_utf8 fuel bytes pos entries
                ≡ some (some (insert_all from_utf8 bytes entries items))))
          ⊎ (Layout from_utf8 bytes (IsBroken from_utf8 bytes) pos items
              × (parse_loop from_utf8 fuel bytes pos entries ≡ some none)))

    Ends-more :
        (fuel fuel' pos : ℕ) (entries : Entries) (item : Item)
        → HasItem from_utf8 bytes pos item
        → parse_loop from_utf8 fuel bytes pos entries
          ≡ parse_loop from_utf8 fuel' bytes
              (next_at from_utf8 bytes pos item)
              (insert entries (name_of from_utf8 item.name) (entry_of from_utf8 bytes item))
        → Ends fuel'
            (next_at from_utf8 bytes pos item)
            (insert entries (name_of from_utf8 item.name) (entry_of from_utf8 bytes item))
        → Ends fuel pos entries
    Ends-more fuel fuel' pos entries item here step (items, inl (rest, run)) =
        (item ∷ items, inl ((here, rest), step ∙ run))
    Ends-more fuel fuel' pos entries item here step (items, inr (rest, run)) =
        (item ∷ items, inr ((here, rest), step ∙ run))

    -- The end is reached: no more entries.
    Ends-stop :
        (fuel pos : ℕ) (entries : Entries)
        → IsEnd from_utf8 bytes pos
        → parse_loop from_utf8 fuel bytes pos entries ≡ some (some entries)
        → Ends fuel pos entries
    Ends-stop fuel pos entries stop run = ([], inl (stop, run))

    -- A header with a name: its entry is stored from_utf8 bytes, or the last one was.
    named-Ends :
        (fuel pos : ℕ) (entries : Entries)
        → ltb (length bytes) (pos + 110) ≡ false
        → is_same (slice bytes pos (pos + 6)) magic ≡ true
        → ltb (length bytes) (pos + 110 + namesize_at from_utf8 bytes pos) ≡ false
        → (namesize_at from_utf8 bytes pos == 0) ≡ false
        → (HasItem from_utf8 bytes pos (item_at from_utf8 bytes pos)
            → Ends fuel (next_at from_utf8 bytes pos (item_at from_utf8 bytes pos)) (
                insert entries
                  (name_of from_utf8 (item_at from_utf8 bytes pos).name)
                  (entry_of from_utf8 bytes (item_at from_utf8 bytes pos))))
        → Ends (suc fuel) pos entries
    unfolding parse_loop
    named-Ends fuel pos entries c1 c2 c3 c4 go =
        let some_left : namesize_at from_utf8 bytes pos ≢ 0 = λ e. absurd (ground (arith, c4, e)) in
        let named : 0 < number from_utf8 bytes pos 94 =
          omega (arith, some_left, namesize_at_lem from_utf8 bytes pos) in
        let room : pos + 110 + namesize_at from_utf8 bytes pos ≤ length bytes =
          ground (arith, c3) in
        elim (Bool-cases (is_same (name_of from_utf8 (name_at from_utf8 bytes pos)) trailer)) [
          | inl c5 ↦
              Ends-stop (suc fuel) pos entries
                (inr (
                  inr (
                    inr (
                      inl (
                        named,
                        ap (λ n. name_of from_utf8 n) (sym (name_at_lem from_utf8 bytes pos))
                            ∙ is_same-true _ _ c5,
                      )))))
                (rw (c1, c2, c3, c4, c5, parse_loop) refl)
          | inr c5 ↦ elim (Bool-cases (ltb (length bytes) (data_end from_utf8 bytes pos))) [
            | inl c6 ↦
                let past : length bytes < data_end from_utf8 bytes pos = ground (arith, c6) in
                Ends-stop (suc fuel) pos entries
                  (inr (
                    inr (
                      inr (
                        inr (
                          named,
                          omega (arith, past, data_end_lem from_utf8 bytes small pos room),
                        )))))
                  (rw (c1, c2, c3, c4, c5, c6, parse_loop) refl)
            | inr c6 ↦
                let within : data_end from_utf8 bytes pos ≤ length bytes = ground (arith, c6) in
                let here : HasItem from_utf8 bytes pos (item_at from_utf8 bytes pos) =
                  item_at-HasItem from_utf8 bytes small pos (ground (arith, c1))
                    (sym (header_lem from_utf8 bytes pos).0 ∙ is_same-true _ _ c2) named
                    (λ e.
                      is_same-false _ _ c5
                        (ap (λ n. name_of from_utf8 n) (name_at_lem from_utf8 bytes pos) ∙ e))
                    (omega (arith, within, data_end_lem from_utf8 bytes small pos room)) in
                Ends-more (suc fuel) fuel pos entries (item_at from_utf8 bytes pos) here
                  (rw (c1, c2, c3, c4, c5, c6, parse_loop)
                    (ap
                        (λ x.
                          parse_loop from_utf8 fuel bytes x (stored from_utf8 bytes pos entries))
                        (next_at_lem from_utf8 bytes small pos here room)
                      ∙ ap
                          (λ es.
                            parse_loop from_utf8 fuel bytes
                              (next_at from_utf8 bytes pos (item_at from_utf8 bytes pos)) es)
                          (stored_lem from_utf8 bytes small pos entries room)))
                  (go here)
          ]
        ]

    parse_loop-Ends :
        (fuel pos : ℕ) (entries : Entries)
        → 0 < fuel
        → length bytes < pos + fuel
        → Ends fuel pos entries
    unfolding parse_loop
    parse_loop-Ends zero pos entries p enough = absurd (omega (arith, p))
    parse_loop-Ends (suc fuel) pos entries p enough =
        let size : namesize_at from_utf8 bytes pos ≡ number from_utf8 bytes pos 94 =
          namesize_at_lem from_utf8 bytes pos in
        elim (Bool-cases (ltb (length bytes) (pos + 110))) [
          | inl c1 ↦
              Ends-stop (suc fuel) pos entries (inl (ground (arith, c1))) (rw (c1, parse_loop) refl)
          | inr c1 ↦ elim (Bool-cases (is_same (slice bytes pos (pos + 6)) magic)) [
            | inr c2 ↦
                Ends-stop (suc fuel) pos entries
                  (inr (inl (λ e. is_same-false _ _ c2 ((header_lem from_utf8 bytes pos).0 ∙ e))))
                  (rw (c1, c2, parse_loop) refl)
            | inl c2 ↦
                let header : pos + 110 ≤ length bytes = ground (arith, c1) in
                elim (Bool-cases
                  (ltb (length bytes) (pos + 110 + namesize_at from_utf8 bytes pos))) [
                    | inl c3 ↦
                        let past : length bytes < pos + 110 + namesize_at from_utf8 bytes pos =
                          ground (arith, c3) in
                        Ends-stop (suc fuel) pos entries
                          (inr (inr (inl (omega (arith, past, size)))))
                          (rw (c1, c2, c3, parse_loop) refl)
                    | inr c3 ↦ elim (Bool-cases (namesize_at from_utf8 bytes pos == 0)) [
                      | inl c4 ↦
                          let none_left : namesize_at from_utf8 bytes pos ≡ 0 =
                            ground (arith, c4) in
                          let signed : part from_utf8 bytes pos 6 ≡ magic =
                            sym (header_lem from_utf8 bytes pos).0 ∙ is_same-true _ _ c2 in
                          (
                            [],
                            inr (
                              (header, signed, sym size ∙ none_left),
                              rw (c1, c2, c3, c4, parse_loop) refl,
                            ),
                          )
                      | inr c4 ↦ named-Ends fuel pos entries c1 c2 c3 c4 (λ here.
                          parse_loop-Ends fuel
                            (next_at from_utf8 bytes pos (item_at from_utf8 bytes pos)) _
                            (omega (arith, header, enough)) (omega (arith, header, enough)))
                    ]
                  ]
          ]
        ]

  abbrev pub all_items : List Item → Entries
  all_items items = insert_all from_utf8 bytes (insert [] (slash ∷ []) empty_directory) items

  -- With a round of fuel for every byte and one more, the parser of an archive below 2 ^ 63 bytes comes to
  -- an end. The archive holds entries one behind another, each with its header, name and contents in
  -- place, up to where no entry stands, and the parser makes its file system of exactly these, put in
  -- this order behind the root: of each path the last entry, with its kind and contents; or they are
  -- followed by a header whose name has no room, at which it panics.
  pub parse-Layout :
      (fuel : ℕ)
      → length bytes < 2 ^ 63
      → length bytes < fuel
      → (items : List Item) × ((Layout from_utf8 bytes (IsEnd from_utf8 bytes) 0 items
            × (parse from_utf8 fuel bytes ≡ some (some (finish from_utf8 (all_items items))))
            × IsKept (all_items items) (finish from_utf8 (all_items items)).all_entries)
          ⊎ (Layout from_utf8 bytes (IsBroken from_utf8 bytes) 0 items
              × (parse from_utf8 fuel bytes ≡ some none)))
  unfolding parse
  parse-Layout fuel small enough =
      let (items, found) =
        parse_loop-Ends small fuel 0 (insert [] (slash ∷ []) empty_directory)
          (omega (arith, enough)) (omega (arith, enough)) in
      elim found [
        | inl (rest, run) ↦
            (items, inl (rest, rw (run, parse) refl, finish-IsKept from_utf8 (all_items items)))
        | inr (rest, run) ↦ (items, inr (rest, rw (run, parse) refl))
      ]
