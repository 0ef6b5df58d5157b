-- ===== src/Vfs/Initramfs/Archive/Fields.antt =====
-- The fields that the loop of the parser computes, against the layout of an archive.
use pindos.Base.{
  ℕ, suc, ◌+◌, ◌-◌, ◌^◌, ◌≤◌, ◌<◌, ◌≡◌, Option, List, [], length, take, drop, arith, ap, sym, ◌∙◌,
}
use pindos.Vfs.Initramfs.{hex8, align4}
use pindos.Vfs.Initramfs.Archive.{Entries, insert, slice, name_of, kind_of}
use pindos.Vfs.Initramfs.Archive.Layout.{
  HasItem, part, number, contents_at, next_at, entry_of, up4, align4-up4, slice-part, header_lem,
  item_at,
}

module _ (from_utf8 : List ℕ → Option (List ℕ)) (bytes : List ℕ) where
  -- The fields as the loop computes them.
  abbrev pub namesize_at : ℕ → ℕ
  namesize_at pos = hex8 (slice bytes (pos + 94) (pos + 102))

  abbrev pub name_at : ℕ → List ℕ
  name_at pos = slice bytes (pos + 110) (pos + 110 + namesize_at pos - 1)

  abbrev pub data_start : ℕ → ℕ
  data_start pos = align4 (pos + 110 + namesize_at pos)

  abbrev pub data_end : ℕ → ℕ
  data_end pos = data_start pos + hex8 (slice bytes (pos + 54) (pos + 62))

  pub namesize_at_lem : (pos : ℕ) → namesize_at pos ≡ number from_utf8 bytes pos 94
  namesize_at_lem pos = ap hex8 (header_lem from_utf8 bytes pos).1

  pub name_at_lem :
      (pos : ℕ) → name_at pos ≡ part from_utf8 bytes (pos + 110) (number from_utf8 bytes pos 94 - 1)
  name_at_lem pos =
      ap (λ (k : ℕ). take k (drop (pos + 110) bytes)) (omega (arith, namesize_at_lem pos))

  abbrev pub stored : ℕ → Entries → Entries
  stored pos entries = insert entries (name_of from_utf8 (name_at pos)) (record {
    kind = kind_of from_utf8 (hex8 (slice bytes (pos + 14) (pos + 22)));
    bytes = slice bytes (data_start pos) (data_end pos);
    children = [];
  })

  module _ (small : length bytes < 2 ^ 63) where
    pub data_start_lem :
        (pos : ℕ)
        → pos + 110 + namesize_at pos ≤ length bytes
        → data_start pos ≡ contents_at from_utf8 bytes pos (number from_utf8 bytes pos 94)
    data_start_lem pos h =
        align4-up4 (pos + 110 + namesize_at pos) (omega (arith, h, small))
        ∙ ap (λ n. contents_at from_utf8 bytes pos n) (namesize_at_lem pos)

    pub data_end_lem :
        (pos : ℕ)
        → pos + 110 + namesize_at pos ≤ length bytes
        → data_end pos
          ≡ contents_at from_utf8 bytes pos (number from_utf8 bytes pos 94)
            + number from_utf8 bytes pos 54
    data_end_lem pos h =
        ap (λ (x : ℕ). x + hex8 (slice bytes (pos + 54) (pos + 62))) (data_start_lem pos h)
        ∙ ap (λ s. contents_at from_utf8 bytes pos (number from_utf8 bytes pos 94) + hex8 s)
            (header_lem from_utf8 bytes pos).2

    pub stored_lem :
        (pos : ℕ) (entries : Entries)
        → pos + 110 + namesize_at pos ≤ length bytes
        → stored pos entries
          ≡ insert entries
              (name_of from_utf8 (item_at from_utf8 bytes pos).name)
              (entry_of from_utf8 bytes (item_at from_utf8 bytes pos))
    stored_lem pos entries h =
        let contents : slice bytes (data_start pos) (data_end pos)
            ≡ part from_utf8 bytes (contents_at from_utf8 bytes pos (number from_utf8 bytes pos 94))
                (number from_utf8 bytes pos 54) =
          ap (λ s. slice bytes s (data_end pos)) (data_start_lem pos h)
          ∙ slice-part from_utf8 bytes
              (contents_at from_utf8 bytes pos (number from_utf8 bytes pos 94)) (data_end pos)
              (number from_utf8 bytes pos 54) (sym (data_end_lem pos h)) in
        ap
          (λ n. insert entries (name_of from_utf8 n) (record {
            kind = kind_of from_utf8 (hex8 (slice bytes (pos + 14) (pos + 22)));
            bytes = slice bytes (data_start pos) (data_end pos);
            children = [];
          }))
          (name_at_lem pos)
        ∙ ap
            (λ b. insert entries (name_of from_utf8 (item_at from_utf8 bytes pos).name) (record {
              kind = kind_of from_utf8 (hex8 (slice bytes (pos + 14) (pos + 22)));
              bytes = b;
              children = [];
            }))
            contents
        ∙ ap
            (λ m. insert entries (name_of from_utf8 (item_at from_utf8 bytes pos).name) (record {
              kind = kind_of from_utf8 (hex8 m);
              bytes =
                  part from_utf8 bytes
                    (contents_at from_utf8 bytes pos (number from_utf8 bytes pos 94))
                    (number from_utf8 bytes pos 54);
              children = [];
            }))
            (header_lem from_utf8 bytes pos).3

    pub next_at_lem :
        (pos : ℕ)
        → HasItem from_utf8 bytes pos (item_at from_utf8 bytes pos)
        → pos + 110 + namesize_at pos ≤ length bytes
        → align4 (data_end pos) ≡ next_at from_utf8 bytes pos (item_at from_utf8 bytes pos)
    next_at_lem pos here h =
        let sizes : data_end pos
            ≡ contents_at from_utf8 bytes pos (suc (length (item_at from_utf8 bytes pos).name))
              + length (item_at from_utf8 bytes pos).contents =
          data_end_lem pos h
          ∙ ap (λ (n : ℕ). contents_at from_utf8 bytes pos n + number from_utf8 bytes pos 54)
              here.namesize
          ∙ ap
              (λ (n : ℕ).
                contents_at from_utf8 bytes pos (suc (length (item_at from_utf8 bytes pos).name))
                + n)
              here.filesize in
        align4-up4 (data_end pos) (omega (arith, sizes, here.inside, small)) ∙ ap up4 sizes
