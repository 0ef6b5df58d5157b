-- ===== src/Vfs/Initramfs/Archive/Layout.antt =====
-- The entries that the parser finds, against the layout of an archive.
use pindos.Base.{
  ℕ, suc, ◌+◌, ◌-◌, ◌*◌, ◌/◌, ◌^◌, ◌≤◌, ◌<◌, ◌≡◌, ◌≢◌, refl, true, false, Option, List, [], ◌∷◌,
  length, take, drop, ◌==◌, ◌&&◌, arith, ap, sym, ◌∙◌, Bool-cases, inl, inr, ◌⊎◌, length-take,
  length-drop,
}
use pindos.Vfs.Initramfs.{InitEntry, hex8, align4}
use pindos.Vfs.Initramfs.Read.{align4_lem}
use pindos.Vfs.Initramfs.Archive.{Entries, insert, is_same, magic, trailer, slice, name_of, kind_of}

is_same_refl : (a : List ℕ) → is_same a a ≡ true
is_same_refl [] = refl
is_same_refl (c ∷ a) = let here : (c == c) ≡ true = ground arith in rw (here, is_same_refl a) refl

pub is_same-true : (a b : List ℕ) → is_same a b ≡ true → a ≡ b
is_same-true [] [] h = refl
is_same-true [] (d ∷ b) h = absurd cc
is_same-true (c ∷ a) [] h = absurd cc
is_same-true (c ∷ a) (d ∷ b) h = elim (Bool-cases (c == d)) [
  | inl e ↦
      let same : c ≡ d = ground (arith, e) in
      rw (same, is_same-true a b (ap (λ x. x && is_same a b) (sym e) ∙ h)) refl
  | inr e ↦ absurd (cc (h, ap (λ x. x && is_same a b) (sym e)))
]

pub is_same-false : (a b : List ℕ) → is_same a b ≡ false → a ≢ b
is_same-false a b h e = absurd (cc (h, is_same_refl a, ap (λ x. is_same a x) e))

-- The multiple of 4 at or above a number.
abbrev pub up4 : ℕ → ℕ
up4 n = (n + 3) / 4 * 4

pub align4-up4 : (n : ℕ) → n < 2 ^ 63 + 2 ^ 33 → align4 n ≡ up4 n
align4-up4 n h = omega (arith, align4_lem n (omega (arith, h)))

-- An entry as it stands in the archive, its name without the zero at the end.
pub record Item : Type 0 where
  pub name : List ℕ
  pub contents : List ℕ
  pub mode : ℕ

module _ (from_utf8 : List ℕ → Option (List ℕ)) (bytes : List ℕ) where
  abbrev pub part : ℕ → ℕ → List ℕ
  part start count = take count (drop start bytes)

  -- The field of eight digits at an offset in the header at `pos`.
  abbrev pub number : ℕ → ℕ → ℕ
  number pos offset = hex8 (part (pos + offset) 8)

  -- The name follows the header, the contents follow at the next multiple of 4, and the next header at
  -- the next one after them.
  abbrev pub contents_at : ℕ → ℕ → ℕ
  contents_at pos namesize = up4 (pos + 110 + namesize)

  abbrev pub next_at : ℕ → Item → ℕ
  next_at pos item = up4 (contents_at pos (suc (length item.name)) + length item.contents)

  pub record HasItem (pos : ℕ) (item : Item) : Type 0 where
    pub header : pos + 110 ≤ length bytes
    pub signed : part pos 6 ≡ magic
    pub namesize : number pos 94 ≡ suc (length item.name)
    pub filesize : number pos 54 ≡ length item.contents
    pub mode : number pos 14 ≡ item.mode
    pub name : part (pos + 110) (length item.name) ≡ item.name
    pub not_last : name_of from_utf8 item.name ≢ trailer
    pub inside : contents_at pos (suc (length item.name)) + length item.contents ≤ length bytes
    pub contents :
        part (contents_at pos (suc (length item.name))) (length item.contents) ≡ item.contents

  -- No entry stands at `pos`: there is no room for a header, it has no signature, the name or the contents
  -- pass the end of the archive, or it is the last header.
  abbrev pub IsEnd : ℕ → Type 0
  IsEnd pos =
      (length bytes < pos + 110)
      ⊎ (part pos 6 ≢ magic)
      ⊎ (length bytes < pos + 110 + number pos 94)
      ⊎ ((0 < number pos 94) × (name_of from_utf8 (part (pos + 110) (number pos 94 - 1)) ≡ trailer))
      ⊎ ((0 < number pos 94) × (length bytes < contents_at pos (number pos 94) + number pos 54))

  -- A header whose name has no room for the zero at its end.
  abbrev pub IsBroken : ℕ → Type 0
  IsBroken pos = (pos + 110 ≤ length bytes) × (part pos 6 ≡ magic) × (number pos 94 ≡ 0)

  -- From `pos` on the archive holds these entries, and then it stops so.
  abbrev pub Layout : (ℕ → Type 0) → ℕ → List Item → Type 0
  Layout Stop pos [] = Stop pos
  Layout Stop pos (item ∷ items) = HasItem pos item × Layout Stop (next_at pos item) items

  abbrev pub entry_of : Item → InitEntry
  entry_of item = record {
    kind = kind_of from_utf8 item.mode;
    bytes = item.contents;
    children = [];
  }

  abbrev pub insert_all : Entries → List Item → Entries
  insert_all entries [] = entries
  insert_all entries (item ∷ items) =
      insert_all (insert entries (name_of from_utf8 item.name) (entry_of item)) items

  pub slice-part : (a b n : ℕ) → a + n ≡ b → slice bytes a b ≡ part a n
  slice-part a b n e = ap (λ k. take k (drop a bytes)) (omega (arith, e))

  length-part : (a n : ℕ) → a + n ≤ length bytes → length (part a n) ≡ n
  length-part a n h = omega (arith, length-take n (drop a bytes), length-drop a bytes, h)

  -- The header that the parser reads, by the fields of the layout.
  pub header_lem :
      (pos : ℕ)
      → (slice bytes pos (pos + 6) ≡ part pos 6)
        × (slice bytes (pos + 94) (pos + 102) ≡ part (pos + 94) 8)
        × (slice bytes (pos + 54) (pos + 62) ≡ part (pos + 54) 8)
        × (slice bytes (pos + 14) (pos + 22) ≡ part (pos + 14) 8)
  header_lem pos = (
    slice-part pos (pos + 6) 6 refl,
    slice-part (pos + 94) (pos + 102) 8 (omega arith),
    slice-part (pos + 54) (pos + 62) 8 (omega arith),
    slice-part (pos + 14) (pos + 22) 8 (omega arith),
  )

  abbrev pub item_at : ℕ → Item
  item_at pos = record {
    name = part (pos + 110) (number pos 94 - 1);
    contents = part (contents_at pos (number pos 94)) (number pos 54);
    mode = number pos 14;
  }

  module _ (small : length bytes < 2 ^ 63) where
    -- An entry that passes every test of the loop.
    pub item_at-HasItem :
        (pos : ℕ)
        → pos + 110 ≤ length bytes
        → part pos 6 ≡ magic
        → 0 < number pos 94
        → name_of from_utf8 (part (pos + 110) (number pos 94 - 1)) ≢ trailer
        → contents_at pos (number pos 94) + number pos 54 ≤ length bytes
        → HasItem pos (item_at pos)
    item_at-HasItem pos header signed named not_last inside =
        let name : length (part (pos + 110) (number pos 94 - 1)) ≡ number pos 94 - 1 =
          length-part (pos + 110) (number pos 94 - 1) (omega (arith, inside, named)) in
        let size : length (part (contents_at pos (number pos 94)) (number pos 54)) ≡ number pos 54 =
          length-part (contents_at pos (number pos 94)) (number pos 54) inside in
        let whole : suc (length (part (pos + 110) (number pos 94 - 1))) ≡ number pos 94 =
          omega (arith, name, named) in
        record {
          header = header;
          signed = signed;
          namesize = sym whole;
          filesize = sym size;
          mode = refl;
          name = ap (λ k. part (pos + 110) k) name;
          not_last = not_last;
          inside = rw (whole, size) inside;
          contents = rw (whole, size) refl;
        }
