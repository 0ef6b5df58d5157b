-- ===== src/Vfs/Initramfs/Read.antt =====
-- Reads from a file of the archive, and the alignment of its parts.
use pindos.Base.{
  ℕ, suc, ◌+◌, ◌-◌, ◌%◌, ◌^◌, ◌≤◌, ◌<◌, min, ◌≡◌, refl, true, List, [], ◌∷◌, ◌++◌, arith, length,
  get_elem?, take, drop, length-take, length-drop, get_elem?-take, get_elem?-drop,
  get_elem?-append_left, Bool-cases, inl, inr, ltb, ap, sym, ◌∙◌,
}
use pindos.Base.Bits.{bit_and_high}
use pindos.Vfs.{ok}
use pindos.Vfs.Initramfs.{InitEntry, is_regular, read, align4}

module _ {A : Type 0} where
  get_elem?-append_right :
      (xs ys : List A) (i : ℕ) → get_elem? (xs ++ ys) (length xs + i) ≡ get_elem? ys i
  get_elem?-append_right [] ys i = ap (get_elem? ys) (omega arith)
  get_elem?-append_right (x ∷ xs) ys i =
      let shift : suc (length xs) + i ≡ suc (length xs + i) = omega arith in
      ap (get_elem? (x ∷ xs ++ ys)) shift ∙ get_elem?-append_right xs ys i

-- What a read leaves: `n` bytes of the file from the offset on, and the rest of the buffer.
pub record Copied (entry : InitEntry) (offset : ℕ) (buf : List ℕ) (n : ℕ) (buf' : List ℕ)
    : Type 0 where
  pub count : n ≡ min (length entry.bytes - offset) (length buf)
  pub bytes : (i : ℕ) → i < n → get_elem? buf' i ≡ get_elem? entry.bytes (offset + i)
  pub rest : (i : ℕ) → get_elem? buf' (n + i) ≡ get_elem? buf (n + i)

-- A read of a regular file succeeds at every offset: it copies as many bytes as the file has from the
-- offset on and the buffer has room for, and leaves the rest of the buffer.
pub read-Copied :
    (entry : InitEntry) (offset : ℕ) (buf : List ℕ)
    → is_regular entry.kind ≡ true
    → (n : ℕ) × (buf' : List ℕ) × (read entry offset buf ≡ ok (n, buf'))
      × Copied entry offset buf n buf'
unfolding read
read-Copied entry offset buf file = elim (Bool-cases (ltb (length entry.bytes) offset)) [
  | inl beyond ↦ (
    0,
    buf,
    rw (file, beyond) refl,
    record {
      count = ground (arith, beyond);
      bytes = λ i h. absurd (omega arith);
      rest = λ i. refl;
    },
  )
  | inr inside ↦
      let count : length
            (take (min (length entry.bytes - offset) (length buf)) (drop offset entry.bytes))
          ≡ min (length entry.bytes - offset) (length buf) =
        length-take (min (length entry.bytes - offset) (length buf)) (drop offset entry.bytes)
        ∙ omega (arith, length-drop offset entry.bytes) in
      (
        _,
        _,
        rw (file, inside) refl,
        record {
          count = refl;
          bytes = λ i h.
              get_elem?-append_left
                (take (min (length entry.bytes - offset) (length buf)) (drop offset entry.bytes)) _
                i (omega (arith, count))
              ∙ get_elem?-take (min (length entry.bytes - offset) (length buf))
                  (drop offset entry.bytes) i h
              ∙ get_elem?-drop offset entry.bytes i;
          rest = λ i.
              ap (get_elem? _) (ap (λ (x : ℕ). x + i) (sym count))
              ∙ get_elem?-append_right
                  (take (min (length entry.bytes - offset) (length buf)) (drop offset entry.bytes))
                  _ i
              ∙ get_elem?-drop (min (length entry.bytes - offset) (length buf)) buf i;
        },
      )
]

-- `align4` of a number below 2 ^ 64 - 3 is the least multiple of 4 that is not below it.
pub align4_lem : (x : ℕ) → x + 3 < 2 ^ 64 → (align4 x % 4 ≡ 0) × (x ≤ align4 x) × (align4 x < x + 4)
unfolding align4
align4_lem x h =
    let low : (x + 3) % 2 ^ 64 ≡ x + 3 = omega arith in
    let high = bit_and_high 2 62 (x + 3) in
    rw low (omega (arith, high), omega (arith, high), omega (arith, high))
