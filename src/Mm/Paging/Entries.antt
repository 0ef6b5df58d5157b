-- ===== src/Mm/Paging/Entries.antt =====
-- The entries of page tables as numbers: the flags are bits, the frame is a multiple of the page size.
use pindos.Base.{
  ℕ, ◌+◌, ◌*◌, ◌/◌, ◌%◌, ◌^◌, ◌<◌, ◌≡◌, refl, true, false, some, none, bit_and, bit_or, ◌==◌, arith,
  ◌∙◌, ap, sym,
}
use pindos.Base.Bits.{
  bit_and_high, bit_or_split, bit_or_split_left, bit_and_split_low, bit_or_one, bit_or_zero_left,
}
use pindos.Mm.Paging.{
  PageFlags, all_bits, frame_mask, flags, is_present, is_huge, frame, entry_of, table_flags,
}

-- The named bits of a number.
pub all_bits_lem : (e : ℕ) → bit_and e all_bits ≡ e % 512 + e / 2 ^ 63 % 2 * 2 ^ 63
all_bits_lem e =
    let split : e / 512 * 2 ^ 9 + e % 512 ≡ e = omega arith in
    let low : bit_and (e / 512 * 2 ^ 9 + e % 512) all_bits
        ≡ bit_and (e / 512) (2 ^ 54) * 2 ^ 9 + e % 512 =
      bit_and_split_low 9 (e / 512) (2 ^ 54) (e % 512) (omega arith) in
    let high : bit_and (e / 512) (2 ^ 54) ≡ (e / 512 / 2 ^ 54) % 2 ^ 1 * 2 ^ 54 =
      bit_and_high 54 1 (e / 512) in
    ap (λ (x : ℕ). bit_and x all_bits) (sym split) ∙ low ∙ omega (arith, high)

present_bit : (e : ℕ) → bit_and e 1 ≡ e % 2
present_bit e = omega (arith, bit_and_high 0 1 e)

huge_bit : (e : ℕ) → bit_and e 128 ≡ e / 128 % 2 * 128
huge_bit e = omega (arith, bit_and_high 7 1 e)

high_bits : (p n : ℕ) → p < 2 ^ 40 → bit_or p (n * 2 ^ 51) ≡ n * 2 ^ 51 + p
high_bits p n h =
    let split : n * 2 ^ 51 ≡ n * 2 ^ 11 * 2 ^ 40 = omega arith in
    let low : 0 * 2 ^ 40 + p ≡ p = omega arith in
    ap (λ (x : ℕ). bit_or p x) split
    ∙ ap (λ (x : ℕ). bit_or x (n * 2 ^ 11 * 2 ^ 40)) (sym low)
    ∙ bit_or_split_left 40 0 (n * 2 ^ 11) p h
    ∙ omega (arith, bit_or_zero_left (n * 2 ^ 11))

module _ (page_flags : PageFlags) where
  open page_flags use {
    Flags, from_bits_truncate, bits, bits_known, bits_from, contains_lem, bits_present,
    bits_writable, bits_user_accessible, bits_huge_page, bits_union, bits_difference, present,
    writable, user_accessible, huge_page, union, difference,
  }

  bits_lem : (f : Flags) → bits f ≡ bits f % 512 + bits f / 2 ^ 63 % 2 * 2 ^ 63
  bits_lem f = omega (arith, bits_known f, all_bits_lem (bits f))

  pub is_present_lem : (e : ℕ) → is_present page_flags e ≡ (e % 2 == 1)
  unfolding is_present flags
  is_present_lem e =
      contains_lem _ present
      ∙ rw (bits_present, bits_from e, all_bits_lem e)
          (ground (arith, present_bit (e % 512 + e / 2 ^ 63 % 2 * 2 ^ 63)))

  pub is_huge_lem : (e : ℕ) → is_huge page_flags e ≡ (e / 128 % 2 == 1)
  unfolding is_huge flags
  is_huge_lem e =
      contains_lem _ huge_page
      ∙ rw (bits_huge_page, bits_from e, all_bits_lem e)
          (ground (arith, huge_bit (e % 512 + e / 2 ^ 63 % 2 * 2 ^ 63)))

  -- An entry is the sum of its address and its flags.
  entry_of_lem :
      (a : ℕ) (f : Flags) → a % 4096 ≡ 0 → a < 2 ^ 52 → entry_of page_flags a f ≡ a + bits f
  unfolding entry_of
  entry_of_lem a f al small =
      let known : bits f ≡ bits f % 512 + bits f / 2 ^ 63 % 2 * 2 ^ 63 = bits_lem f in
      let address : bit_and a frame_mask ≡ a / 4096 * 2 ^ 12 =
        omega (arith, bit_and_high 12 40 a) in
      let split : bits f ≡ bits f / 2 ^ 63 * 2 ^ 51 * 2 ^ 12 + bits f % 512 =
        omega (arith, known) in
      let low : bit_or (a / 4096 * 2 ^ 12) (bits f / 2 ^ 63 * 2 ^ 51 * 2 ^ 12 + bits f % 512)
          ≡ bit_or (a / 4096) (bits f / 2 ^ 63 * 2 ^ 51) * 2 ^ 12 + bits f % 512 =
        bit_or_split 12 (a / 4096) (bits f / 2 ^ 63 * 2 ^ 51) (bits f % 512) (omega arith) in
      let high : bit_or (a / 4096) (bits f / 2 ^ 63 * 2 ^ 51)
          ≡ bits f / 2 ^ 63 * 2 ^ 51 + a / 4096 =
        high_bits (a / 4096) (bits f / 2 ^ 63) (omega arith) in
      ap (λ (x : ℕ). bit_or x (bits f)) address
      ∙ ap (λ (x : ℕ). bit_or (a / 4096 * 2 ^ 12) x) split
      ∙ low
      ∙ omega (arith, high, al, small, known)

  -- A present entry leads to the frame that it was made from.
  pub frame-entry_of :
      (a : ℕ) (f : Flags)
      → a % 4096 ≡ 0
      → a < 2 ^ 52
      → bits f % 2 ≡ 1
      → frame page_flags (entry_of page_flags a f) ≡ some a
  unfolding frame
  frame-entry_of a f al small p =
      let e : entry_of page_flags a f ≡ a + bits f = entry_of_lem a f al small in
      let here : is_present page_flags (a + bits f) ≡ true =
        is_present_lem (a + bits f) ∙ ground (arith, al, p) in
      let address : bit_and (a + bits f) frame_mask ≡ a =
        omega (arith, bit_and_high 12 40 (a + bits f), bits_lem f, al, small) in
      rw (e, here, address) refl

  pub is_huge-entry_of :
      (a : ℕ) (f : Flags)
      → a % 4096 ≡ 0
      → a < 2 ^ 52
      → bits f / 128 % 2 ≡ 0
      → is_huge page_flags (entry_of page_flags a f) ≡ false
  is_huge-entry_of a f al small p =
      rw (entry_of_lem a f al small) (is_huge_lem (a + bits f) ∙ ground (arith, al, p))

  pub bits-table_flags : bits (table_flags page_flags) ≡ 7
  unfolding table_flags
  bits-table_flags =
      rw
        (
          bits_union (union present writable) user_accessible,
          bits_union present writable,
          bits_present,
          bits_writable,
          bits_user_accessible,
        )
        refl

  pub bits-with_present : (f : Flags) → bits (union f present) % 2 ≡ 1
  bits-with_present f = omega (
    arith,
    bits_union f present,
    bit_or_one (bits f),
    ap (λ (x : ℕ). bit_or (bits f) x) bits_present,
  )

  -- The flags of the small pages of a large one.
  pub bits-without_huge :
      (e : ℕ)
      → is_present page_flags e ≡ true
      → bits (difference (flags page_flags e) huge_page) % 2 ≡ 1
  unfolding flags
  bits-without_huge e p =
      let odd : e % 2 ≡ 1 = ground (arith, is_present_lem e, p) in
      let known : bits (from_bits_truncate e) ≡ e % 512 + e / 2 ^ 63 % 2 * 2 ^ 63 =
        bits_from e ∙ all_bits_lem e in
      let huge : bit_and (bits (from_bits_truncate e)) (bits huge_page)
          ≡ bits (from_bits_truncate e) / 128 % 2 * 128 =
        ap (λ (x : ℕ). bit_and (bits (from_bits_truncate e)) x) bits_huge_page ∙ huge_bit _ in
      omega (arith, bits_difference (from_bits_truncate e) huge_page, huge, known, odd)

  pub frame-zero : frame page_flags 0 ≡ none
  unfolding frame
  frame-zero = let absent : is_present page_flags 0 ≡ false = is_present_lem 0 in rw absent refl

  pub frame-present : (e g : ℕ) → frame page_flags e ≡ some g → is_present page_flags e ≡ true
  unfolding frame
  frame-present e g h = ground (arith, h)
