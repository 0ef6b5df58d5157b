-- ===== src/Loader/Program/Relocate.antt =====
-- The relocations, against the entries that the memory holds at first.
use pindos.Base.{
  ℕ, zero, suc, ◌+◌, ◌-◌, ◌/◌, ◌%◌, ◌^◌, ◌≤◌, ◌<◌, ◌≡◌, refl, true, false, bit_and, Option, none,
  some, List, ◌∷◌, arith, ◌∙◌, ap, sym, ◌==◌, length,
}
use mathlib.Core.Path.{subst}
use pindos.Base.Bits.{bit_and_low}
use pindos.Mm.Buddy.{add64}
use pindos.Mm.Paging.{PageFlags}
use pindos.Loader.{load_byte, is_refused, Space, ok, byte_at, copy}
use pindos.Loader.Store.{address_limit}
use pindos.Loader.Program.{from_ne_bytes, to_ne_bytes, read_bytes, read_u64, relocate}

-- An entry as the memory holds it: where it applies, its kind and its addend.
pub record Entry : Type 0 where
  pub r_offset : ℕ
  pub r_info : ℕ
  pub r_addend : ℕ

-- R_X86_64_RELATIVE
abbrev pub IsRelative : Entry → Type 0
IsRelative e = e.r_info % 2 ^ 32 ≡ 8

pub length-to_ne_bytes : (n v : ℕ) → length (to_ne_bytes n v) ≡ n
length-to_ne_bytes zero v = refl
length-to_ne_bytes (suc n) v = ap suc (length-to_ne_bytes n (v / 256))

-- A byte before those that follow.
abbrev joined : Option ℕ → Option (List ℕ) → Option (List ℕ)
joined first rest = elim first [
  | none ↦ none
  | some b ↦ elim rest [ none ↦ none | some bs ↦ some (b ∷ bs) ]
]

module _ (page_flags : PageFlags) (pml4 : ℕ) where
  -- Equal bytes are read alike.
  read_bytes-same :
      (n v : ℕ) (s s' : Space)
      → v + n < address_limit
      → ((k : ℕ) → v ≤ k → k < v + n → byte_at page_flags pml4 s' k ≡ byte_at page_flags pml4 s k)
      → read_bytes page_flags pml4 false n s' v ≡ read_bytes page_flags pml4 false n s v
  unfolding read_bytes load_byte is_refused
  read_bytes-same zero v s s' h same = refl
  read_bytes-same (suc n) v s s' h same =
      let next : add64 v 1 ≡ v + 1 = omega (arith, h) in
      let rest : read_bytes page_flags pml4 false n s' (v + 1)
          ≡ read_bytes page_flags pml4 false n s (v + 1) =
        read_bytes-same n (v + 1) s s' (omega (arith, h))
          (λ k lo hi. same k (omega (arith, lo)) (omega (arith, hi))) in
      let after : read_bytes page_flags pml4 false n s' (add64 v 1)
          ≡ read_bytes page_flags pml4 false n s (add64 v 1) =
        subst
          (λ a. read_bytes page_flags pml4 false n s' a ≡ read_bytes page_flags pml4 false n s a)
          (sym next) rest in
      ap (λ (b : Option ℕ). joined b (read_bytes page_flags pml4 false n s' (add64 v 1)))
        (same v (omega arith) (omega arith))
      ∙ ap (joined (byte_at page_flags pml4 s v)) after

  -- The eight bytes at an address, as a number.
  abbrev pub Holds : Space → ℕ → ℕ → Type 0
  Holds s v x =
      (bs : List ℕ) × (read_bytes page_flags pml4 false 8 s v ≡ some bs) × (from_ne_bytes bs ≡ x)

  pub Holds-same :
      (v x : ℕ) (s s' : Space)
      → v + 8 < address_limit
      → ((k : ℕ) → v ≤ k → k < v + 8 → byte_at page_flags pml4 s' k ≡ byte_at page_flags pml4 s k)
      → Holds s v x
      → Holds s' v x
  Holds-same v x s s' h same (bs, run, e) = (bs, read_bytes-same 8 v s s' h same ∙ run, e)

  read_u64-Holds :
      (v x : ℕ) (s : Space) → Holds s v x → read_u64 page_flags pml4 false s v ≡ (ok x, s)
  unfolding read_u64
  read_u64-Holds v x s (bs, run, e) = rw (run, read_u64, e) refl

  abbrev pub HoldsEntry : Space → ℕ → Entry → Type 0
  HoldsEntry s a e = Holds s a e.r_offset × Holds s (a + 8) e.r_info × Holds s (a + 16) e.r_addend

  -- The kind is the low half of the info.
  low_half : (x : ℕ) → bit_and x (2 ^ 32 - 1) ≡ x % 2 ^ 32
  low_half x = bit_and_low 32 x

  -- Where an entry that is `delta` further on writes, and what.
  abbrev pub target : ℕ → Entry → ℕ
  target delta e = e.r_offset + delta

  abbrev pub value : ℕ → Entry → ℕ
  value delta e = (e.r_addend + delta) % 2 ^ 64

  pub relocate_other :
      (delta a : ℕ) (s : Space) (e : Entry)
      → a + 24 < address_limit
      → HoldsEntry s a e
      → (IsRelative e → ⊥)
      → relocate page_flags pml4 false delta a s ≡ (ok tt, s)
  unfolding relocate
  relocate_other delta a s e h (offset, info, addend) ne =
      let second : add64 a 8 ≡ a + 8 = omega (arith, h) in
      let third : add64 a 16 ≡ a + 16 = omega (arith, h) in
      let test : (bit_and e.r_info (2 ^ 32 - 1) == 8) ≡ false =
        ground (arith, low_half e.r_info, λ (x : e.r_info % 2 ^ 32 ≡ 8). ne x) in
      rw
        (
          second,
          third,
          read_u64-Holds a e.r_offset s offset,
          read_u64-Holds (a + 8) e.r_info s info,
          read_u64-Holds (a + 16) e.r_addend s addend,
          test,
        )
        refl

  pub relocate_relative :
      (delta a : ℕ) (s : Space) (e : Entry)
      → a + 24 < address_limit
      → HoldsEntry s a e
      → IsRelative e
      → target delta e < address_limit
      → relocate page_flags pml4 false delta a s
        ≡ copy page_flags pml4 false (to_ne_bytes 8 (value delta e)) (target delta e) s
  unfolding relocate
  relocate_relative delta a s e h (offset, info, addend) is low =
      let second : add64 a 8 ≡ a + 8 = omega (arith, h) in
      let third : add64 a 16 ≡ a + 16 = omega (arith, h) in
      let test : (bit_and e.r_info (2 ^ 32 - 1) == 8) ≡ true =
        ground (arith, low_half e.r_info, is) in
      let place : add64 e.r_offset delta ≡ target delta e = omega (arith, low) in
      rw
        (
          second,
          third,
          read_u64-Holds a e.r_offset s offset,
          read_u64-Holds (a + 8) e.r_info s info,
          read_u64-Holds (a + 16) e.r_addend s addend,
          test,
          place,
        )
        refl
