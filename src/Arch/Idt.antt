-- ===== src/Arch/Idt.antt =====
-- hammam/src/interrupts.rs: the table of interrupts, as the processor reads it.
use pindos.Base.{
  ℕ, zero, suc, ◌+◌, ◌-◌, ◌*◌, ◌/◌, ◌^◌, ◌≤◌, ◌<◌, ◌≡◌, refl, true, false, bit_and, arith, ◌∙◌, ap,
  sym, ◌==◌, if◌then◌else◌, update, update_self, update_ne, ◌⊎◌, inl, inr,
}
use native.Mathlib.Decide.{ℕ_discrete}
use pindos.Base.Bits.{bit_and_low}

-- An entry of the interrupt table, and the table, by vector; the fields as they are laid out.
pub record IdtEntry : Type 0 where
  pub offset_low : ℕ
  pub selector : ℕ
  pub ist : ℕ
  pub flags : ℕ
  pub offset_mid : ℕ
  pub offset_high : ℕ

abbrev pub Idt : Type 0
Idt = ℕ → IdtEntry

pub idt_entry : ℕ → ℕ → IdtEntry
idt_entry handler ist = record {
  offset_low = bit_and handler (2 ^ 16 - 1);
  selector = 8;
  ist = ist;
  flags = 0xee;
  offset_mid = bit_and (handler / 2 ^ 16) (2 ^ 16 - 1);
  offset_high = bit_and (handler / 2 ^ 32) (2 ^ 32 - 1);
}

-- `for i in 0..256`, with `n` entries left.
pub idt_loop : ℕ → ℕ → ℕ → Idt → Idt
idt_loop zero i handler idt = idt
idt_loop (suc n) i handler idt = idt_loop n (i + 1) handler (update idt i (idt_entry handler 0))

pub init_idt : ℕ → Idt → Idt
init_idt handler idt = idt_loop 256 0 handler idt

pub set_idt_entry : ℕ → ℕ → ℕ → Idt → Idt
set_idt_entry vector handler ist idt = update idt vector (idt_entry handler ist)

-- The address that the processor jumps to.
abbrev pub handler_of : IdtEntry → ℕ
handler_of e = e.offset_low + 2 ^ 16 * e.offset_mid + 2 ^ 32 * e.offset_high

handler_of-idt_entry :
    (handler ist : ℕ) → handler < 2 ^ 64 → handler_of (idt_entry handler ist) ≡ handler
unfolding idt_entry
handler_of-idt_entry handler ist h = omega (
  arith,
  bit_and_low 16 handler,
  bit_and_low 16 (handler / 2 ^ 16),
  bit_and_low 32 (handler / 2 ^ 32),
  h,
)

idt_loop-filled :
    (n i handler : ℕ) (idt : Idt) (v : ℕ)
    → handler < 2 ^ 64
    → ((i ≤ v) × (v < i + n)) ⊎ ((v < i) × (handler_of (idt v) ≡ handler))
    → handler_of (idt_loop n i handler idt v) ≡ handler
unfolding idt_loop
idt_loop-filled zero i handler idt v h (inl (lo, hi)) = absurd (omega (arith, lo, hi))
idt_loop-filled zero i handler idt v h (inr (lo, e)) = e
idt_loop-filled (suc n) i handler idt v h (inl (lo, hi)) = elim (ℕ_discrete i v) [
  | yes here ↦ idt_loop-filled n (i + 1) handler _ v h (
      inr (
        omega (arith, here),
        ap handler_of (
              ap (update idt i (idt_entry handler 0)) (sym here)
              ∙ update_self idt i (idt_entry handler 0))
            ∙ handler_of-idt_entry handler 0 h,
      ))
  | no later ↦
      idt_loop-filled n (i + 1) handler _ v h (inl (omega (arith, lo, later), omega (arith, hi)))
]
idt_loop-filled (suc n) i handler idt v h (inr (lo, e)) = idt_loop-filled n (i + 1) handler _ v h (
    inr (
      omega (arith, lo),
      ap handler_of (update_ne idt i v (idt_entry handler 0) (λ eq. absurd (omega (arith, eq, lo))))
          ∙ e,
    ))

-- Once one vector of the table has been set, every vector leads to the handler that was set for it, and
-- the others to the one that halts.
pub set_idt_entry-handler_of :
    (halt vector handler ist : ℕ) (idt : Idt) (v : ℕ)
    → halt < 2 ^ 64
    → handler < 2 ^ 64
    → v < 256
    → handler_of (set_idt_entry vector handler ist (init_idt halt idt) v)
      ≡ (if v == vector then handler else halt)
unfolding set_idt_entry init_idt
set_idt_entry-handler_of halt vector handler ist idt v hh h low = elim (ℕ_discrete v vector) [
  | yes here ↦
      let test : (v == vector) ≡ true = ground (arith, here) in
      let chosen : (if v == vector then handler else halt) ≡ handler = rw test refl in
      let e : IdtEntry = idt_entry handler ist in
      ap handler_of
        (ap (update (init_idt halt idt) vector e) here ∙ update_self (init_idt halt idt) vector e)
      ∙ handler_of-idt_entry handler ist h
      ∙ sym chosen
  | no other ↦
      let test : (v == vector) ≡ false = ground (arith, other) in
      let chosen : (if v == vector then handler else halt) ≡ halt = rw test refl in
      ap handler_of
        (update_ne (init_idt halt idt) vector v (idt_entry handler ist) (λ e. other (sym e)))
      ∙ idt_loop-filled 256 0 halt idt v hh (inl (omega arith, omega (arith, low)))
      ∙ sym chosen
]
