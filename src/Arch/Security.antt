-- ===== src/Arch/Security.antt =====
-- hammam/src/security/mod.rs: the protections that the kernel switches on.
-- The registers are a record. `leaf07_ebx` and `leaf01_ecx` are the words of CPUID, `rand` what RDRAND
-- leaves; the warnings and the start of the floating point unit are left out.
use pindos.Base.{
  ℕ, ◌+◌, ◌-◌, ◌*◌, ◌/◌, ◌%◌, ◌^◌, ◌<◌, ◌≡◌, refl, Bool, true, false, not, ◌&&◌, bit_and, bit_or,
  arith, ◌∙◌, ap, sym, ◌==◌, if◌then◌else◌, Bool-cases, inl, inr,
}
use native.Mathlib.Decide.{ℕ_discrete}
use native.Mathlib.Nat.{one-le-pow}
use pindos.Base.Bits.{bit_and_high, bit_or_split_left, bit_or_one}

pub record Registers : Type 0 where
  pub cr4 : ℕ
  pub mxcsr : ℕ
  pub efer : ℕ
  pub spec_ctrl : ℕ
  pub stack_canary : ℕ

-- `0x00FF_FFFF_FFF0_0000`
pub kaslr_offset : ℕ → ℕ
kaslr_offset rand = bit_and rand ((2 ^ 36 - 1) * 2 ^ 20)

-- `(x & (1 << k)) != 0`
abbrev has_bit : ℕ → ℕ → Bool
has_bit x k = not (bit_and x (2 ^ k) == 0)

pub enable_smep_smap : ℕ → Registers → Registers
enable_smep_smap leaf07_ebx r =
    let has_smep = has_bit leaf07_ebx 7 in
    let has_smap = has_bit leaf07_ebx 20 in
    let with_smep = if has_smep then bit_or r.cr4 (2 ^ 20) else r.cr4 in
    let new_cr4 = if has_smap then bit_or with_smep (2 ^ 21) else with_smep in
    if not has_smep && not has_smap
    then r
    else if new_cr4 == r.cr4
    then r
    else record r { cr4 = new_cr4 }

pub enable_sse : Registers → Registers
enable_sse r =
    let new_cr4 = bit_or (bit_or r.cr4 (2 ^ 9)) (2 ^ 10) in
    record r { cr4 = if new_cr4 == r.cr4 then r.cr4 else new_cr4; mxcsr = 0x1f80 }

-- A model specific register is read and written in halves of 32 bits.
pub enable_nx : Registers → Registers
enable_nx r = record r { efer = bit_or r.efer (2 ^ 11) }

abbrev pub fallback_canary : ℕ
fallback_canary = 0xdeadbeefcafebabe

pub init_canary : ℕ → ℕ → Registers → Registers
init_canary leaf01_ecx rand r = record r {
  stack_canary = if has_bit leaf01_ecx 30 then rand else fallback_canary;
}

pub enable_spectre_mitigations : Registers → Registers
enable_spectre_mitigations r = record r { spec_ctrl = bit_or r.spec_ctrl (2 ^ 0) }

pub enable_stibp : Registers → Registers
enable_stibp r = record r { spec_ctrl = bit_or r.spec_ctrl (2 ^ 1) }

pub init_all : ℕ → ℕ → ℕ → Registers → Registers
init_all leaf07_ebx leaf01_ecx rand r = enable_stibp (
    enable_spectre_mitigations
      (init_canary leaf01_ecx rand (enable_nx (enable_smep_smap leaf07_ebx r))))

-- The number with its bit `k` set, and whether it is.
abbrev pub bit_at : ℕ → ℕ → ℕ
bit_at k x = x / 2 ^ k % 2

abbrev pub with_bit : ℕ → ℕ → ℕ
with_bit k x = if bit_at k x == 1 then x else x + 2 ^ k

-- The union with one bit, by the digits above it and the number below it.
bit_or_at :
    (k p r x : ℕ) → x ≡ p * 2 ^ k + r → r < 2 ^ k → bit_or x (2 ^ k) ≡ bit_or p 1 * 2 ^ k + r
bit_or_at k p r x e h =
    let one : 2 ^ k ≡ 1 * 2 ^ k = omega arith in
    ap (λ (y : ℕ). bit_or y (2 ^ k)) e
    ∙ ap (bit_or (p * 2 ^ k + r)) one
    ∙ bit_or_split_left k p 1 r h

set_bit : (k x : ℕ) → bit_or x (2 ^ k) ≡ with_bit k x
set_bit k x =
    let p : ℕ = x / 2 ^ k in
    let r : ℕ = x % 2 ^ k in
    let some_bits : 0 < 2 ^ k = one-le-pow k 2 (omega arith) in
    let parts : x ≡ p * 2 ^ k + r = grind arith in
    let sum : bit_or x (2 ^ k) ≡ bit_or p 1 * 2 ^ k + r = bit_or_at k p r x parts (grind arith) in
    elim (ℕ_discrete (p % 2) 1) [
      | yes odd ↦
          let test : (p % 2 == 1) ≡ true = ground (arith, odd) in
          let same : bit_or p 1 ≡ p = omega (arith, bit_or_one p, odd) in
          rw test (sum ∙ ap (λ (y : ℕ). y * 2 ^ k + r) same ∙ sym parts)
      | no even ↦
          let test : (p % 2 == 1) ≡ false = ground (arith, even) in
          let next : bit_or p 1 ≡ p + 1 = omega (arith, bit_or_one p, even) in
          let more : (p + 1) * 2 ^ k ≡ p * 2 ^ k + 2 ^ k = grind arith in
          rw test (sum ∙ ap (λ (y : ℕ). y * 2 ^ k + r) next ∙ omega (arith, more, parts))
    ]

has_bit-bit_at : (x k : ℕ) → has_bit x k ≡ (bit_at k x == 1)
has_bit-bit_at x k =
    let one : (2 ^ 1 - 1) * 2 ^ k ≡ 2 ^ k = omega arith in
    let masked : bit_and x (2 ^ k) ≡ bit_at k x * 2 ^ k =
      ap (bit_and x) (sym one) ∙ bit_and_high k 1 x in
    let some_bits : 0 < 2 ^ k = one-le-pow k 2 (omega arith) in
    elim (ℕ_discrete (bit_at k x) 1) [
      | yes here ↦
          let e : bit_and x (2 ^ k) ≡ 2 ^ k =
            masked ∙ ap (λ (y : ℕ). y * 2 ^ k) here ∙ omega arith in
          ground (arith, e, here, some_bits)
      | no absent ↦
          let clear : bit_at k x ≡ 0 = omega (arith, absent) in
          let e : bit_and x (2 ^ k) ≡ 0 = masked ∙ ap (λ (y : ℕ). y * 2 ^ k) clear ∙ omega arith in
          ground (arith, e, absent)
    ]

-- The registers with every protection that the processor has.
abbrev pub protected : ℕ → ℕ → ℕ → Registers → Registers
protected leaf07_ebx leaf01_ecx rand r = record r {
  cr4 =
      (let with_smep = if bit_at 7 leaf07_ebx == 1 then with_bit 20 r.cr4 else r.cr4 in
        if bit_at 20 leaf07_ebx == 1 then with_bit 21 with_smep else with_smep);
  efer = with_bit 11 r.efer;
  spec_ctrl = with_bit 1 (with_bit 0 r.spec_ctrl);
  stack_canary = if bit_at 30 leaf01_ecx == 1 then rand else fallback_canary;
}

-- A register that would not change is not written.
written :
    (r : Registers) (v : ℕ)
    → (if v == r.cr4 then r else record r { cr4 = v }) ≡ record r { cr4 = v }
written r v = elim (ℕ_discrete v r.cr4) [
  | yes same ↦
      let test : (v == r.cr4) ≡ true = ground (arith, same) in
      ap (λ (b : Bool). if b then r else record r { cr4 = v }) test
      ∙ ap (λ (c : ℕ). record r { cr4 = c }) (sym same)
  | no other ↦
      let test : (v == r.cr4) ≡ false = ground (arith, other) in
      ap (λ (b : Bool). if b then r else record r { cr4 = v }) test
]

enable_smep_smap_lem :
    (leaf07_ebx : ℕ) (r : Registers)
    → enable_smep_smap leaf07_ebx r ≡ record r {
      cr4 =
          (let with_smep = if bit_at 7 leaf07_ebx == 1 then with_bit 20 r.cr4 else r.cr4 in
            if bit_at 20 leaf07_ebx == 1 then with_bit 21 with_smep else with_smep);
    }
unfolding enable_smep_smap
enable_smep_smap_lem leaf07_ebx r =
    let smep : has_bit leaf07_ebx 7 ≡ (bit_at 7 leaf07_ebx == 1) = has_bit-bit_at leaf07_ebx 7 in
    let smap : has_bit leaf07_ebx 20 ≡ (bit_at 20 leaf07_ebx == 1) = has_bit-bit_at leaf07_ebx 20 in
    elim (Bool-cases (bit_at 7 leaf07_ebx == 1)) [
      | inl h7 ↦ elim (Bool-cases (bit_at 20 leaf07_ebx == 1)) [
        | inl h20 ↦
            rw (smep, smap, h7, h20)
              (written r (bit_or (bit_or r.cr4 (2 ^ 20)) (2 ^ 21))
                ∙ ap (λ (c : ℕ). record r { cr4 = c })
                    (set_bit 21 (bit_or r.cr4 (2 ^ 20)) ∙ ap (with_bit 21) (set_bit 20 r.cr4)))
        | inr h20 ↦
            rw (smep, smap, h7, h20)
              (written r (bit_or r.cr4 (2 ^ 20))
                ∙ ap (λ (c : ℕ). record r { cr4 = c }) (set_bit 20 r.cr4))
      ]
      | inr h7 ↦ elim (Bool-cases (bit_at 20 leaf07_ebx == 1)) [
        | inl h20 ↦
            rw (smep, smap, h7, h20)
              (written r (bit_or r.cr4 (2 ^ 21))
                ∙ ap (λ (c : ℕ). record r { cr4 = c }) (set_bit 21 r.cr4))
        | inr h20 ↦ rw (smep, smap, h7, h20) refl
      ]
    ]

-- `init_all` sets NXE in EFER and both bits of SPEC_CTRL, in CR4 the bits 20 and 21 where CPUID has them,
-- and the canary to the random number, or to the fallback without RDRAND; it leaves all other bits.
pub init_all-protected :
    (leaf07_ebx leaf01_ecx rand : ℕ) (r : Registers)
    → init_all leaf07_ebx leaf01_ecx rand r ≡ protected leaf07_ebx leaf01_ecx rand r
unfolding init_all enable_stibp enable_spectre_mitigations init_canary enable_nx
init_all-protected leaf07_ebx leaf01_ecx rand r =
    let canary : has_bit leaf01_ecx 30 ≡ (bit_at 30 leaf01_ecx == 1) =
      has_bit-bit_at leaf01_ecx 30 in
    rw
      (
        canary,
        enable_smep_smap_lem leaf07_ebx r,
        set_bit 11 r.efer,
        set_bit 0 r.spec_ctrl,
        set_bit 1 (with_bit 0 r.spec_ctrl),
      )
      refl

-- The offset is a multiple of 1 MiB, and a multiple of 2 MiB exactly where bit 20 of the random number is
-- clear.
pub kaslr_offset-aligned :
    (rand : ℕ)
    → (kaslr_offset rand % 2 ^ 20 ≡ 0) × (kaslr_offset rand % 2 ^ 21 ≡ bit_at 20 rand * 2 ^ 20)
unfolding kaslr_offset
kaslr_offset-aligned rand =
    (omega (arith, bit_and_high 20 36 rand), omega (arith, bit_and_high 20 36 rand))
