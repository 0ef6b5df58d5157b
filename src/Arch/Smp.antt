-- ===== src/Arch/Smp.antt =====
-- hammam/src/smp/mod.rs and `send_icr` of hammam/src/arch/x86_64/apic.rs: the start of the other
-- processors. The writes to the local APIC are a list, in order; its readiness is awaited by the code
-- and left out here. `stack_of` is the address of the stack that the heap hands out for a processor.
use pindos.Base.{
  ℕ, zero, suc, ◌+◌, ◌*◌, ◌/◌, ◌%◌, ◌^◌, ◌≤◌, ◌<◌, ◌≡◌, refl, Bool, true, false, not, ◌&&◌, Option,
  none, some, List, [], ◌∷◌, ◌++◌, bit_and, bit_or, arith, ◌∙◌, ap, sym, ltb, leb, ◌==◌,
  if◌then◌else◌, update, Bool-cases, inl, inr, Option-cases,
}
use mathlib.Core.List.{append_assoc, append-nil}
use native.Mathlib.Decide.{ℕ_discrete, dec_lt}
use pindos.Base.Bits.{bit_and_low}
use pindos.Acpi.{Bytes, LocalApic, Madt, next_local}
use pindos.Acpi.Entries.{collect, local_items, collect-items}

abbrev pub max_cpus : ℕ
max_cpus = 16

abbrev pub stack_size : ℕ
stack_size = 16384

abbrev pub ap_trampoline_phys : ℕ
ap_trampoline_phys = 0x8000

-- A write to a register of the local APIC.
pub record LapicWrite : Type 0 where
  pub offset : ℕ
  pub value : ℕ

pub record PerCpuData : Type 0 where
  pub cpu_id : ℕ
  pub stack_top : ℕ

pub record Cpus : Type 0 where
  pub writes : List LapicWrite
  pub per_cpu_data : ℕ → PerCpuData
  pub ap_stacks : ℕ → ℕ

pub send_icr : ℕ → ℕ → Cpus → Cpus
send_icr dest low s = record s {
  writes =
      s.writes
      ++ record { offset = 0x310; value = dest * 2 ^ 24 % 2 ^ 32 }
        ∷ record { offset = 0x300; value = low }
        ∷ [];
}

pub send_init_ipi : ℕ → Cpus → Cpus
send_init_ipi apic_id s = send_icr apic_id (bit_or (bit_or 0x500 (2 ^ 14)) (2 ^ 15)) s

pub send_startup_ipi : ℕ → Cpus → Cpus
send_startup_ipi apic_id s =
    send_icr apic_id (bit_or (bit_and (ap_trampoline_phys / 2 ^ 12) 255) 0x600) s

some-injective : {A : Type 0} {x y : A} → some x ≡ some y → x ≡ y
some-injective e = cc e

module _ (stack_of : ℕ → ℕ) where
  -- `Ok(())` is true.
  pub start_ap : ℕ → Cpus → Bool × Cpus
  start_ap apic_id s = if leb max_cpus apic_id then (false, s) else (
    true,
    send_startup_ipi apic_id (
        send_startup_ipi apic_id (
          send_init_ipi apic_id (record s {
            ap_stacks = update s.ap_stacks apic_id (stack_of apic_id);
            per_cpu_data = update s.per_cpu_data apic_id (record {
              cpu_id = apic_id;
              stack_top = (stack_of apic_id + stack_size) / 16 * 16;
            });
          }))),
  )

  -- One round of the loop: the processor is passed over, or started.
  pub consider : ℕ → LocalApic → Cpus → Cpus
  consider bsp_id local s =
      if bit_and local.flags 1 == 0
      then s
      else if local.apic_id == bsp_id
      then s
      else (start_ap local.apic_id s).1

  -- `for local in madt.local_apics()`, where `next` is the iterator's step.
  pub ap_loop : (ℕ → Option (Option LocalApic × ℕ)) → ℕ → ℕ → ℕ → Cpus → Option Cpus
  ap_loop next zero offset bsp_id s = none
  ap_loop next (suc n) offset bsp_id s = elim (next offset) [
    | none ↦ none
    | some (none, _) ↦ some s
    | some (some local, offset') ↦ ap_loop next n offset' bsp_id (consider bsp_id local s)
  ]

  -- `init_aps` for a table; `fuel` is for the iterator.
  pub init_aps : Bytes → ℕ → ℕ → Madt → Cpus → Option Cpus
  init_aps memory fuel bsp_id madt s =
      ap_loop (next_local memory madt fuel) (madt.entries_len + 2) 0 bsp_id s

  abbrev considered_all : ℕ → List LocalApic → Cpus → Cpus
  considered_all bsp_id [] s = s
  considered_all bsp_id (local ∷ rest) s = considered_all bsp_id rest (consider bsp_id local s)

  ap_loop-considered_all :
      (next : ℕ → Option (Option LocalApic × ℕ)) (n offset bsp_id : ℕ) (s : Cpus)
      (locals : List LocalApic)
      → collect next n offset ≡ some locals
      → ap_loop next n offset bsp_id s ≡ some (considered_all bsp_id locals s)
  unfolding collect ap_loop
  ap_loop-considered_all next zero offset bsp_id s locals e = absurd (cc (e))
  ap_loop-considered_all next (suc n) offset bsp_id s locals e = elim (Option-cases (next offset)) [
    | inl out ↦ absurd (cc (rw (out, collect) at e))
    | inr ((none, o'), found) ↦
        let e' : some [] ≡ some locals = rw (found, collect) at e in
        rw (found, ap_loop) (ap (λ l. some (considered_all bsp_id l s)) (some-injective e'))
    | inr ((some local, o'), found) ↦ elim (Option-cases (collect next n o')) [
      | inl out ↦ absurd (cc (rw (found, collect, out) at e))
      | inr (others, run) ↦
          let e' : some (local ∷ others) ≡ some locals = rw (found, collect, run) at e in
          rw (found, ap_loop)
            (ap_loop-considered_all next n o' bsp_id (consider bsp_id local s) others run
              ∙ ap (λ l. some (considered_all bsp_id l s)) (some-injective e'))
    ]
  ]

  -- A processor that is enabled, is not the one that runs, and has a number below 16.
  abbrev pub starts : ℕ → LocalApic → Bool
  starts bsp_id local =
      (local.flags % 2 == 1) && not (local.apic_id == bsp_id) && ltb local.apic_id 16

  -- INIT, then twice the startup message with the page of the trampoline, 8.
  abbrev pub messages : ℕ → List LapicWrite
  messages id =
      record { offset = 0x310; value = id * 2 ^ 24 }
      ∷ record { offset = 0x300; value = 0xc500 }
      ∷ record { offset = 0x310; value = id * 2 ^ 24 }
      ∷ record { offset = 0x300; value = 0x608 }
      ∷ record { offset = 0x310; value = id * 2 ^ 24 }
      ∷ record { offset = 0x300; value = 0x608 }
      ∷ []

  abbrev pub all_messages : ℕ → List LocalApic → List LapicWrite
  all_messages bsp_id [] = []
  all_messages bsp_id (local ∷ rest) =
      let later = all_messages bsp_id rest in
      if starts bsp_id local then messages local.apic_id ++ later else later

  start_ap-messages :
      (id : ℕ) (s : Cpus) → id < 16 → (start_ap id s).1.writes ≡ s.writes ++ messages id
  unfolding start_ap send_startup_ipi send_init_ipi send_icr
  start_ap-messages id s h =
      let test : leb max_cpus id ≡ false = ground (arith, h) in
      let dest : id * 2 ^ 24 % 2 ^ 32 ≡ id * 2 ^ 24 = omega (arith, h) in
      rw (test, dest) (simp append_assoc refl)

  start_ap_refused : (id : ℕ) (s : Cpus) → 16 ≤ id → (start_ap id s).1 ≡ s
  unfolding start_ap
  start_ap_refused id s h = let test : leb max_cpus id ≡ true = ground (arith, h) in rw test refl

  abbrev its_messages : ℕ → LocalApic → List LapicWrite
  its_messages bsp_id local = if starts bsp_id local then messages local.apic_id else []

  consider-messages :
      (bsp_id : ℕ) (local : LocalApic) (s : Cpus)
      → (consider bsp_id local s).writes ≡ s.writes ++ its_messages bsp_id local
  unfolding consider
  consider-messages bsp_id local s =
      let low : bit_and local.flags 1 ≡ local.flags % 2 = bit_and_low 1 local.flags in
      elim (ℕ_discrete (local.flags % 2) 1) [
        | no off ↦
            let test : (bit_and local.flags 1 == 0) ≡ true = ground (arith, low, off) in
            let not_on : (local.flags % 2 == 1) ≡ false = ground (arith, off) in
            rw (test, not_on) (sym (append-nil s.writes))
        | yes on ↦
            let test : (bit_and local.flags 1 == 0) ≡ false = ground (arith, low, on) in
            let is_on : (local.flags % 2 == 1) ≡ true = ground (arith, on) in
            elim (Bool-cases (local.apic_id == bsp_id)) [
              | inl own ↦ rw (test, is_on, own) (sym (append-nil s.writes))
              | inr other ↦ elim (dec_lt local.apic_id 16) [
                | yes small ↦
                    let in_range : ltb local.apic_id 16 ≡ true = ground (arith, small) in
                    rw (test, is_on, other, in_range) (start_ap-messages local.apic_id s small)
                | no large ↦
                    let out_of_range : ltb local.apic_id 16 ≡ false = ground (arith, large) in
                    rw (test, is_on, other, out_of_range)
                      (ap (λ (c : Cpus). c.writes)
                          (start_ap_refused local.apic_id s (omega (arith, large)))
                        ∙ sym (append-nil s.writes))
              ]
            ]
      ]

  all_messages-cons :
      (bsp_id : ℕ) (local : LocalApic) (rest : List LocalApic)
      → its_messages bsp_id local ++ all_messages bsp_id rest ≡ all_messages bsp_id (local ∷ rest)
  all_messages-cons bsp_id local rest = elim (Bool-cases (starts bsp_id local)) [
    | inl yes_it ↦ rw yes_it refl
    | inr not_it ↦ rw not_it refl
  ]

  considered_all-messages :
      (bsp_id : ℕ) (locals : List LocalApic) (s : Cpus)
      → (considered_all bsp_id locals s).writes ≡ s.writes ++ all_messages bsp_id locals
  considered_all-messages bsp_id [] s = sym (append-nil s.writes)
  considered_all-messages bsp_id (local ∷ rest) s =
      considered_all-messages bsp_id rest (consider bsp_id local s)
      ∙ ap (λ w. w ++ all_messages bsp_id rest) (consider-messages bsp_id local s)
      ∙ append_assoc s.writes (its_messages bsp_id local) (all_messages bsp_id rest)
      ∙ ap (λ w. s.writes ++ w) (all_messages-cons bsp_id local rest)

  -- With fuel for every byte of the entries, the start of the processors returns, and has sent exactly
  -- this, in the order of the table: INIT and two startup messages to each processor of the table that
  -- is enabled, is not the one that runs, and has a number below 16; to the others nothing.
  pub init_aps-messages :
      (memory : Bytes) (fuel bsp_id : ℕ) (madt : Madt) (s : Cpus)
      → madt.entries_len < fuel
      → (t : Cpus) × (init_aps memory fuel bsp_id madt s ≡ some t)
        × (t.writes ≡ s.writes ++ all_messages bsp_id (local_items memory madt))
  unfolding init_aps
  init_aps-messages memory fuel bsp_id madt s h = (
    considered_all bsp_id (local_items memory madt) s,
    ap_loop-considered_all (next_local memory madt fuel) (madt.entries_len + 2) 0 bsp_id s
        (local_items memory madt) (collect-items memory madt fuel h).0,
    considered_all-messages bsp_id (local_items memory madt) s,
  )
