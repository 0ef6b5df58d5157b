-- ===== src/Net/Pci.antt =====
-- The search of the bus.
use pindos.Base.{
  ℕ, zero, suc, ◌+◌, ◌*◌, ◌/◌, ◌^◌, ◌≤◌, ◌<◌, ◌≡◌, ◌≢◌, refl, Option, none, some, bit_and, bit_or,
  arith, ◌∙◌, ap, sym, ◌==◌, ◌⊎◌, inl, inr, Bool-cases, Option-cases,
}
use mathlib.Core.Path.{subst}
use native.Mathlib.Decide.{ℕ_discrete}
use pindos.Base.Bits.{bit_or_add, bit_and_high}
use pindos.Net.{PciDevice, pci_addr, virtio_net, pci_read32, slot_loop, bus_loop, find_virtio_net}

joined : (k p r x : ℕ) → x ≡ p * 2 ^ k → r < 2 ^ k → bit_or x r ≡ x + r
joined k p r x e h = rw e (bit_or_add k p r h)

-- The fields of an address do not overlap: each function of the bus has its own.
pub pci_addr_lem :
    (bus slot func offset : ℕ)
    → slot < 32
    → func < 8
    → offset < 256
    → bus < 256
    → pci_addr bus slot func offset
      ≡ 2 ^ 31 + bus * 2 ^ 16 + slot * 2 ^ 11 + func * 2 ^ 8 + offset / 4 * 4
unfolding pci_addr
pci_addr_lem bus slot func offset hs hf ho hb =
    let top : bit_or (2 ^ 31) (bus * 2 ^ 16) ≡ 2 ^ 31 + bus * 2 ^ 16 =
      bit_or_add 31 1 (bus * 2 ^ 16) (omega (arith, hb)) in
    let mid : bit_or (2 ^ 31 + bus * 2 ^ 16) (slot * 2 ^ 11)
        ≡ 2 ^ 31 + bus * 2 ^ 16 + slot * 2 ^ 11 =
      joined 16 (2 ^ 15 + bus) (slot * 2 ^ 11) _ (omega arith) (omega (arith, hs)) in
    let low : bit_or (2 ^ 31 + bus * 2 ^ 16 + slot * 2 ^ 11) (func * 2 ^ 8)
        ≡ 2 ^ 31 + bus * 2 ^ 16 + slot * 2 ^ 11 + func * 2 ^ 8 =
      joined 11 ((2 ^ 15 + bus) * 32 + slot) (func * 2 ^ 8) _ (omega arith) (omega (arith, hf)) in
    let mask : bit_and offset 252 ≡ offset / 4 * 4 = omega (arith, bit_and_high 2 6 offset, ho) in
    let last : bit_or (2 ^ 31 + bus * 2 ^ 16 + slot * 2 ^ 11 + func * 2 ^ 8) (offset / 4 * 4)
        ≡ 2 ^ 31 + bus * 2 ^ 16 + slot * 2 ^ 11 + func * 2 ^ 8 + offset / 4 * 4 =
      joined 8 (((2 ^ 15 + bus) * 32 + slot) * 8 + func) (offset / 4 * 4) _ (omega arith)
        (omega (arith, ho)) in
    rw (top, mid, low, mask, last) refl

module _ (config : ℕ → ℕ) where
  -- The function 0 of a slot of a bus is the device.
  abbrev pub IsNet : ℕ → ℕ → Type 0
  IsNet bus slot = pci_read32 config bus slot 0 0 ≡ virtio_net

  -- The first slot from `slot` up to `slot + n` with the device, or none of them.
  abbrev FirstSlot : ℕ → ℕ → ℕ → Option PciDevice → Type 0
  FirstSlot bus slot n none = (s : ℕ) → slot ≤ s → s < slot + n → IsNet bus s → ⊥
  FirstSlot bus slot n (some dev) =
      (dev.bus ≡ bus)
      × (slot ≤ dev.slot)
      × (dev.slot < slot + n)
      × IsNet dev.bus dev.slot
      × ((s : ℕ) → slot ≤ s → s < dev.slot → IsNet bus s → ⊥)

  FirstSlot-more :
      (bus slot n : ℕ) (r : Option PciDevice)
      → (IsNet bus slot → ⊥)
      → FirstSlot bus (slot + 1) n r
      → FirstSlot bus slot (suc n) r
  FirstSlot-more bus slot n none ne f = λ s lo hi is. elim (ℕ_discrete slot s) [
    | yes here ↦ ne (ap (λ k. pci_read32 config bus k 0 0) here ∙ is)
    | no later ↦ f s (omega (arith, lo, later)) (omega (arith, hi)) is
  ]
  FirstSlot-more bus slot n (some dev) ne (b, lo, hi, is, before) = (
    b,
    omega (arith, lo),
    omega (arith, hi),
    is,
    λ s l h at. elim (ℕ_discrete slot s) [
      | yes here ↦ ne (ap (λ k. pci_read32 config bus k 0 0) here ∙ at)
      | no later ↦ before s (omega (arith, l, later)) h at
    ],
  )

  slot_loop-FirstSlot : (n bus slot : ℕ) → FirstSlot bus slot n (slot_loop config n bus slot)
  unfolding slot_loop
  slot_loop-FirstSlot zero bus slot = λ s lo hi is. absurd (omega (arith, lo, hi))
  slot_loop-FirstSlot (suc n) bus slot =
      elim (Bool-cases (pci_read32 config bus slot 0 0 == virtio_net)) [
        | inl found ↦ rw found (
          refl,
          omega arith,
          omega arith,
          ground (arith, found),
          λ s lo hi is. absurd (omega (arith, lo, hi)),
        )
        | inr other ↦ rw other (
            FirstSlot-more bus slot n (slot_loop config n bus (slot + 1))
              (λ is. absurd (ground (arith, other, is))) (slot_loop-FirstSlot n bus (slot + 1)))
      ]

  -- The first device from the bus `bus` up to `bus + n`, by buses and then by slots.
  abbrev pub First : ℕ → ℕ → Option PciDevice → Type 0
  First bus n none = (b s : ℕ) → bus ≤ b → b < bus + n → s < 32 → IsNet b s → ⊥
  First bus n (some dev) =
      (bus ≤ dev.bus)
      × (dev.bus < bus + n)
      × (dev.slot < 32)
      × IsNet dev.bus dev.slot
      × ((b s : ℕ)
          → bus ≤ b
          → s < 32
          → (b < dev.bus) ⊎ ((b ≡ dev.bus) × (s < dev.slot))
          → IsNet b s
          → ⊥)

  First-more :
      (bus n : ℕ) (r : Option PciDevice)
      → ((s : ℕ) → s < 32 → IsNet bus s → ⊥)
      → First (bus + 1) n r
      → First bus (suc n) r
  First-more bus n none ne f = λ b s lo hi low is. elim (ℕ_discrete bus b) [
    | yes here ↦ ne s low (ap (λ k. pci_read32 config k s 0 0) here ∙ is)
    | no later ↦ f b s (omega (arith, lo, later)) (omega (arith, hi)) low is
  ]
  First-more bus n (some dev) ne (lo, hi, low, is, before) = (
    omega (arith, lo),
    omega (arith, hi),
    low,
    is,
    λ b s l h at there. elim (ℕ_discrete bus b) [
      | yes here ↦ ne s h (ap (λ k. pci_read32 config k s 0 0) here ∙ there)
      | no later ↦ before b s (omega (arith, l, later)) h at there
    ],
  )

  First-found :
      (bus n : ℕ) (dev : PciDevice) → FirstSlot bus 0 32 (some dev) → First bus (suc n) (some dev)
  First-found bus n dev (b, lo, hi, is, before) = (
    omega (arith, b),
    omega (arith, b),
    omega (arith, hi),
    is,
    λ c s l h at there. elim at [
      | inl below ↦ absurd (omega (arith, below, b, l))
      | inr (same, earlier) ↦
          before s (omega arith) earlier
            (ap (λ k. pci_read32 config k s 0 0) (sym (same ∙ b)) ∙ there)
    ],
  )

  bus_loop-First : (n bus : ℕ) → First bus n (bus_loop config n bus)
  unfolding bus_loop
  bus_loop-First zero bus = λ b s lo hi low is. absurd (omega (arith, lo, hi))
  bus_loop-First (suc n) bus =
      let slots : FirstSlot bus 0 32 (slot_loop config 32 bus 0) = slot_loop-FirstSlot 32 bus 0 in
      elim (Option-cases (slot_loop config 32 bus 0)) [
        | inl absent ↦
            let empty : FirstSlot bus 0 32 none = subst (FirstSlot bus 0 32) absent slots in
            rw (absent, bus_loop)
              (First-more bus n (bus_loop config n (bus + 1))
                (λ s low is. empty s (omega arith) (omega (arith, low)) is)
                (bus_loop-First n (bus + 1)))
        | inr (dev, found) ↦
            rw (found, bus_loop) (First-found bus n dev (subst (FirstSlot bus 0 32) found slots))
      ]

  -- The first word of the configuration of a slot, and its BAR 0.
  abbrev pub word_of : ℕ → ℕ → ℕ
  word_of bus slot = config (2 ^ 31 + bus * 2 ^ 16 + slot * 2 ^ 11)

  abbrev pub Searched : Option PciDevice → Type 0
  Searched none = (b s : ℕ) → b < 256 → s < 32 → word_of b s ≢ virtio_net
  Searched (some dev) =
      (dev.bus < 256)
      × (dev.slot < 32)
      × (word_of dev.bus dev.slot ≡ virtio_net)
      × ((b s : ℕ)
          → s < 32
          → (b < dev.bus) ⊎ ((b ≡ dev.bus) × (s < dev.slot))
          → word_of b s ≢ virtio_net)

  word_at : (b s : ℕ) → b < 256 → s < 32 → pci_read32 config b s 0 0 ≡ word_of b s
  unfolding pci_read32
  word_at b s hb hs =
      ap config (pci_addr_lem b s 0 0 hs (omega arith) (omega arith) hb ∙ omega arith)

  First-Searched : (r : Option PciDevice) → First 0 256 r → Searched r
  First-Searched none f = λ b s hb hs e. f b s (omega arith) hb hs (word_at b s hb hs ∙ e)
  First-Searched (some dev) (lo, hi, low, is, before) = (
    hi,
    low,
    sym (word_at dev.bus dev.slot hi low) ∙ is,
    λ b s hs at e. before b s (omega arith) hs at (word_at b s (omega (arith, at, hi)) hs ∙ e),
  )

  -- The search answers a slot with the device of which no slot before it, by buses and then by slots, is
  -- one; or it answers none, and no slot of any bus has the device. A slot has it if its word in the
  -- configuration space says so, at 2 ^ 31 + bus * 2 ^ 16 + slot * 2 ^ 11.
  pub find_virtio_net-Searched : Searched (find_virtio_net config)
  unfolding find_virtio_net
  find_virtio_net-Searched = First-Searched (bus_loop config 256 0) (bus_loop-First 256 0)
