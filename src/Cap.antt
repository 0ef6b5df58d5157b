-- ===== src/Cap.antt =====
-- hammam/src/cap/mod.rs: capabilities and the capability table of a process.
-- `Rights` is generated by the crate bitflags: its type and its operations are
-- parameters, with what the crate documents of them.
pub mod Table
pub mod Rights
pub mod Tests
use pindos.Base.{
  ℕ, ◌%◌, ◌^◌, ◌≡◌, Bool, true, false, Option, none, some, List, [], ◌∷◌, ◌++◌, length, get_elem?,
  set, ◌==◌, ◌&&◌, ◌↔◌, ◌+◌,
}

pub data Right : Type 0 where
  read write exec grant : Right

pub record Bitflags : Type 1 where
  pub Flags : Type 0
  pub is_set : Flags → Right → Bool
  pub intersection : Flags → Flags → Flags
  pub contains : Flags → Flags → Bool
  pub is_set-intersection :
      (a b : Flags) (r : Right) → is_set (intersection a b) r ≡ (is_set a r && is_set b r)
  -- All flags of `b` are in `a`.
  pub contains_iff :
      (a b : Flags) → (contains a b ≡ true) ↔ ((r : Right) → is_set b r ≡ true → is_set a r ≡ true)

pub data CapKind : Type 0 where
  memory irq_handler io_port process : CapKind

pub record Capability (R : Type 0) : Type 0 where
  pub kind : CapKind
  pub rights : R
  pub object_id : ℕ

pub record CapTable (R : Type 0) : Type 0 where
  pub entries : List (Option (Capability R))

module _ {R : Type 0} where
  pub new : CapTable R
  new = record { entries = [] }

  -- The handle is `idx as u32`.
  pub insert : CapTable R → Capability R → CapTable R × ℕ
  insert t cap = (record { entries = t.entries ++ some cap ∷ [] }, length t.entries % 2 ^ 32)

  -- `?` and `as_ref`
  abbrev pub flatten : Option (Option (Capability R)) → Option (Capability R)
  flatten none = none
  flatten (some slot) = slot

  pub get : CapTable R → ℕ → Option (Capability R)
  get t handle = flatten (get_elem? t.entries handle)

  -- The reference is what it reads and what a write through it leaves.
  pub get_mut : CapTable R → ℕ → Option (Capability R × (Capability R → CapTable R))
  get_mut t handle = elim (get_elem? t.entries handle) [
    | none ↦ none
    | some none ↦ none
    | some (some cap) ↦ some (cap, λ c. record { entries = set t.entries handle (some c) })
  ]

  pub revoke : CapTable R → ℕ → CapTable R
  revoke t handle = elim (get_elem? t.entries handle) [
    | none ↦ t
    | some slot ↦ record { entries = set t.entries handle none }
  ]

  -- `self.entries.iter().filter(|e| e.is_some()).count()`
  pub occupied : List (Option (Capability R)) → ℕ
  occupied [] = 0
  occupied (none ∷ rest) = occupied rest
  occupied (some cap ∷ rest) = 1 + occupied rest

  pub len : CapTable R → ℕ
  len t = occupied t.entries

  pub is_empty : CapTable R → Bool
  is_empty t = len t == 0

module _ (flags : Bitflags) where
  pub check_rights : CapTable flags.Flags → ℕ → flags.Flags → Bool
  check_rights t handle required = elim (get t handle) [
    | some cap ↦ flags.contains cap.rights required
    | none ↦ false
  ]

  pub attenuate : Capability flags.Flags → flags.Flags → Capability flags.Flags
  attenuate cap new_rights = record cap { rights = flags.intersection cap.rights new_rights }
