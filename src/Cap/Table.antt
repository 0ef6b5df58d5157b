-- ===== src/Cap/Table.antt =====
-- The capability table: handles are stable, and a revoked handle stays dead.
use pindos.Base.{
  ℕ, suc, ◌+◌, ◌%◌, ◌^◌, ◌<◌, ◌≡◌, refl, ◌≢◌, Option, none, some, List, [], ◌∷◌, arith, length,
  get_elem?, set, length-append, get_elem?-set_self, get_elem?-set_ne, get_elem?-append_left,
  get_elem?-append_last, get_elem?_beyond, set-none, inl, inr, sym, ap, ◌∙◌, ltb, Bool-cases,
  ltb→lt,
}
use mathlib.Core.Path.{subst}
use native.Mathlib.Decide.{ℕ_discrete}
use pindos.Cap.{Capability, CapTable, flatten, insert, get, get_mut, revoke}

-- What the mutators do to a table; a write goes through `get_mut`.
pub data Action (R : Type 0) : Type 0 where
  inserted : Capability R → Action R
  revoked : ℕ → Action R
  written : ℕ → Capability R → Action R

module _ {R : Type 0} where
  abbrev pub perform : Action R → CapTable R → CapTable R
  perform (inserted cap) t = (insert t cap).0
  perform (revoked handle) t = revoke t handle
  perform (written handle cap) t = elim (get_mut t handle) [
    | none ↦ t
    | some (_, write) ↦ write cap
  ]

  abbrev pub perform_all : List (Action R) → CapTable R → CapTable R
  perform_all [] t = t
  perform_all (a ∷ rest) t = perform_all rest (perform a t)

  -- The slot of an index.
  abbrev slot : CapTable R → ℕ → Option (Option (Capability R))
  slot t h = get_elem? t.entries h

  get-slot : (t u : CapTable R) (h : ℕ) → slot t h ≡ slot u h → get t h ≡ get u h
  unfolding get
  get-slot t u h e = ap flatten e

  slot-insert :
      (t : CapTable R) (cap : Capability R) (h : ℕ)
      → h < length t.entries
      → slot (insert t cap).0 h ≡ slot t h
  unfolding insert
  slot-insert t cap h b = get_elem?-append_left t.entries (some cap ∷ []) h b

  slot-insert_new :
      (t : CapTable R) (cap : Capability R)
      → slot (insert t cap).0 (length t.entries) ≡ some (some cap)
  unfolding insert
  slot-insert_new t cap = get_elem?-append_last t.entries (some cap)

  slot_beyond : (t : CapTable R) (h : ℕ) → length t.entries < suc h → slot t h ≡ none
  slot_beyond t h b = get_elem?_beyond t.entries h b

  length-insert :
      (t : CapTable R) (cap : Capability R) → length (insert t cap).0.entries ≡ length t.entries + 1
  unfolding insert
  length-insert t cap = length-append t.entries (some cap ∷ [])

  -- Every handle but the new one reads as before.
  get-insert_other :
      (t : CapTable R) (cap : Capability R) (h : ℕ)
      → h ≢ length t.entries
      → get (insert t cap).0 h ≡ get t h
  get-insert_other t cap h ne = elim (Bool-cases (ltb h (length t.entries))) [
    | inl old ↦
        get-slot (insert t cap).0 t h (slot-insert t cap h (ltb→lt h (length t.entries) old))
    | inr new ↦
        let over : length t.entries < h = ground (arith, new, ne) in
        get-slot (insert t cap).0 t h (
          slot_beyond (insert t cap).0 h (omega (arith, length-insert t cap))
          ∙ sym (slot_beyond t h (omega arith)))
  ]

  get_new :
      (t : CapTable R) (cap : Capability R) → get (insert t cap).0 (length t.entries) ≡ some cap
  unfolding get
  get_new t cap = ap flatten (slot-insert_new t cap)

  get_beyond : (t : CapTable R) (h : ℕ) → length t.entries < suc h → get t h ≡ none
  unfolding get
  get_beyond t h b = ap flatten (slot_beyond t h b)

  -- Inserting into a table of fewer than 2 ^ 32 slots gives a handle that read as nothing before,
  -- that reads as the capability now, and leaves every other handle as it was.
  pub get-insert :
      (t : CapTable R) (cap : Capability R)
      → length t.entries < 2 ^ 32
      → (get t (insert t cap).1 ≡ none)
        × (get (insert t cap).0 (insert t cap).1 ≡ some cap)
        × ((h : ℕ) → h ≢ (insert t cap).1 → get (insert t cap).0 h ≡ get t h)
  unfolding insert
  get-insert t cap small =
      let handle : length t.entries % 2 ^ 32 ≡ length t.entries = omega arith in
      rw handle
        (get_beyond t (length t.entries) (omega arith), get_new t cap, get-insert_other t cap)

  -- The handle names a slot that holds nothing.
  abbrev IsDead : ℕ → CapTable R → Type 0
  IsDead h t = slot t h ≡ some none

  IsDead-below : (t : CapTable R) (h : ℕ) → IsDead h t → h < length t.entries
  IsDead-below t h d = elim (Bool-cases (ltb h (length t.entries))) [
    | inl below ↦ ltb→lt h (length t.entries) below
    | inr above ↦
        let none_there : slot t h ≡ none = slot_beyond t h (ground (arith, above)) in absurd (cc)
  ]

  revoke_entries : (t : CapTable R) (h : ℕ) → (revoke t h).entries ≡ set t.entries h none
  unfolding revoke
  revoke_entries t h = go (slot t h) refl
    where
      go :
          (o : Option (Option (Capability R)))
          → slot t h ≡ o
          → (revoke t h).entries ≡ set t.entries h none
      go none e = rw (e, revoke) (sym (set-none t.entries h none e))
      go (some x) e = rw (e, revoke) refl

  slot-revoke_self : (t : CapTable R) (h : ℕ) → h < length t.entries → IsDead h (revoke t h)
  slot-revoke_self t h b = rw (revoke_entries t h) (get_elem?-set_self t.entries h none b)

  slot-revoke_other : (t : CapTable R) (h k : ℕ) → k ≢ h → slot (revoke t k) h ≡ slot t h
  slot-revoke_other t h k ne = rw (revoke_entries t k) (get_elem?-set_ne t.entries k h none ne)

  -- A write changes a slot only where a capability stands.
  slot-write :
      (t : CapTable R) (h k : ℕ) (cap : Capability R)
      → IsDead h t
      → slot (perform (written k cap) t) h ≡ slot t h
  unfolding get_mut
  slot-write t h k cap d = go (slot t k) refl
    where
      go :
          (o : Option (Option (Capability R)))
          → slot t k ≡ o
          → slot (perform (written k cap) t) h ≡ slot t h
      go none e = rw (e, perform, get_mut) refl
      go (some none) e = rw (e, perform, get_mut) refl
      go (some (some c)) e =
          rw (e, perform, get_mut) (get_elem?-set_ne t.entries k h (some cap) (λ same. cc))

  perform-IsDead : (a : Action R) (t : CapTable R) (h : ℕ) → IsDead h t → IsDead h (perform a t)
  perform-IsDead (inserted cap) t h d = slot-insert t cap h (IsDead-below t h d) ∙ d
  perform-IsDead (revoked k) t h d = elim (ℕ_discrete k h) [
    | yes e ↦ subst (λ i. IsDead h (revoke t i)) (sym e) (slot-revoke_self t h (IsDead-below t h d))
    | no ne ↦ slot-revoke_other t h k ne ∙ d
  ]
  perform-IsDead (written k cap) t h d = slot-write t h k cap d ∙ d

  perform_all-IsDead :
      (as' : List (Action R)) (t : CapTable R) (h : ℕ) → IsDead h t → IsDead h (perform_all as' t)
  perform_all-IsDead [] t h d = d
  perform_all-IsDead (a ∷ rest) t h d =
      perform_all-IsDead rest (perform a t) h (perform-IsDead a t h d)

  -- A handle that has been revoked reads as nothing whatever is inserted, revoked or written
  -- afterwards: handles are not reused.
  pub get_revoked :
      (t : CapTable R) (h : ℕ) (actions : List (Action R))
      → h < length t.entries
      → get (perform_all actions (revoke t h)) h ≡ none
  unfolding get
  get_revoked t h actions b =
      ap flatten (perform_all-IsDead actions (revoke t h) h (slot-revoke_self t h b))

  -- Revoking a handle changes no other handle.
  pub get-revoke_other : (t : CapTable R) (h k : ℕ) → k ≢ h → get (revoke t k) h ≡ get t h
  get-revoke_other t h k ne = get-slot (revoke t k) t h (slot-revoke_other t h k ne)
