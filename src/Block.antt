-- ===== src/Block.antt =====
-- hammam/src/block/mod.rs: the registry of block devices.
-- A device is a parameter `D` with its name as bytes; an `Arc` is the device itself.
pub mod Tests
use pindos.Base.{
  ℕ, zero, suc, ◌+◌, ◌*◌, ◌%◌, ◌^◌, ◌<◌, ◌≡◌, ◌≢◌, refl, Bool, true, false, ◌&&◌, Option, none,
  some, List, [], ◌∷◌, ◌++◌, arith, ◌∙◌, ap, sym, length, get_elem?, length-append,
  get_elem?-append_left, get_elem?-append_last, get_elem?_beyond, ◌==◌, if◌then◌else◌, inl, inr,
  Bool-cases,
}
use native.Mathlib.Decide.{dec_lt, ℕ_discrete}

pub data IoError : Type 0 where
  timeout bad_address out_of_range : IoError

pub record BlockDeviceInfo : Type 0 where
  pub name : List ℕ
  pub block_size : ℕ
  pub block_count : ℕ

-- u64 arithmetic wraps.
pub total_size_bytes : BlockDeviceInfo → ℕ
total_size_bytes info = info.block_size * info.block_count % 2 ^ 64

-- `==` on strings
pub same_name : List ℕ → List ℕ → Bool
same_name [] [] = true
same_name [] (_ ∷ _) = false
same_name (_ ∷ _) [] = false
same_name (a ∷ as') (b ∷ bs) = (a == b) && same_name as' bs

same_name_sound : (a b : List ℕ) → same_name a b ≡ true → a ≡ b
unfolding same_name
same_name_sound [] [] e = refl
same_name_sound [] (_ ∷ _) e = absurd (cc (e))
same_name_sound (_ ∷ _) [] e = absurd (cc (e))
same_name_sound (x ∷ a) (y ∷ b) e =
    let tails : a ≡ b = same_name_sound a b (ground (arith, e)) in
    let heads : x ≡ y = ground (arith, e) in ap (λ h. h ∷ a) heads ∙ ap (λ t. y ∷ t) tails

same_name_refl : (a : List ℕ) → same_name a a ≡ true
unfolding same_name
same_name_refl [] = refl
same_name_refl (x ∷ a) = ground (arith, same_name_refl a)

module _ {D : Type 0} where
  -- The id is the length as u32.
  pub register : D → List D → ℕ × List D
  register dev devices = (length devices % 2 ^ 32, devices ++ dev ∷ [])

  pub get : ℕ → List D → Option D
  get id devices = get_elem? devices id

  pub device_count : List D → ℕ
  device_count devices = length devices

  pub find_by_name : (D → List ℕ) → List ℕ → List D → Option D
  find_by_name device_name name [] = none
  find_by_name device_name name (dev ∷ devices) =
      let rest = find_by_name device_name name devices in
      if same_name (device_name dev) name then some dev else rest

  -- Below 2 ^ 32 devices, a new device is found under its id, the other ids lead where they led, and
  -- there is one device more.
  pub get-register :
      (dev : D) (devices : List D) (id : ℕ)
      → length devices < 2 ^ 32
      → (get id (register dev devices).1
          ≡ (if id == (register dev devices).0 then some dev else get id devices))
        × (device_count (register dev devices).1 ≡ device_count devices + 1)
  unfolding register get device_count
  get-register dev devices id h =
      let new_id : length devices % 2 ^ 32 ≡ length devices = omega (arith, h) in
      let count : length (devices ++ dev ∷ []) ≡ length devices + 1 =
        omega (arith, length-append devices (dev ∷ [])) in
      (
        elim (ℕ_discrete id (length devices)) [
          | yes here ↦
              let test : (id == length devices) ≡ true = ground (arith, here) in
              rw (new_id, test)
                (ap (get_elem? (devices ++ dev ∷ [])) here ∙ get_elem?-append_last devices dev)
          | no other ↦
              let test : (id == length devices) ≡ false = ground (arith, other) in
              rw (new_id, test)
                (elim (dec_lt id (length devices)) [
                  | yes old ↦ get_elem?-append_left devices (dev ∷ []) id old
                  | no beyond ↦
                      get_elem?_beyond (devices ++ dev ∷ []) id
                        (omega (arith, count, other, beyond))
                      ∙ sym (get_elem?_beyond devices id (omega (arith, beyond)))
                ])
        ],
        count,
      )

  -- A device under a name: the first of the list that has it, or none that has it.
  abbrev pub Named : (D → List ℕ) → List ℕ → List D → Option D → Type 0
  Named device_name name devices none =
      (i : ℕ) (dev : D) → get_elem? devices i ≡ some dev → device_name dev ≢ name
  Named device_name name devices (some dev) =
      (i : ℕ) × (get_elem? devices i ≡ some dev)
      × (device_name dev ≡ name)
      × ((j : ℕ) (other : D) → j < i → get_elem? devices j ≡ some other → device_name other ≢ name)

  Named-more :
      (device_name : D → List ℕ) (name : List ℕ) (first : D) (devices : List D) (r : Option D)
      → device_name first ≢ name
      → Named device_name name devices r
      → Named device_name name (first ∷ devices) r
  Named-more device_name name first devices none ne f = λ i dev e. go i dev e
    where
      go : (i : ℕ) (dev : D) → get_elem? (first ∷ devices) i ≡ some dev → device_name dev ≢ name
      go zero dev e same = ne (ap device_name (cc e) ∙ same)
      go (suc i) dev e same = f i dev e same
  Named-more device_name name first devices (some dev) ne (i, here, same, before) =
      (suc i, here, same, go)
    where
      go :
          (j : ℕ) (other : D)
          → j < suc i
          → get_elem? (first ∷ devices) j ≡ some other
          → device_name other ≢ name
      go zero other h e same' = ne (ap device_name (cc e) ∙ same')
      go (suc j) other h e same' = before j other (omega (arith, h)) e same'

  -- The search by name answers the first device with the name, or none where no device has it.
  pub find_by_name-Named :
      (device_name : D → List ℕ) (name : List ℕ) (devices : List D)
      → Named device_name name devices (find_by_name device_name name devices)
  unfolding find_by_name
  find_by_name-Named device_name name [] = λ i dev e. absurd (cc (e))
  find_by_name-Named device_name name (first ∷ devices) =
      elim (Bool-cases (same_name (device_name first) name)) [
        | inl found ↦ rw found (
          0,
          refl,
          same_name_sound (device_name first) name found,
          λ j other h. absurd (omega (arith, h)),
        )
        | inr differs ↦ rw differs (
            Named-more device_name name first devices (find_by_name device_name name devices)
              (λ e. absurd (cc (rw e at differs, same_name_refl name)))
              (find_by_name-Named device_name name devices))
      ]
