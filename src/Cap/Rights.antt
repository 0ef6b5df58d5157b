-- ===== src/Cap/Rights.antt =====
-- Attenuation never adds a right, seen through the table.
use pindos.Base.{◌^◌, ◌<◌, ◌≡◌, refl, Bool, true, false, ◌&&◌, length, sym, ◌∙◌}
use pindos.Cap.{Bitflags, Right, Capability, CapTable, insert, check_rights, attenuate}
use pindos.Cap.Table.{get-insert}

-- Two tests that accept under the same condition are equal.
same_test : (b c : Bool) → (b ≡ true → c ≡ true) → (c ≡ true → b ≡ true) → b ≡ c
same_test true c f g = sym (f refl)
same_test false true f g = g refl
same_test false false f g = refl

both : (b c : Bool) → (b && c) ≡ true → (b ≡ true) × (c ≡ true)
both true c h = (refl, h)
both false c h = absurd (cc)

module _ (flags : Bitflags) where
  contains-intersection :
      (a b c : flags.Flags)
      → flags.contains (flags.intersection a b) c ≡ (flags.contains a c && flags.contains b c)
  contains-intersection a b c =
      same_test (flags.contains (flags.intersection a b) c)
        (flags.contains a c && flags.contains b c)
        (λ h.
          rw
            (
              (flags.contains_iff a c).1 (λ r s. (both _ _ (here h r s)).0),
              (flags.contains_iff b c).1 (λ r s. (both _ _ (here h r s)).1),
            )
            refl)
        (λ h. (flags.contains_iff (flags.intersection a b) c).1 (λ r s.
          let (f, g) = both (flags.contains a c) (flags.contains b c) h in
          flags.is_set-intersection a b r
          ∙ rw ((flags.contains_iff a c).0 f r s, (flags.contains_iff b c).0 g r s) refl))
    where
      here :
          flags.contains (flags.intersection a b) c ≡ true
          → (r : Right) → flags.is_set c r ≡ true
          → (flags.is_set a r && flags.is_set b r) ≡ true
      here h r s =
          sym (flags.is_set-intersection a b r)
          ∙ (flags.contains_iff (flags.intersection a b) c).0 h r s

  -- The handle of an attenuated copy grants exactly the rights that the original capability and the
  -- new mask both contain, in a table of fewer than 2 ^ 32 slots.
  pub check_rights-attenuate :
      (t : CapTable flags.Flags) (c : Capability flags.Flags) (mask required : flags.Flags)
      → length t.entries < 2 ^ 32
      → check_rights flags
          (insert t (attenuate flags c mask)).0
          (insert t (attenuate flags c mask)).1
          required
        ≡ (flags.contains c.rights required && flags.contains mask required)
  unfolding check_rights attenuate
  check_rights-attenuate t c mask required small =
      rw ((get-insert t (attenuate flags c mask) small).1, check_rights)
        (contains-intersection c.rights mask required)
