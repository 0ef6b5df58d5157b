-- ===== src/Kernel/Write.antt =====
-- `sys_write` over the pointer checks of the calling process.
use pindos.Base.{ℕ, ◌+◌, ◌^◌, ◌<◌, ◌≡◌, refl, some, ◌++◌, ℤ, pos, neg, inl, inr, ◌⊎◌}
use pindos.Mm.UserPtr.{
  AddressSpace, UserSlice, empty, from_raw_parts, validate_user_slice, read_error, ok,
}
use pindos.Mm.UserPtr.Pages.{validate-Answered, validate-slice, IsAccepted}
use pindos.Kernel.{Kernel, sys_write, prefix, read_range, bytes_of}

-- What `write` to the standard output may do: send the whole range after its prefix and answer its
-- length, where the range is not at null, and is empty or below the end of the user half with every
-- page mapped, and else answer `EFAULT` and send nothing.
pub data Written {M : Type 0} (aspace : AddressSpace) (memory : ℕ → ℕ) (s : Kernel M) (ptr len : ℕ)
    : ℤ × Kernel M → Type 0 where
  sent :
      IsAccepted (read_error aspace) ptr len
      → Written aspace memory s ptr len
          (pos len, record s { serial = s.serial ++ (prefix ++ read_range memory ptr len) })
  refused :
      (IsAccepted (read_error aspace) ptr len → ⊥) → Written aspace memory s ptr len (neg 14, s)

bytes_of-slice :
    (memory : ℕ → ℕ) (ptr len : ℕ) (s : UserSlice)
    → ((len ≡ 0) × (s ≡ empty)) ⊎ (s ≡ from_raw_parts ptr len)
    → bytes_of memory s ≡ read_range memory ptr len
bytes_of-slice memory ptr len s (inl (z, e)) = rw (e, z) refl
bytes_of-slice memory ptr len s (inr e) = rw e refl

module _ {M : Type 0} (aspace : AddressSpace) (memory : ℕ → ℕ) where
  sys_write_ok :
      (fuel : ℕ) (s : Kernel M) (ptr len : ℕ) (slice : UserSlice)
      → validate_user_slice aspace fuel ptr len ≡ some (ok slice)
      → bytes_of memory slice ≡ read_range memory ptr len
      → sys_write aspace memory fuel s 1 ptr len
        ≡ some (pos len, record s { serial = s.serial ++ (prefix ++ read_range memory ptr len) })
  unfolding sys_write
  sys_write_ok fuel s ptr len slice e b = rw (e, b) refl

  -- With more fuel than the user half has pages, a write to the standard output returns, and it does
  -- what `Written` lists: the bytes of a range that is not at null, and is empty or mapped below the end of the
  -- user half, go to the serial port after the prefix and their number is the answer; for any other
  -- range -14 is and nothing is sent.
  pub sys_write-Written :
      (fuel : ℕ) (s : Kernel M) (ptr len : ℕ)
      → 2 ^ 35 + 1 < fuel
      → (r : ℤ × Kernel M) × (sys_write aspace memory fuel s 1 ptr len ≡ some r)
        × Written aspace memory s ptr len r
  unfolding sys_write validate_user_slice
  sys_write-Written fuel s ptr len enough =
      elim (validate-Answered (read_error aspace) fuel ptr len enough) [
        | inl (slice, run, accepted) ↦ (
          _,
          sys_write_ok fuel s ptr len slice run (
              bytes_of-slice memory ptr len slice
                (validate-slice (read_error aspace) fuel ptr len slice run)),
          sent accepted,
        )
        | inr (e, run, unaccepted) ↦ (_, rw run refl, refused unaccepted)
      ]
