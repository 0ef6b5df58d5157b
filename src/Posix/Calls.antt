-- ===== src/Posix/Calls.antt =====
-- `read` and `write`: how the kernel's error numbers become -1 and errno.
use pindos.Base.{
  ℕ, suc, ◌^◌, ◌≤◌, ◌<◌, ◌≡◌, refl, ◌≢◌, true, false, ℤ, pos, negsuc, as_i32, is_negative, ◌==◌,
  ◌%◌, ltb, sym, if◌then◌else◌, Bool-cases, inl, inr, arith,
}
use mathlib.Core.Path.{subst}
use native.Mathlib.Decide.{dec_lt}
use pindos.Posix.{State, set_errno, negated, ebadf, efault, read, write}

-- What a call may leave, for what the kernel answers; the kernel is asked only for a descriptor that
-- is not negative and a buffer that is not null.
pub data Returned (kernel : State → ℤ → ℕ → ℕ → ℤ × State) (s : State) (fd : ℤ) (buf count : ℕ)
    : ℤ × State → Type 0 where
  bad_descriptor :
      is_negative fd ≡ true
      → Returned kernel s fd buf count (negsuc 0, record s { errno_val = pos 9 })
  null_buffer :
      is_negative fd ≡ false
      → buf ≡ 0
      → Returned kernel s fd buf count (negsuc 0, record s { errno_val = pos 14 })
  failed :
      (n : ℕ) (t : State)
      → is_negative fd ≡ false
      → buf ≢ 0
      → kernel s fd buf count ≡ (negsuc n, t)
      → suc n < 2 ^ 31
      → Returned kernel s fd buf count (negsuc 0, record t { errno_val = pos (suc n) })
  wrapped :
      (n : ℕ) (t : State)
      → is_negative fd ≡ false
      → buf ≢ 0
      → kernel s fd buf count ≡ (negsuc n, t)
      → 2 ^ 31 ≤ suc n
      → Returned kernel s fd buf count (negsuc 0, record t { errno_val = as_i32 (pos (suc n)) })
  done :
      (n : ℕ) (t : State)
      → is_negative fd ≡ false
      → buf ≢ 0
      → kernel s fd buf count ≡ (pos n, t)
      → Returned kernel s fd buf count (pos n, t)

as_i32_small : (n : ℕ) → n < 2 ^ 31 → as_i32 (pos n) ≡ pos n
as_i32_small n h =
    let low : n % 2 ^ 32 ≡ n = omega (arith, h) in
    let small : ltb n (2 ^ 31) ≡ true = ground (arith, h) in rw (low, small) refl

module _ (kernel : State → ℤ → ℕ → ℕ → ℤ × State) where
  abbrev finish : ℤ → State → ℤ × State
  finish ret t = if is_negative ret then (negsuc 0, set_errno t (negated ret)) else (ret, t)

  finish-Returned :
      (s : State) (fd : ℤ) (buf count : ℕ) (ret : ℤ) (t : State)
      → is_negative fd ≡ false
      → buf ≢ 0
      → kernel s fd buf count ≡ (ret, t)
      → Returned kernel s fd buf count (finish ret t)
  unfolding set_errno
  finish-Returned s fd buf count (pos n) t f b e = done n t f b e
  finish-Returned s fd buf count (negsuc n) t f b e = elim (dec_lt (suc n) (2 ^ 31)) [
    | yes h ↦
        subst (λ x. Returned kernel s fd buf count (negsuc 0, record t { errno_val = x }))
          (sym (as_i32_small (suc n) h)) (failed n t f b e h)
    | no h ↦ wrapped n t f b e (omega (arith, h))
  ]

  -- The body that both calls have.
  abbrev call : State → ℤ → ℕ → ℕ → ℤ × State
  call s fd buf count =
      if is_negative fd
      then (negsuc 0, set_errno s ebadf)
      else if buf == 0
      then (negsuc 0, set_errno s efault)
      else finish (kernel s fd buf count).0 (kernel s fd buf count).1

  call-Returned :
      (s : State) (fd : ℤ) (buf count : ℕ) → Returned kernel s fd buf count (call s fd buf count)
  unfolding set_errno
  call-Returned s (negsuc n) buf count = bad_descriptor refl
  call-Returned s (pos n) buf count = elim (Bool-cases (buf == 0)) [
    | inl null ↦ rw null (null_buffer refl (ground (arith, null)))
    | inr there ↦ rw there (
        finish-Returned s (pos n) buf count (kernel s (pos n) buf count).0
          (kernel s (pos n) buf count).1 refl (λ e. absurd (ground (arith, there, e))) refl)
  ]

-- Whatever the kernel returns, `read` and `write` answer as `Returned` lists: -1 with `EBADF` for a
-- negative descriptor and with `EFAULT` for a null buffer, and then the kernel is not asked; for a
-- negative result -1 with the error number in errno, cut to 32 bits where it is not below 2 ^ 31; and
-- else the result, with errno as the kernel left it.
pub read-Returned :
    (syscall_read syscall_write : State → ℤ → ℕ → ℕ → ℤ × State) (s : State) (fd : ℤ)
    (buf count : ℕ)
    → Returned syscall_read s fd buf count (read syscall_read syscall_write s fd buf count)
      × Returned syscall_write s fd buf count (write syscall_read syscall_write s fd buf count)
unfolding read write
read-Returned syscall_read syscall_write s fd buf count =
    (call-Returned syscall_read s fd buf count, call-Returned syscall_write s fd buf count)
