-- ===== src/Dealduck/Supervise.antt =====
-- Answers of the kernel at which the manager does nothing.
use pindos.Base.{
  as_i32, ℕ, zero, suc, ◌%◌, ◌^◌, ◌<◌, ◌≡◌, refl, true, false, none, some, List, [], ◌∷◌, All,
  arith, ℤ, pos, ltb, ◌==◌, if◌then◌else◌, ap, ◌∙◌,
}
use pindos.Dealduck.{
  ServiceUnit, ServiceState, stopped, starting, running, failed, waitpid_nonblock, poll, has_ended,
  check, round, is_zero,
}

module _ {W : Type 0} (exec : W → List ℕ → ℤ × W) (waitpid : W → ℕ → ℤ × W) where
  quiet_status :
      (n : ℕ)
      → n < 2 ^ 31
      → has_ended exec waitpid (if is_zero (pos n) then none else some (as_i32 (pos n))) ≡ false
  unfolding has_ended
  quiet_status zero h = refl
  quiet_status (suc n) h =
      let not_zero : (suc n == 0) ≡ false = ground arith in
      let low : suc n % 2 ^ 32 ≡ suc n = omega arith in
      let small : ltb (suc n) (2 ^ 31) ≡ true = ground (arith, h) in
      rw (not_zero, low, small, not_zero) refl

  -- A unit whose process the kernel reports with a status from 0 to 2 ^ 31 - 1 is left as it is: no
  -- such status makes the manager start a service again.
  pub poll_status :
      (w : W) (unit : ServiceUnit) (pid status : ℕ) (w' : W)
      → waitpid w pid ≡ (pos status, w')
      → status < 2 ^ 31
      → (poll exec waitpid w unit (some pid)).0 ≡ unit
  unfolding poll waitpid_nonblock has_ended
  poll_status w unit pid status w' e small =
      let quiet : has_ended exec waitpid (waitpid_nonblock exec waitpid w pid).0 ≡ false =
        ap (λ x. has_ended exec waitpid (if is_zero x.0 then none else some (as_i32 x.0))) e
        ∙ quiet_status status small in
      rw quiet refl

  -- A process without news leaves its unit and the kernel as they are.
  pub poll_unnoticed :
      (w : W) (unit : ServiceUnit) (pid : ℕ)
      → waitpid w pid ≡ (pos 0, w)
      → poll exec waitpid w unit (some pid) ≡ (unit, w)
  unfolding poll waitpid_nonblock has_ended
  poll_unnoticed w unit pid e = rw e refl

  pub check_unnoticed :
      (w : W) (unit : ServiceUnit) (state : ServiceState)
      → (state ≡ running → (pid : ℕ) × (unit.pid ≡ some pid) × (waitpid w pid ≡ (pos 0, w)))
      → check exec waitpid w unit state ≡ (unit, w)
  unfolding check
  check_unnoticed w unit running h =
      let (pid, e, quiet) = h refl in simp (e, check) (poll_unnoticed w unit pid quiet)
  check_unnoticed w unit stopped h = refl
  check_unnoticed w unit starting h = refl
  check_unnoticed w unit failed h = refl

  pub round_unnoticed :
      (w : W) (units : List ServiceUnit)
      → All
          (λ unit.
            unit.state ≡ running → (pid : ℕ) × (unit.pid ≡ some pid) × (waitpid w pid ≡ (pos 0, w)))
          units
      → round exec waitpid w units ≡ (units, w)
  unfolding round
  round_unnoticed w [] h = refl
  round_unnoticed w (unit ∷ rest) h =
      rw (check_unnoticed w unit unit.state h.0, round_unnoticed w rest h.1) refl
