-- ===== src/Kernel/Service.antt =====
-- The service manager, the first process, over the kernel's `waitpid`.
use pindos.Base.{ℕ, ◌%◌, ◌^◌, ◌<◌, ◌≡◌, ◌≢◌, some, List, [], ◌∷◌, All, arith, ℤ, pos, ap, ◌∙◌, true}
use pindos.Mm.UserPtr.{AddressSpace}
use pindos.Sched.{Scheduler}
use pindos.Vfs.{VfsTree}
use pindos.Dealduck.{ServiceUnit, running, round}
use pindos.Dealduck.Supervise.{round_unnoticed}
use pindos.Kernel.{Process, Kernel, Loaded, Services, get, sys_waitpid, boot}
use pindos.Kernel.Zombies.{Reaches, IsSound, pending, sys_waitpid-pending, Reaches-boot}

module _ {M : Type 0} where
  -- `syscall(3, pid, WNOHANG)`
  abbrev pub waitpid : Kernel M → ℕ → ℤ × Kernel M
  waitpid s pid = sys_waitpid s pid 1

  -- A service that runs has a process that the kernel knows, which is not the manager itself.
  abbrev pub IsKnown : Kernel M → ServiceUnit → Type 0
  IsKnown s unit =
      unit.state ≡ running
      → (pid : ℕ) × (unit.pid ≡ some pid)
        × (pid < 2 ^ 32)
        × (pid ≢ 1)
        × (process : Process) × (get s.table pid ≡ some process)

  waitpid_none :
      (s : Kernel M) (pid : ℕ) (process : Process)
      → IsSound s
      → pid < 2 ^ 32
      → pid ≢ 1
      → get s.table pid ≡ some process
      → waitpid s pid ≡ (pos 0, s)
  waitpid_none s pid process h small ne e =
      let same : pid % 2 ^ 32 ≡ pid = omega arith in
      sys_waitpid-pending s pid 1 h (λ one. ne (omega (arith, same, one)))
      ∙ ap (λ x. (pending (get s.table x) true, s)) same
      ∙ ap (λ x. (pending x true, s)) e

  quiet_units :
      (s : Kernel M) (units : List ServiceUnit)
      → IsSound s
      → All (IsKnown s) units
      → All
          (λ unit.
            unit.state ≡ running → (pid : ℕ) × (unit.pid ≡ some pid) × (waitpid s pid ≡ (pos 0, s)))
          units
  quiet_units s [] h k = tt
  quiet_units s (unit ∷ rest) h k = (
    λ e.
        let (pid, found, small, ne, process, known) = k.0 e in
        (pid, found, waitpid_none s pid process h small ne known),
    quiet_units s rest h k.1,
  )

module _ {M V : Type 0} (services : Services M V) (aspace : AddressSpace) (memory : ℕ → ℕ)
    (mounts : VfsTree V) where
  -- In every state that the boot and system calls of any processes lead to, also calls of `exit`, a
  -- round of the service manager changes neither a unit nor the kernel, where each service that runs has
  -- a pid of the process table other than 1: the manager does not see a service end, and never starts
  -- one again.
  pub round-unnoticed :
      (machine : M) (scheduler : Scheduler) (loaded : Loaded) (s : Kernel M)
      (exec : Kernel M → List ℕ → ℤ × Kernel M) (units : List ServiceUnit)
      → Reaches services aspace memory mounts (boot machine scheduler loaded) s
      → All (IsKnown s) units
      → round exec waitpid s units ≡ (units, s)
  round-unnoticed machine scheduler loaded s exec units r k = round_unnoticed exec waitpid s units (
      quiet_units s units (Reaches-boot services aspace memory mounts machine scheduler loaded s r)
        k)
