-- ===== src/Kernel/Zombies.antt =====
-- `CURRENT_PROCESS` holds the first process for good, whatever calls are made.
use pindos.Base.{
  ℕ, ◌%◌, ◌^◌, ◌≡◌, refl, ◌≢◌, Bool, false, Option, none, some, List, [], ◌∷◌, All, arith, ℤ, pos,
  neg, ◌==◌, if◌then◌else◌, Bool-cases, inl, inr,
}
use mathlib.Core.Path.{subst}
use pindos.Mm.UserPtr.{AddressSpace}
use pindos.Sched.{Scheduler}
use pindos.Vfs.{VfsTree}
use pindos.Kernel.{
  Process, Kernel, Outcome, Services, get, remove, bury, sys_yield, sys_exit, mark_exit, wait_for,
  sys_waitpid, sys_write, Loaded, take_pid, register, load, exec_node, exec_path, sys_exec,
  syscall_dispatch, boot,
}

-- Pid 1 is current, and no other process is a zombie.
abbrev pub IsAlive : List (ℕ × Process) → Type 0
IsAlive table = All (λ e. e.0 ≢ 1 → e.1.is_zombie ≡ false) table

pub record IsSound {M : Type 0} (s : Kernel M) : Type 0 where
  pub first : s.current ≡ some 1
  pub alive : IsAlive s.table

IsAlive-bury : (table : List (ℕ × Process)) (code : ℤ) → IsAlive table → IsAlive (bury table 1 code)
IsAlive-bury [] code h = tt
IsAlive-bury ((p, process) ∷ rest) code h = elim (Bool-cases (p == 1)) [
  | inl one ↦ rw one ((λ ne. absurd (ne (ground (arith, one)))), h.1)
  | inr other ↦ rw other (h.0, IsAlive-bury rest code h.1)
]

IsAlive-remove : (table : List (ℕ × Process)) (pid : ℕ) → IsAlive table → IsAlive (remove table pid)
IsAlive-remove [] pid h = tt
IsAlive-remove ((p, process) ∷ rest) pid h = elim (Bool-cases (p == pid)) [
  | inl same ↦ rw same (IsAlive-remove rest pid h.1)
  | inr other ↦ rw other (h.0, IsAlive-remove rest pid h.1)
]

module _ {M : Type 0} where
  -- What holds of the state that a call leaves.
  abbrev Keeps : {R : Type 0} → Option (R × Kernel M) → Type 0
  Keeps none = Unit
  Keeps (some (r, t)) = IsSound t

  sys_yield-Keeps : (fuel : ℕ) (s : Kernel M) → IsSound s → Keeps (sys_yield fuel s)
  unfolding sys_yield
  sys_yield-Keeps fuel s h = ground arith

  mark_exit-IsSound : (s : Kernel M) (code : ℤ) → IsSound s → IsSound (mark_exit s code)
  unfolding mark_exit
  mark_exit-IsSound s code h =
      simp (h.first, mark_exit) (record { first = refl; alive = IsAlive-bury s.table code h.alive })

  sys_exit-Keeps : (fuel : ℕ) (s : Kernel M) (code : ℤ) → IsSound s → Keeps (sys_exit fuel s code)
  unfolding sys_exit
  sys_exit-Keeps fuel s code h = ground (arith, mark_exit-IsSound s code h)

  wait_for-IsSound :
      (s : Kernel M) (pid : ℕ) (wnohang : Bool) → IsSound s → IsSound (wait_for s pid wnohang).1
  unfolding wait_for
  wait_for-IsSound s pid wnohang h = ground (arith, IsAlive-remove s.table pid h.alive)

  sys_write-Keeps :
      (aspace : AddressSpace) (memory : ℕ → ℕ) (fuel : ℕ) (s : Kernel M) (fd buf len : ℕ)
      → IsSound s
      → Keeps (sys_write aspace memory fuel s fd buf len)
  unfolding sys_write
  sys_write-Keeps aspace memory fuel s fd buf len h = ground arith

module _ {M V : Type 0} (services : Services M V) (aspace : AddressSpace) (memory : ℕ → ℕ)
    (mounts : VfsTree V) where
  register-Keeps :
      (fuel : ℕ) (s : Kernel M) (pid : ℕ) (loaded : Loaded)
      → IsSound s
      → Keeps (register services aspace memory mounts fuel s pid loaded)
  unfolding register
  register-Keeps fuel s pid loaded h = ground (arith, IsAlive-remove s.table pid h.alive)

  load-Keeps :
      (fuel : ℕ) (s : Kernel M) (elf_data : List ℕ)
      → IsSound s
      → Keeps (load services aspace memory mounts fuel s elf_data)
  unfolding load take_pid
  load-Keeps fuel s elf_data h = grind (arith, register-Keeps)

  exec_node-Keeps :
      (fuel : ℕ) (s : Kernel M) (vnode : V)
      → IsSound s
      → Keeps (exec_node services aspace memory mounts fuel s vnode)
  unfolding exec_node
  exec_node-Keeps fuel s vnode h = grind (arith, load-Keeps)

  exec_path-Keeps :
      (fuel : ℕ) (s : Kernel M) (bytes : List ℕ)
      → IsSound s
      → Keeps (exec_path services aspace memory mounts fuel s bytes)
  unfolding exec_path
  exec_path-Keeps fuel s bytes h = grind (arith, exec_node-Keeps)

  sys_exec-Keeps :
      (fuel : ℕ) (s : Kernel M) (ptr len : ℕ)
      → IsSound s
      → Keeps (sys_exec services aspace memory mounts fuel s ptr len)
  unfolding sys_exec
  sys_exec-Keeps fuel s ptr len h = grind (arith, exec_path-Keeps)

  syscall_dispatch-Keeps :
      (fuel : ℕ) (s : Kernel M) (nr a0 a1 a2 : ℕ)
      → IsSound s
      → Keeps (syscall_dispatch services aspace memory mounts fuel s nr a0 a1 a2)
  unfolding syscall_dispatch sys_waitpid
  syscall_dispatch-Keeps fuel s nr a0 a1 a2 h =
      grind
        (arith, sys_yield-Keeps, sys_exit-Keeps, sys_write-Keeps, sys_exec-Keeps, wait_for-IsSound)

  -- The states that system calls of any processes lead to.
  pub data Reaches : Kernel M → Kernel M → Type 0 where
    here : {s : Kernel M} → Reaches s s
    call :
        {s t u : Kernel M} (fuel nr a0 a1 a2 : ℕ) (o : Outcome)
        → Reaches s t
        → syscall_dispatch services aspace memory mounts fuel t nr a0 a1 a2 ≡ some (o, u)
        → Reaches s u

  Reaches-IsSound : (s t : Kernel M) → IsSound s → Reaches s t → IsSound t
  Reaches-IsSound s t h here = h
  Reaches-IsSound s t h (call {t = m} fuel nr a0 a1 a2 o r e) =
      subst Keeps e (syscall_dispatch-Keeps fuel m nr a0 a1 a2 (Reaches-IsSound s m h r))

-- A process that is found has not ended.
abbrev IsLiving : Option Process → Type 0
IsLiving none = Unit
IsLiving (some process) = process.is_zombie ≡ false

get-IsLiving :
    (table : List (ℕ × Process)) (pid : ℕ) → pid ≢ 1 → IsAlive table → IsLiving (get table pid)
get-IsLiving [] pid ne h = tt
get-IsLiving ((p, process) ∷ rest) pid ne h = elim (Bool-cases (p == pid)) [
  | inl same ↦ rw same (h.0 (λ one. ne (ground (arith, same, one))))
  | inr other ↦ rw other (get-IsLiving rest pid ne h.1)
]

-- What `waitpid` answers of a process that has not ended.
abbrev pub pending : Option Process → Bool → ℤ
pending none wnohang = neg 10
pending (some _) wnohang = if wnohang then pos 0 else neg 11

module _ {M : Type 0} where
  wait_for-pending :
      (s : Kernel M) (pid : ℕ) (wnohang : Bool) (found : Option Process)
      → get s.table pid ≡ found
      → IsLiving found
      → wait_for s pid wnohang ≡ (pending found wnohang, s)
  unfolding wait_for
  wait_for-pending s pid wnohang none e h = rw (e, wait_for) refl
  wait_for-pending s pid wnohang (some process) e h = elim (Bool-cases wnohang) [
    | inl w ↦ rw (e, wait_for, h, w) refl
    | inr w ↦ rw (e, wait_for, h, w) refl
  ]

  pub sys_waitpid-pending :
      (s : Kernel M) (pid flags : ℕ)
      → IsSound s
      → pid % 2 ^ 32 ≢ 1
      → sys_waitpid s pid flags ≡ (pending (get s.table (pid % 2 ^ 32)) (flags % 2 == 1), s)
  unfolding sys_waitpid
  sys_waitpid-pending s pid flags h ne =
      wait_for-pending s (pid % 2 ^ 32) (flags % 2 == 1) (get s.table (pid % 2 ^ 32)) refl
        (get-IsLiving s.table (pid % 2 ^ 32) ne h.alive)

module _ {M V : Type 0} (services : Services M V) (aspace : AddressSpace) (memory : ℕ → ℕ)
    (mounts : VfsTree V) where
  pub Reaches-boot :
      (machine : M) (scheduler : Scheduler) (loaded : Loaded) (s : Kernel M)
      → Reaches services aspace memory mounts (boot machine scheduler loaded) s
      → IsSound s
  unfolding boot
  Reaches-boot machine scheduler loaded s r =
      Reaches-IsSound services aspace memory mounts (boot machine scheduler loaded) s
        (record { first = refl; alive = ((λ e. refl), tt) }) r

  -- After the boot and any system calls that return, of any processes and in any order, `waitpid` of a
  -- pid other than 1 changes nothing and never answers with an exit code: it answers -10 for a pid that
  -- the table does not have, and else 0 or -11 as the flag `WNOHANG` says.
  pub sys_waitpid-unreported :
      (machine : M) (scheduler : Scheduler) (loaded : Loaded) (s : Kernel M) (pid flags : ℕ)
      → Reaches services aspace memory mounts (boot machine scheduler loaded) s
      → pid % 2 ^ 32 ≢ 1
      → sys_waitpid s pid flags ≡ (pending (get s.table (pid % 2 ^ 32)) (flags % 2 == 1), s)
  sys_waitpid-unreported machine scheduler loaded s pid flags r ne =
      sys_waitpid-pending s pid flags (Reaches-boot machine scheduler loaded s r) ne
