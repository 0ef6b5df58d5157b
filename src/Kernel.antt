-- ===== src/Kernel.antt =====
-- hammam/src/arch/x86_64/syscall.rs and hammam/src/process/mod.rs: the process table and the calls
-- of userspace, over the pointer checks, the mount tree and the scheduler.
-- The state is what the calls share: the table, the pid that `CURRENT_PROCESS` holds, the next pid,
-- the scheduler, the bytes that went to the serial port, and a machine `M` for what loading a program
-- changes. The kernel's own log lines are left out. `fuel` is for the checks and the scheduler; `none`
-- is a call that ran out of it.
pub mod Zombies
pub mod Write
pub mod Service
pub mod Tests
use pindos.Base.{
  ℕ, zero, suc, ◌+◌, ◌%◌, ◌^◌, Bool, true, false, Option, none, some, List, [], ◌∷◌, ◌++◌, ℤ, pos,
  neg, as_i32, ◌==◌, if◌then◌else◌,
}
use pindos.Mm.UserPtr.{
  UserPtrError, AddressSpace, UserSlice, empty, from_raw_parts, validate_user_slice,
}
use pindos.Mm.UserPtr
use pindos.Sched.{Scheduler, schedule_locked, exit_current, add_task}
use pindos.Vfs.{VfsTree, FileStat, lookup}
use pindos.Vfs

-- `impl From<UserPtrError> for SyscallError` and `impl From<SyscallError> for i64`
pub data SyscallError : Type 0 where
  bad_address bad_file_descriptor invalid_argument not_implemented : SyscallError

pub from_user_ptr_error : UserPtrError → SyscallError
from_user_ptr_error UserPtr.bad_address = bad_address
from_user_ptr_error UserPtr.not_mapped = bad_address
from_user_ptr_error UserPtr.not_writable = bad_address
from_user_ptr_error UserPtr.overflow_detected = invalid_argument

pub code_of : SyscallError → ℤ
code_of bad_address = neg 14
code_of bad_file_descriptor = neg 9
code_of invalid_argument = neg 22
code_of not_implemented = neg 38

-- `main_task` is the task's index in the scheduler's store.
pub record Process : Type 0 where
  pub pid : ℕ
  pub main_task : ℕ
  pub entry_point : ℕ
  pub user_stack_top : ℕ
  pub exit_code : ℤ
  pub is_zombie : Bool

-- What `Process::from_elf` takes from the program and the machine.
pub record Loaded : Type 0 where
  pub entry_point : ℕ
  pub user_stack_top : ℕ
  pub main_task : ℕ

pub record Kernel (M : Type 0) : Type 0 where
  pub table : List (ℕ × Process)
  pub current : Option ℕ
  pub next_pid : ℕ
  pub scheduler : Scheduler
  pub serial : List ℕ
  pub machine : M

-- A call returns to its process, or the process is gone.
pub data Outcome : Type 0 where
  returned : ℤ → Outcome
  gone : Outcome

-- The table is a map from pids.
abbrev pub get : List (ℕ × Process) → ℕ → Option Process
get [] pid = none
get ((p, process) ∷ rest) pid = if p == pid then some process else get rest pid

abbrev pub remove : List (ℕ × Process) → ℕ → List (ℕ × Process)
remove [] pid = []
remove ((p, process) ∷ rest) pid =
    let others = remove rest pid in if p == pid then others else (p, process) ∷ others

abbrev pub insert : List (ℕ × Process) → ℕ → Process → List (ℕ × Process)
insert table pid process = (pid, process) ∷ remove table pid

-- `p.exit_code.store(code)` and `p.is_zombie.store(true)` on the process of the table.
abbrev pub bury : List (ℕ × Process) → ℕ → ℤ → List (ℕ × Process)
bury [] pid code = []
bury ((p, process) ∷ rest) pid code =
    let others = bury rest pid code in
    if p == pid
    then (p, record process { exit_code = code; is_zombie = true }) ∷ rest
    else (p, process) ∷ others

-- `size` zeros
abbrev pub zeros : ℕ → List ℕ
zeros zero = []
zeros (suc n) = 0 ∷ zeros n

-- The bytes of a checked range.
abbrev pub read_range : (ℕ → ℕ) → ℕ → ℕ → List ℕ
read_range memory ptr zero = []
read_range memory ptr (suc n) = memory ptr ∷ read_range memory (ptr + 1) n

abbrev pub bytes_of : (ℕ → ℕ) → UserSlice → List ℕ
bytes_of memory empty = []
bytes_of memory (from_raw_parts ptr len) = read_range memory ptr len

-- The code that the calls use from elsewhere: UTF-8 (`core::str::from_utf8`), the nodes of a file
-- system, and the loading of a program. The text of a path is a list of characters.
pub record Services (M V : Type 0) : Type 1 where
  pub from_utf8 : List ℕ → Option (List ℕ)
  pub lookup_node : V → List ℕ → Vfs.Result V
  pub stat_node : V → Vfs.Result FileStat
  pub read_node : V → ℕ → List ℕ → Vfs.Result (ℕ × List ℕ)
  pub from_elf : M → ℕ → List ℕ → Option Loaded × M

-- "[USERSPACE] "
abbrev pub prefix : List ℕ
prefix = 91 ∷ 85 ∷ 83 ∷ 69 ∷ 82 ∷ 83 ∷ 80 ∷ 65 ∷ 67 ∷ 69 ∷ 93 ∷ 32 ∷ []

-- `exec` and the boot enter a process in the table the same way.
abbrev pub process_of : ℕ → Loaded → Process
process_of pid loaded = record {
  pid = pid;
  main_task = loaded.main_task;
  entry_point = loaded.entry_point;
  user_stack_top = loaded.user_stack_top;
  exit_code = pos 0;
  is_zombie = false;
}

module _ {M : Type 0} where
  -- `NEXT_PID.fetch_add(1)` of a u32
  pub take_pid : Kernel M → ℕ × Kernel M
  take_pid s = (s.next_pid, record s { next_pid = (s.next_pid + 1) % 2 ^ 32 })

  pub sys_yield : ℕ → Kernel M → Option (Outcome × Kernel M)
  sys_yield fuel s = elim (schedule_locked fuel s.scheduler) [
    | none ↦ none
    | some (scheduler, _) ↦ some (returned (pos 0), record s { scheduler = scheduler })
  ]

  -- `sys_exit` up to `exit_current`
  pub mark_exit : Kernel M → ℤ → Kernel M
  mark_exit s code = elim s.current [
    | none ↦ s
    | some pid ↦ record s { table = bury s.table pid code }
  ]

  pub sys_exit : ℕ → Kernel M → ℤ → Option (Outcome × Kernel M)
  sys_exit fuel s code = elim (exit_current fuel (mark_exit s code).scheduler) [
    | none ↦ none
    | some (scheduler, _) ↦ some (gone, record (mark_exit s code) { scheduler = scheduler })
  ]

  -- `flags & 1` is `WNOHANG`
  pub wait_for : Kernel M → ℕ → Bool → ℤ × Kernel M
  wait_for s pid wnohang = elim (get s.table pid) [
    | none ↦ (neg 10, s)
    | some process ↦
        if process.is_zombie
        then (process.exit_code, record s { table = remove s.table pid })
        else if wnohang
        then (pos 0, s)
        else (neg 11, s)
  ]

  pub sys_waitpid : Kernel M → ℕ → ℕ → ℤ × Kernel M
  sys_waitpid s pid flags = wait_for s (pid % 2 ^ 32) (flags % 2 == 1)

  module _ (aspace : AddressSpace) (memory : ℕ → ℕ) where
    pub sys_write : ℕ → Kernel M → ℕ → ℕ → ℕ → Option (ℤ × Kernel M)
    sys_write fuel s fd buf_ptr len =
        if fd == 1
        then elim (validate_user_slice aspace fuel buf_ptr len) [
          | none ↦ none
          | some (UserPtr.err _) ↦ some (neg 14, s)
          | some (UserPtr.ok slice) ↦
              some (pos len, record s { serial = s.serial ++ (prefix ++ bytes_of memory slice) })
        ]
        else some (neg 9, s)

  -- The kernel as main.rs leaves it: the first process is queued, in the table, and current.
  pub boot : M → Scheduler → Loaded → Kernel M
  boot machine scheduler loaded = record {
    table = (1, process_of 1 loaded) ∷ [];
    current = some 1;
    next_pid = 2;
    scheduler = scheduler;
    serial = [];
    machine = machine;
  }

module _ {M V : Type 0} (services : Services M V) (aspace : AddressSpace) (memory : ℕ → ℕ)
    (mounts : VfsTree V) where
  open services use {from_utf8, lookup_node, stat_node, read_node, from_elf}

  -- The new process is queued and entered in the table under its pid.
  pub register : ℕ → Kernel M → ℕ → Loaded → Option (ℤ × Kernel M)
  register fuel s pid loaded = elim (add_task fuel s.scheduler loaded.main_task) [
    | none ↦ none
    | some scheduler ↦ some (
      pos pid,
      record s { scheduler = scheduler; table = insert s.table pid (process_of pid loaded) },
    )
  ]

  -- The pid is taken before the program is loaded, also where that fails.
  pub load : ℕ → Kernel M → List ℕ → Option (ℤ × Kernel M)
  load fuel s elf_data =
      let (pid, t) = take_pid s in
      let (loaded, machine) = from_elf t.machine pid elf_data in
      elim loaded [
        | none ↦ some (neg 12, record t { machine = machine })
        | some l ↦ register fuel (record t { machine = machine }) pid l
      ]

  pub exec_node : ℕ → Kernel M → V → Option (ℤ × Kernel M)
  exec_node fuel s vnode = elim (stat_node vnode) [
    | Vfs.err _ ↦ some (neg 5, s)
    | Vfs.ok stat ↦ elim (read_node vnode 0 (zeros stat.size)) [
      | Vfs.err _ ↦ some (neg 5, s)
      | Vfs.ok (_, elf_data) ↦ load fuel s elf_data
    ]
  ]

  pub exec_path : ℕ → Kernel M → List ℕ → Option (ℤ × Kernel M)
  exec_path fuel s bytes = elim (from_utf8 bytes) [
    | none ↦ some (neg 22, s)
    | some path ↦ elim (lookup lookup_node mounts path) [
      | Vfs.err _ ↦ some (neg 2, s)
      | Vfs.ok vnode ↦ exec_node fuel s vnode
    ]
  ]

  pub sys_exec : ℕ → Kernel M → ℕ → ℕ → Option (ℤ × Kernel M)
  sys_exec fuel s path_ptr path_len = elim (validate_user_slice aspace fuel path_ptr path_len) [
    | none ↦ none
    | some (UserPtr.err _) ↦ some (neg 14, s)
    | some (UserPtr.ok slice) ↦ exec_path fuel s (bytes_of memory slice)
  ]

  abbrev pub returns : Option (ℤ × Kernel M) → Option (Outcome × Kernel M)
  returns none = none
  returns (some (code, s)) = some (returned code, s)

  pub syscall_dispatch : ℕ → Kernel M → ℕ → ℕ → ℕ → ℕ → Option (Outcome × Kernel M)
  syscall_dispatch fuel s nr a0 a1 a2 =
      if nr == 0
      then sys_yield fuel s
      else if nr == 1
      then returns (sys_write aspace memory fuel s a0 a1 a2)
      else if nr == 2
      then returns (sys_exec fuel s a0 a1)
      else if nr == 3
      then returns (some (sys_waitpid s a0 a1))
      else if nr == 60
      then sys_exit fuel s (as_i32 (pos a0))
      else returns (some (neg 38, s))
