-- ===== src/Posix.antt =====
-- userspace/posix-compat/src/lib.rs: the POSIX layer over the kernel's calls.
-- `State` is the address space of the program, a byte at every address, and `ERRNO_VAL`. A pointer
-- is an address, null is 0. The `syscall` instructions of `syscall_write` and `syscall_read` are
-- parameters: what the kernel returns and how it changes the memory. `fuel` bounds the scans for a
-- terminating zero; `none` is a scan that ran out.
pub mod Strings
pub mod Calls
pub mod Tests
use pindos.Base.{
  as_i32, ℕ, zero, suc, ◌+◌, ◌-◌, ◌%◌, ◌^◌, Bool, true, false, ◌&&◌, ◌||◌, Option, none, some, ℤ,
  pos, negsuc, neg, is_negative, ltb, leb, ◌==◌, if◌then◌else◌, update,
}

-- The errno codes that the code sets.
abbrev pub ebadf : ℤ
ebadf = pos 9

abbrev pub efault : ℤ
efault = pos 14

abbrev pub enosys : ℤ
enosys = pos 38

pub record State : Type 0 where
  pub memory : ℕ → ℕ
  pub errno_val : ℤ

pub set_errno : State → ℤ → State
set_errno s err = record s { errno_val = err }

pub get_errno : State → ℤ
get_errno s = s.errno_val

pub clear_errno : State → State
clear_errno s = set_errno s (pos 0)

-- `(-ret) as i32` of a negative `ret`, an i64.
abbrev pub negated : ℤ → ℤ
negated (pos n) = as_i32 (neg n)
negated (negsuc n) = as_i32 (pos (suc n))

-- The kernel does not have these calls yet.
pub syscall_open : State → ℕ → ℤ → ℤ → ℤ × State
syscall_open s path flags mode = (negsuc 0, set_errno s enosys)

pub syscall_close : State → ℤ → ℤ × State
syscall_close s fd = (negsuc 0, set_errno s enosys)

pub open_mode : State → ℕ → ℤ → ℤ → ℤ × State
open_mode s path flags mode =
    if path == 0
    then (negsuc 0, set_errno s efault)
    else (let (ret, t) = syscall_open s path flags mode in
        if is_negative ret then (negsuc 0, t) else (ret, t))

pub open_path : State → ℕ → ℤ → ℤ × State
open_path s path flags = open_mode s path flags (pos 420)

pub close : State → ℤ → ℤ × State
close s fd =
    if is_negative fd
    then (negsuc 0, set_errno s ebadf)
    else (let (ret, t) = syscall_close s fd in if is_negative ret then (negsuc 0, t) else (ret, t))

-- `fork`, `execve` and `waitpid`
pub unsupported : State → ℤ × State
unsupported s = (negsuc 0, set_errno s enosys)

pub getpid : ℤ
getpid = pos 1

pub getppid : ℤ
getppid = pos 0

module _ (syscall_read syscall_write : State → ℤ → ℕ → ℕ → ℤ × State) where
  pub read : State → ℤ → ℕ → ℕ → ℤ × State
  read s fd buf count =
      if is_negative fd
      then (negsuc 0, set_errno s ebadf)
      else if buf == 0
      then (negsuc 0, set_errno s efault)
      else (let (ret, t) = syscall_read s fd buf count in
          if is_negative ret then (negsuc 0, set_errno t (negated ret)) else (ret, t))

  pub write : State → ℤ → ℕ → ℕ → ℤ × State
  write s fd buf count =
      if is_negative fd
      then (negsuc 0, set_errno s ebadf)
      else if buf == 0
      then (negsuc 0, set_errno s efault)
      else (let (ret, t) = syscall_write s fd buf count in
          if is_negative ret then (negsuc 0, set_errno t (negated ret)) else (ret, t))

-- `for i in 0..n { ptr.add(i).write_volatile(byte) }`, with `n` writes left from `ptr` on.
pub memset_loop : ℕ → (ℕ → ℕ) → ℕ → ℕ → (ℕ → ℕ)
memset_loop zero memory ptr byte = memory
memset_loop (suc n) memory ptr byte = memset_loop n (update memory ptr byte) (ptr + 1) byte

-- The byte is `c as u8`; `c` is taken modulo 2 ^ 32.
pub memset : State → ℕ → ℕ → ℕ → ℕ × State
memset s ptr c n =
    if ptr == 0 then (0, s) else (ptr, record s { memory = memset_loop n s.memory ptr (c % 256) })

-- `core::ptr::copy`: the destination gets what the source held.
pub copy : (ℕ → ℕ) → ℕ → ℕ → ℕ → (ℕ → ℕ)
copy memory src dest n p =
    if leb dest p && ltb p (dest + n) then memory (src + (p - dest)) else memory p

pub memmove : State → ℕ → ℕ → ℕ → ℕ × State
memmove s dest src n =
    if (dest == 0) || (src == 0)
    then (dest, s)
    else (dest, record s { memory = copy s.memory src dest n })

-- `while *ptr != 0`
pub strlen_loop : ℕ → (ℕ → ℕ) → ℕ → ℕ → Option ℕ
strlen_loop zero memory ptr len = none
strlen_loop (suc fuel) memory ptr len =
    let rest = strlen_loop fuel memory (ptr + 1) (len + 1) in
    if memory ptr == 0 then some len else rest

pub strlen : ℕ → State → ℕ → Option ℕ
strlen fuel s ptr = if ptr == 0 then some 0 else strlen_loop fuel s.memory ptr 0

-- `(c1 as c_int) - (c2 as c_int)`
abbrev pub difference : ℕ → ℕ → ℤ
difference a b = if ltb a b then neg (b - a) else pos (a - b)

pub strcmp_loop : ℕ → (ℕ → ℕ) → ℕ → ℕ → Option ℤ
strcmp_loop zero memory ptr1 ptr2 = none
strcmp_loop (suc fuel) memory ptr1 ptr2 =
    let rest = strcmp_loop fuel memory (ptr1 + 1) (ptr2 + 1) in
    if memory ptr1 == memory ptr2
    then (if memory ptr1 == 0 then some (pos 0) else rest)
    else some (difference (memory ptr1) (memory ptr2))

pub strcmp : ℕ → State → ℕ → ℕ → Option ℤ
strcmp fuel s s1 s2 =
    if (s1 == 0) || (s2 == 0) then some (pos 0) else strcmp_loop fuel s.memory s1 s2

-- `for _ in 0..n`
pub strncmp_loop : ℕ → (ℕ → ℕ) → ℕ → ℕ → ℤ
strncmp_loop zero memory ptr1 ptr2 = pos 0
strncmp_loop (suc n) memory ptr1 ptr2 =
    let rest = strncmp_loop n memory (ptr1 + 1) (ptr2 + 1) in
    if memory ptr1 == memory ptr2
    then (if memory ptr1 == 0 then pos 0 else rest)
    else difference (memory ptr1) (memory ptr2)

pub strncmp : State → ℕ → ℕ → ℕ → ℤ
strncmp s s1 s2 n = if (s1 == 0) || (s2 == 0) then pos 0 else strncmp_loop n s.memory s1 s2

-- `strcpy`: the terminating zero is copied too.
pub strcpy_loop : ℕ → (ℕ → ℕ) → ℕ → ℕ → Option (ℕ → ℕ)
strcpy_loop zero memory ptr_dest ptr_src = none
strcpy_loop (suc fuel) memory ptr_dest ptr_src =
    let written = update memory ptr_dest (memory ptr_src) in
    let rest = strcpy_loop fuel written (ptr_dest + 1) (ptr_src + 1) in
    if memory ptr_src == 0 then some written else rest

pub strcpy : ℕ → State → ℕ → ℕ → Option (ℕ × State)
strcpy fuel s dest src =
    if (dest == 0) || (src == 0)
    then some (dest, s)
    else elim (strcpy_loop fuel s.memory dest src) [
      | none ↦ none
      | some memory ↦ some (dest, record s { memory = memory })
    ]

-- `strncpy`, with `n` characters left; behind a terminating zero it pads with zeros.
pub strncpy_loop : ℕ → (ℕ → ℕ) → ℕ → ℕ → (ℕ → ℕ)
strncpy_loop zero memory ptr_dest ptr_src = memory
strncpy_loop (suc n) memory ptr_dest ptr_src =
    let written = update memory ptr_dest (memory ptr_src) in
    let rest = strncpy_loop n written (ptr_dest + 1) (ptr_src + 1) in
    if memory ptr_src == 0 then memset_loop n written (ptr_dest + 1) 0 else rest

pub strncpy : State → ℕ → ℕ → ℕ → ℕ × State
strncpy s dest src n =
    if (dest == 0) || (src == 0)
    then (dest, s)
    else (dest, record s { memory = strncpy_loop n s.memory dest src })
