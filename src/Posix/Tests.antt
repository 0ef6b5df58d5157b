-- ===== src/Posix/Tests.antt =====
-- The POSIX layer on a small memory.
use pindos.Base.{◌^◌, ◌-◌, ℕ, zero, suc, ◌+◌, ◌≡◌, refl, ◌≢◌, ◌<◌, ℤ, pos, negsuc, some, arith}
use pindos.Posix.{State, strcmp, read, write, set_errno}
use pindos.Posix.Strings.{IsString, Compared, strcmp-Compared}
use pindos.Posix.Calls.{Returned, read-Returned}

-- The string "a" at 1 and at 3.
abbrev memory : ℕ → ℕ
memory (suc zero) = 97
memory (suc (suc (suc zero))) = 97
memory _ = 0

abbrev program : State
program = record { memory = memory; errno_val = pos 0 }

abbrev kernel : State → ℤ → ℕ → ℕ → ℤ × State
kernel s fd buf count = (negsuc 4, s)

IsString-at_1 : IsString memory 1 1
IsString-at_1 = record { inside = inside; end = refl }
  where
    inside : (i : ℕ) → i < 1 → memory (1 + i) ≢ 0
    inside zero h e = absurd (omega (arith, e))
    inside (suc i) h e = absurd (omega (arith, h))

IsString-at_3 : IsString memory 3 1
IsString-at_3 = record { inside = inside; end = refl }
  where
    inside : (i : ℕ) → i < 1 → memory (3 + i) ≢ 0
    inside zero h e = absurd (omega (arith, e))
    inside (suc i) h e = absurd (omega (arith, h))

strcmp-Compared_example : (r : ℤ) × (strcmp 2 program 1 3 ≡ some r) × Compared memory 1 3 1 1 r
strcmp-Compared_example =
    strcmp-Compared 2 program 1 3 1 1 (omega arith) (λ e. absurd (omega (arith, e)))
      (λ e. absurd (omega (arith, e))) IsString-at_1 IsString-at_3

read-Returned_example :
    Returned kernel program (pos 3) 64 10 (read kernel kernel program (pos 3) 64 10)
    × Returned kernel program (pos 3) 64 10 (write kernel kernel program (pos 3) 64 10)
read-Returned_example = read-Returned kernel kernel program (pos 3) 64 10

-- An error number of 2 ^ 32 sets errno to 0.
lost_error :
    (read (λ s _ _ _. (negsuc (2 ^ 32 - 1), s)) kernel program (pos 3) 64 10).1.errno_val ≡ pos 0
unfolding read set_errno
lost_error = refl
