-- ===== src/Io/Ring.antt =====
-- hammam/src/io/uring.rs: `RingHeader`. The atomics are read and written by one thread; positions
-- are u32 and wrap.
pub mod Window
use pindos.Base.{
  ℕ, zero, suc, ◌+◌, ◌-◌, ◌%◌, ◌^◌, Bool, true, false, Option, none, some, List, [], ◌∷◌, ℤ, neg,
  negsuc, is_negative, length, get_elem?, set, ltb, leb, ◌==◌, if◌then◌else◌, bit_and,
}

pub record RingHeader : Type 0 where
  pub head : ℕ
  pub tail : ℕ
  pub mask : ℕ
  pub entries : ℕ

-- `u32::next_power_of_two` from `2 ^ k` on, with `n` doublings left; 0 when it overflows.
pub next_power_of_two : ℕ → ℕ → ℕ → ℕ
next_power_of_two zero k entries = 0
next_power_of_two (suc n) k entries =
    let rest = next_power_of_two n (suc k) entries in if leb entries (2 ^ k) then 2 ^ k else rest

abbrev pub add32 : ℕ → ℕ → ℕ
add32 a b = (a + b) % 2 ^ 32

abbrev pub sub32 : ℕ → ℕ → ℕ
sub32 a b = (a + 2 ^ 32 - b) % 2 ^ 32

pub new : ℕ → RingHeader
new requested =
    let entries = next_power_of_two 32 0 requested in
    record { head = 0; tail = 0; mask = sub32 entries 1; entries = entries }

abbrev pub len : RingHeader → ℕ
len r = sub32 r.tail r.head

abbrev pub is_empty : RingHeader → Bool
is_empty r = len r == 0

abbrev pub is_full : RingHeader → Bool
is_full r = leb r.entries (len r)

abbrev pub index : RingHeader → ℕ → ℕ
index r position = bit_and position r.mask

abbrev pub push : RingHeader → RingHeader × ℕ
push r = (record r { tail = add32 r.tail 1 }, r.tail)

abbrev pub pop : RingHeader → RingHeader × ℕ
pop r = (record r { head = add32 r.head 1 }, r.head)
