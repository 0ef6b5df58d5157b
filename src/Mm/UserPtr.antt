-- ===== src/Mm/UserPtr.antt =====
-- hammam/src/mm/userptr.rs: the checks of a userspace range before the kernel reads or writes it.
-- The page walk of the address space (`translate`, `translate_flags` of hammam/src/sched/task.rs)
-- is the record `AddressSpace`. `fuel` bounds the rounds over the pages of a range; `none` is a
-- loop that ran out.
pub mod Pages
pub mod Tests
use pindos.Base.{
  ℕ, zero, suc, ◌+◌, ◌-◌, ◌^◌, Bool, true, false, Option, none, some, ℤ, neg, ltb, leb, ◌==◌,
  if◌then◌else◌, bit_and,
}
use pindos.Mm.Region.{page_mask}

pub data UserPtrError : Type 0 where
  bad_address not_mapped not_writable overflow_detected : UserPtrError

-- `impl From<UserPtrError> for i64`
pub errno : UserPtrError → ℤ
errno bad_address = neg 14
errno not_mapped = neg 14
errno not_writable = neg 13
errno overflow_detected = neg 22

abbrev pub user_max : ℕ
user_max = 2 ^ 47

-- An address space: where a page is, and whether its entry has the flag `WRITABLE`.
pub record AddressSpace : Type 0 where
  pub translate : ℕ → Option ℕ
  pub translate_flags : ℕ → Option Bool

pub data UserSlice : Type 0 where
  empty : UserSlice
  from_raw_parts : ℕ → ℕ → UserSlice

pub data Result : Type 0 where
  ok : UserSlice → Result
  err : UserPtrError → Result

unfoldable pub read_error : AddressSpace → ℕ → Option UserPtrError
read_error aspace page = elim (aspace.translate page) [ none ↦ some not_mapped | some _ ↦ none ]

pub write_error : AddressSpace → ℕ → Option UserPtrError
write_error aspace page = elim (aspace.translate_flags page) [
  | none ↦ some not_mapped
  | some true ↦ none
  | some false ↦ some not_writable
]

-- `while page <= last_page`: the first error of a page, if any.
unfoldable pub page_loop : (ℕ → Option UserPtrError) → ℕ → ℕ → ℕ → Option (Option UserPtrError)
page_loop error zero page last_page = none
page_loop error (suc fuel) page last_page =
    let rest = page_loop error fuel (page + 4096) last_page in
    if leb page last_page
    then elim (error page) [ some e ↦ some (some e) | none ↦ rest ]
    else some none

-- The body that both checks have; `checked_add` fails from 2 ^ 64 on.
unfoldable pub validate : (ℕ → Option UserPtrError) → ℕ → ℕ → ℕ → Option Result
validate error fuel ptr len =
    if ptr == 0
    then some (err bad_address)
    else if len == 0
    then some (ok empty)
    else if leb (2 ^ 64) (ptr + len)
    then some (err bad_address)
    else if ltb user_max (ptr + len)
    then some (err bad_address)
    else elim (page_loop error fuel (bit_and ptr page_mask) (bit_and (ptr + len - 1) page_mask)) [
      | none ↦ none
      | some (some e) ↦ some (err e)
      | some none ↦ some (ok (from_raw_parts ptr len))
    ]

unfoldable pub validate_user_slice : AddressSpace → ℕ → ℕ → ℕ → Option Result
validate_user_slice aspace = validate (read_error aspace)

pub validate_user_slice_mut : AddressSpace → ℕ → ℕ → ℕ → Option Result
validate_user_slice_mut aspace = validate (write_error aspace)
