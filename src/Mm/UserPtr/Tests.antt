-- ===== src/Mm/UserPtr/Tests.antt =====
-- A range for writing over two pages.
use pindos.Base.{◌+◌, ◌^◌, ◌≡◌, refl, true, some}
use pindos.Mm.UserPtr.{
  AddressSpace, validate_user_slice_mut, validate, page_loop, write_error, from_raw_parts, ok,
}

abbrev space : AddressSpace
space = record { translate = λ page. some page; translate_flags = λ _. some true }

accepted : validate_user_slice_mut space (2 ^ 35 + 2) 4000 200 ≡ some (ok (from_raw_parts 4000 200))
unfolding validate_user_slice_mut validate page_loop write_error
accepted = refl
