-- ===== src/Block/Tests.antt =====
-- Devices that are their names.
use pindos.Base.{ℕ, ◌+◌, ◌≡◌, some, List, [], ◌∷◌, arith, ◌==◌, if◌then◌else◌}
use pindos.Block.{register, get, device_count, get-register}

abbrev devices : List (List ℕ)
devices = (110 ∷ 49 ∷ []) ∷ (110 ∷ 50 ∷ []) ∷ []

get-register_example :
    (get 2 (register (110 ∷ []) devices).1
      ≡ (if 2 == (register (110 ∷ []) devices).0 then some (110 ∷ []) else get 2 devices))
    × (device_count (register (110 ∷ []) devices).1 ≡ device_count devices + 1)
get-register_example = get-register (110 ∷ []) devices 2 (omega arith)
