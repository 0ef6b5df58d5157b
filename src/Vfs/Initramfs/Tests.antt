-- ===== src/Vfs/Initramfs/Tests.antt =====
-- A file of three bytes.
use pindos.Base.{ℕ, ◌≡◌, refl, List, [], ◌∷◌}
use pindos.Vfs.{regular, ok}
use pindos.Vfs.Initramfs.{InitEntry, read, hex8, hex_loop, hex_digit}
use pindos.Vfs.Initramfs.Read.{Copied, read-Copied}

abbrev file : InitEntry
file = record { kind = regular; bytes = 1 ∷ 2 ∷ 3 ∷ []; children = [] }

-- "0000001F"
hex8_test : hex8 (48 ∷ 48 ∷ 48 ∷ 48 ∷ 48 ∷ 48 ∷ 49 ∷ 70 ∷ []) ≡ 31
unfolding hex8 hex_loop hex_digit
hex8_test = refl

read-Copied_example :
    (n : ℕ) × (buf : List ℕ) × (read file 1 (9 ∷ 9 ∷ 9 ∷ []) ≡ ok (n, buf))
    × Copied file 1 (9 ∷ 9 ∷ 9 ∷ []) n buf
read-Copied_example = read-Copied file 1 (9 ∷ 9 ∷ 9 ∷ []) refl
