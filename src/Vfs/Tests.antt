-- ===== src/Vfs/Tests.antt =====
-- Paths and mount points of a small tree.
use pindos.Base.{ℕ, ◌≡◌, refl, List, [], ◌∷◌, none, ◌⊎◌}
use pindos.Vfs.{root, trim, normalize_loop, normalize_path, find_mount_point, VfsTree, slash}
use pindos.Vfs.Path.{IsCanonical, normalize_path-IsCanonical, normalize_path-idempotent}
use pindos.Vfs.Mounts.{IsLongest, IsMatch, find_mount_point-IsLongest}

-- "//a/"
abbrev path : List ℕ
path = slash ∷ slash ∷ 97 ∷ slash ∷ []

-- "/" and "/a"
abbrev mounts : VfsTree ℕ
mounts = (slash ∷ [], 1) ∷ (slash ∷ 97 ∷ [], 2) ∷ []

normalize_path_test : normalize_path path ≡ slash ∷ 97 ∷ []
unfolding normalize_path root trim normalize_loop
normalize_path_test = refl

normalize_path-IsCanonical_example : IsCanonical (normalize_path path)
normalize_path-IsCanonical_example = normalize_path-IsCanonical path

normalize_path-idempotent_example : normalize_path (normalize_path path) ≡ normalize_path path
normalize_path-idempotent_example = normalize_path-idempotent path

find_mount_point-IsLongest_example :
    IsLongest (slash ∷ 97 ∷ []) mounts (find_mount_point mounts (slash ∷ 97 ∷ []))
    × ((find_mount_point mounts (slash ∷ 97 ∷ []) ≡ none)
        ⊎ IsMatch (slash ∷ 97 ∷ []) mounts (find_mount_point mounts (slash ∷ 97 ∷ [])))
find_mount_point-IsLongest_example = find_mount_point-IsLongest (slash ∷ 97 ∷ []) mounts
