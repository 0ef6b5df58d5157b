-- ===== src/Vfs.antt =====
-- hammam/src/vfs/mod.rs: paths, mount points and the lookup of a node.
-- A string is the list of its characters; where the code compares the byte lengths of prefixes of
-- one path, or slices at them, the lengths here are in characters. A `Vnode` is a type `V` with the
-- operation that the lookup calls.
pub mod Path
pub mod Mounts
pub mod Initramfs
pub mod Tests
use pindos.Base.{
  ℕ, zero, suc, ◌+◌, ◌<◌, Bool, true, false, not, ◌&&◌, ◌||◌, Option, none, some, List, [], ◌∷◌,
  ◌++◌, length, drop, ltb, leb, ◌==◌, if◌then◌else◌,
}

abbrev pub slash : ℕ
slash = 47

pub data FileKind : Type 0 where
  regular directory sym_link : FileKind

pub record FileStat : Type 0 where
  pub size : ℕ
  pub kind : FileKind

pub data IoError : Type 0 where
  not_found not_a_directory not_a_file permission_denied invalid_offset io : IoError

pub data Result {ℓ} (A : Type ℓ) : Type ℓ where
  ok : A → Result A
  err : IoError → Result A

abbrev pub is_empty : List ℕ → Bool
is_empty [] = true
is_empty _ = false

-- The last character, `before` for an empty string: is it a slash?
abbrev pub ends_with_slash : Bool → List ℕ → Bool
ends_with_slash before [] = before
ends_with_slash before (ch ∷ rest) = ends_with_slash (ch == slash) rest

-- `String::pop`
abbrev pub pop : List ℕ → List ℕ
pop [] = []
pop (ch ∷ []) = []
pop (ch ∷ next ∷ rest) = ch ∷ pop (next ∷ rest)

-- The loop of `normalize_path` over the characters.
unfoldable pub normalize_loop : List ℕ → Bool → List ℕ → List ℕ
normalize_loop normalized prev_was_slash [] = normalized
normalize_loop normalized prev_was_slash (ch ∷ rest) =
    if ch == slash
    then normalize_loop
        (if not prev_was_slash || is_empty normalized then normalized ++ ch ∷ [] else normalized)
        true rest
    else normalize_loop (normalized ++ ch ∷ []) false rest

-- The trailing slash goes, unless it is the whole path.
unfoldable pub trim : List ℕ → List ℕ
trim path = if ltb 1 (length path) && ends_with_slash false path then pop path else path

-- The path gets its leading slash.
unfoldable pub root : List ℕ → List ℕ
root [] = slash ∷ []
root (ch ∷ rest) = if ch == slash then ch ∷ rest else slash ∷ ch ∷ rest

unfoldable pub normalize_path : List ℕ → List ℕ
normalize_path path = root (trim (normalize_loop [] false path))

-- `path.starts_with(prefix)`
abbrev pub starts_with : List ℕ → List ℕ → Bool
starts_with path [] = true
starts_with [] (ch ∷ prefix) = false
starts_with (ch ∷ path) (c ∷ prefix) = ch == c && starts_with path prefix

-- `path.split('/')`
pub split : List ℕ → List ℕ → List (List ℕ)
split component [] = component ∷ []
split component (ch ∷ rest) =
    if ch == slash then component ∷ split [] rest else split (component ++ ch ∷ []) rest

abbrev pub is_root : List ℕ → Bool
is_root (ch ∷ []) = ch == slash
is_root _ = false

abbrev pub VfsMount : Type 0 → Type 0
VfsMount V = List ℕ × V

abbrev pub VfsTree : Type 0 → Type 0
VfsTree V = List (VfsMount V)

module _ {V : Type 0} where
  pub mount : VfsTree V → List ℕ → V → VfsTree V
  mount mounts path root_node = mounts ++ (path, root_node) ∷ []

  -- The loop of `find_mount_point`.
  unfoldable pub find_loop : List ℕ → VfsTree V → Option (VfsMount V) → ℕ → Option (VfsMount V)
  find_loop path [] best_match best_len = best_match
  find_loop path ((point, node) ∷ rest) best_match best_len =
      if starts_with path point && ltb best_len (length point)
      then find_loop path rest (some (point, node)) (length point)
      else find_loop path rest best_match best_len

  unfoldable pub find_mount_point : VfsTree V → List ℕ → Option (VfsMount V)
  find_mount_point mounts path = find_loop path mounts none 0

  -- `for component in remaining_path.split('/')`
  pub walk : (V → List ℕ → Result V) → V → List (List ℕ) → Result V
  walk lookup_node current [] = ok current
  walk lookup_node current (component ∷ rest) =
      if is_empty component
      then walk lookup_node current rest
      else elim (lookup_node current component) [
        | err e ↦ err e
        | ok next ↦ walk lookup_node next rest
      ]

  unfoldable pub lookup : (V → List ℕ → Result V) → VfsTree V → List ℕ → Result V
  lookup lookup_node mounts path =
      let normalized_path = normalize_path path in
      elim (find_mount_point mounts normalized_path) [
        | none ↦ err not_found
        | some (point, node) ↦
            let remaining_path =
              if is_root point
              then drop 1 normalized_path
              else drop (length point) normalized_path in
            if is_empty remaining_path || is_root remaining_path
            then ok node
            else walk lookup_node node (split [] remaining_path)
      ]
