-- ===== src/Vfs/Initramfs.antt =====
-- hammam/src/vfs/initramfs.rs: the read-only file system over an archive in memory: the fields of
-- an archive header, the relation of paths to directories, and the operations of a node.
pub mod Read
pub mod Archive
pub mod Tests
use pindos.Base.{
  ℕ, zero, suc, ◌+◌, ◌-◌, ◌*◌, ◌%◌, ◌^◌, min, Bool, true, false, not, ◌&&◌, ◌||◌, Option, none,
  some, List, [], ◌∷◌, ◌++◌, length, take, drop, ltb, leb, ◌==◌, if◌then◌else◌, bit_and,
}
use pindos.Vfs.{
  slash, is_empty, ends_with_slash, pop, starts_with, is_root, FileKind, FileStat, Result, regular,
  directory, ok, err, not_found, not_a_directory, not_a_file, permission_denied,
}

-- `bytes` is the field `data`.
pub record InitEntry : Type 0 where
  pub kind : FileKind
  pub bytes : List ℕ
  pub children : List (List ℕ)

abbrev pub is_regular : FileKind → Bool
is_regular regular = true
is_regular _ = false

abbrev pub is_directory : FileKind → Bool
is_directory directory = true
is_directory _ = false

abbrev pub between : ℕ → ℕ → ℕ → Bool
between low high c = leb low c && leb c high

-- A hexadecimal digit of `u32::from_str_radix`.
pub hex_digit : ℕ → Option ℕ
hex_digit c =
    if between 48 57 c
    then some (c - 48)
    else if between 65 70 c
    then some (c - 55)
    else if between 97 102 c
    then some (c - 87)
    else none

pub hex_loop : ℕ → List ℕ → Option ℕ
hex_loop value [] = some value
hex_loop value (c ∷ rest) = elim (hex_digit c) [
  | none ↦ none
  | some digit ↦ hex_loop (value * 16 + digit) rest
]

-- A plus sign may stand before the digits; what is no number is 0.
pub hex8 : List ℕ → ℕ
hex8 [] = 0
hex8 (c ∷ rest) =
    elim (if (c == 43) && not (is_empty rest) then hex_loop 0 rest else hex_loop 0 (c ∷ rest)) [
      | none ↦ 0
      | some value ↦ value
    ]

pub align4 : ℕ → ℕ
align4 x = bit_and ((x + 3) % 2 ^ 64) (2 ^ 64 - 4)

pub normalize_loop : List ℕ → Bool → List ℕ → List ℕ
normalize_loop normalized prev_was_slash [] = normalized
normalize_loop normalized prev_was_slash (ch ∷ rest) =
    if ch == slash
    then normalize_loop (if prev_was_slash then normalized else normalized ++ ch ∷ []) true rest
    else normalize_loop (normalized ++ ch ∷ []) false rest

pub normalize_path : List ℕ → List ℕ
normalize_path path =
    let collapsed = normalize_loop [] false path in
    let normalized = if is_empty collapsed then slash ∷ [] else collapsed in
    if ltb 1 (length normalized) && ends_with_slash false normalized
    then pop normalized
    else normalized

-- `path.matches('/').count()`
abbrev pub slashes : List ℕ → ℕ
slashes [] = 0
slashes (ch ∷ rest) = (if ch == slash then 1 else 0) + slashes rest

pub is_child_of : List ℕ → List ℕ → Bool
is_child_of path parent_path =
    if is_root parent_path
    then starts_with path (slash ∷ []) && (slashes (drop 1 path) == 0)
    else if not (starts_with path parent_path)
    then false
    else if leb (length path) (length parent_path)
    then false
    else (slashes (drop (length parent_path) path) == 1)
      && starts_with (drop (length parent_path) path) (slash ∷ [])

pub get_relative_name : List ℕ → List ℕ → List ℕ
get_relative_name path parent_path =
    if is_root parent_path
    then drop 1 path
    else if starts_with path parent_path && ltb (length parent_path) (length path)
    then (if slashes (drop (length parent_path + 1) path) == 0
        then drop (length parent_path + 1) path
        else [])
    else []

-- `compute_children` over the keys of the entries.
pub compute_children : List (List ℕ) → List ℕ → List (List ℕ)
compute_children [] parent_path = []
compute_children (key ∷ keys) parent_path =
    let rest = compute_children keys parent_path in
    if is_child_of key parent_path && not (is_empty (get_relative_name key parent_path))
    then get_relative_name key parent_path ∷ rest
    else rest

-- `InitramfsVnode::read`: the number of bytes and the buffer that it leaves.
pub read : InitEntry → ℕ → List ℕ → Result (ℕ × List ℕ)
read entry offset buf =
    if not (is_regular entry.kind)
    then err not_a_file
    else if ltb (length entry.bytes) offset
    then ok (0, buf)
    else (let to_read = min (length entry.bytes - offset) (length buf) in
        ok (to_read, take to_read (drop offset entry.bytes) ++ drop to_read buf))

pub write : InitEntry → ℕ → List ℕ → Result ℕ
write entry offset buf = err permission_denied

pub stat : InitEntry → Result FileStat
stat entry = ok (record { size = length entry.bytes; kind = entry.kind })

pub readdir : InitEntry → Result (List (List ℕ))
readdir entry = if is_directory entry.kind then ok entry.children else err not_a_file
