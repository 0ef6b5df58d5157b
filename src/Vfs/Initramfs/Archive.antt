-- ===== src/Vfs/Initramfs/Archive.antt =====
-- hammam/src/vfs/initramfs.rs: `InitramfsFs::parse` and the lookup of a path.
-- The archive is a list of bytes; a name is a list of characters, which `from_utf8` of the library of
-- Rust makes of bytes. The map of entries is a list in the order of its keys. `none` is a loop without
-- fuel, and `some none` the panic of a slice whose end lies before its start.
pub mod Layout
pub mod Files
pub mod Fields
pub mod Parsed
pub mod Tests
use pindos.Base.{
  ℕ, zero, suc, ◌+◌, ◌-◌, Bool, true, false, not, ◌&&◌, ◌||◌, Option, none, some, List, [], ◌∷◌,
  ◌++◌, length, take, drop, ltb, leb, ◌==◌, if◌then◌else◌, bit_and,
}
use pindos.Vfs.{
  slash, is_empty, is_root, split, FileKind, Result, regular, directory, ok, err, not_found,
  not_a_directory,
}
use pindos.Vfs.Initramfs.{InitEntry, is_directory, hex8, align4, normalize_path, compute_children}

-- "070701" and "TRAILER!!!"
abbrev pub magic : List ℕ
magic = 48 ∷ 55 ∷ 48 ∷ 55 ∷ 48 ∷ 49 ∷ []

abbrev pub trailer : List ℕ
trailer = 84 ∷ 82 ∷ 65 ∷ 73 ∷ 76 ∷ 69 ∷ 82 ∷ 33 ∷ 33 ∷ 33 ∷ []

abbrev pub Entries : Type 0
Entries = List (List ℕ × InitEntry)

abbrev pub is_same : List ℕ → List ℕ → Bool
is_same [] [] = true
is_same (c ∷ a) (d ∷ b) = (c == d) && is_same a b
is_same _ _ = false

abbrev pub is_before : List ℕ → List ℕ → Bool
is_before [] [] = false
is_before [] (d ∷ b) = true
is_before (c ∷ a) [] = false
is_before (c ∷ a) (d ∷ b) = ltb c d || ((c == d) && is_before a b)

-- `BTreeMap::insert`, `get` and `keys`
abbrev pub insert : Entries → List ℕ → InitEntry → Entries
insert [] key entry = (key, entry) ∷ []
insert ((k, e) ∷ rest) key entry =
    if is_same k key
    then (key, entry) ∷ rest
    else if is_before key k
    then (key, entry) ∷ (k, e) ∷ rest
    else (k, e) ∷ insert rest key entry

abbrev pub get : Entries → List ℕ → Option InitEntry
get [] key = none
get ((k, e) ∷ rest) key = if is_same k key then some e else get rest key

abbrev pub keys : Entries → List (List ℕ)
keys [] = []
keys ((k, e) ∷ rest) = k ∷ keys rest

abbrev pub empty_directory : InitEntry
empty_directory = record { kind = directory; bytes = []; children = [] }

-- `&data[start..end]`
abbrev pub slice : List ℕ → ℕ → ℕ → List ℕ
slice bytes start end = take (end - start) (drop start bytes)

pub record InitramfsFs : Type 0 where
  pub root : InitEntry
  pub all_entries : Entries

-- The loop over the components of one path; `current` is the path so far.
pub add_parents : Entries → List ℕ → List (List ℕ) → Entries
add_parents entries current [] = entries
add_parents entries current (component ∷ rest) =
    if is_empty component
    then add_parents entries current rest
    else (let next = current ++ slash ∷ component in
        elim (get entries next) [
          | some _ ↦ add_parents entries next rest
          | none ↦ add_parents (insert entries next empty_directory) next rest
        ])

pub parent_loop : Entries → List (List ℕ) → Entries
parent_loop entries [] = entries
parent_loop entries (path ∷ rest) =
    if is_root path || is_same path trailer
    then parent_loop entries rest
    else parent_loop (add_parents entries [] (drop 1 (split [] path))) rest

pub create_parent_dirs : Entries → Entries
create_parent_dirs entries = parent_loop entries (keys entries)

-- The children of every directory, found among the keys of all entries.
pub set_children : List (List ℕ) → Entries → Entries
set_children names [] = []
set_children names ((path, entry) ∷ rest) =
    let others = set_children names rest in
    if is_directory entry.kind
    then (path, record entry { children = compute_children names path }) ∷ others
    else (path, entry) ∷ others

pub children_of_root : Option InitEntry → List (List ℕ)
children_of_root none = []
children_of_root (some entry) = entry.children

module _ (from_utf8 : List ℕ → Option (List ℕ)) where
  pub name_of : List ℕ → List ℕ
  name_of bytes = elim (from_utf8 bytes) [ none ↦ [] | some name ↦ name ]

  -- The entry at a position, whose name and contents have these lengths.
  pub kind_of : ℕ → FileKind
  kind_of mode = if bit_and mode 61440 == 16384 then directory else regular

  pub parse_loop : ℕ → List ℕ → ℕ → Entries → Option (Option Entries)
  parse_loop zero bytes pos entries = none
  parse_loop (suc fuel) bytes pos entries =
      let namesize = hex8 (slice bytes (pos + 94) (pos + 102)) in
      let filesize = hex8 (slice bytes (pos + 54) (pos + 62)) in
      let mode = hex8 (slice bytes (pos + 14) (pos + 22)) in
      let name_start = pos + 110 in
      let name = name_of (slice bytes name_start (name_start + namesize - 1)) in
      let data_start = align4 (name_start + namesize) in
      let data_end = data_start + filesize in
      let rest = parse_loop fuel bytes (align4 data_end) (
        insert entries name (record {
          kind = kind_of mode;
          bytes = slice bytes data_start data_end;
          children = [];
        })) in
      if ltb (length bytes) (pos + 110)
      then some (some entries)
      else if not (is_same (slice bytes pos (pos + 6)) magic)
      then some (some entries)
      else if ltb (length bytes) (name_start + namesize)
      then some (some entries)
      else if namesize == 0
      then some none
      else if is_same name trailer
      then some (some entries)
      else if ltb (length bytes) data_end
      then some (some entries)
      else rest

  pub finish : Entries → InitramfsFs
  finish entries =
      let all = create_parent_dirs entries in
      let with_children = set_children (keys all) all in
      record {
        root = record empty_directory {
          children = children_of_root (get with_children (slash ∷ []));
        };
        all_entries = with_children;
      }

  pub parse : ℕ → List ℕ → Option (Option InitramfsFs)
  parse fuel bytes = elim (parse_loop fuel bytes 0 (insert [] (slash ∷ []) empty_directory)) [
    | none ↦ none
    | some none ↦ some none
    | some (some entries) ↦ some (some (finish entries))
  ]

-- The entry that the node of a path has.
pub lookup_path : InitramfsFs → List ℕ → Result InitEntry
lookup_path fs path =
    let normalized = normalize_path path in
    if is_root normalized
    then ok fs.root
    else elim (get fs.all_entries normalized) [ some entry ↦ ok entry | none ↦ err not_found ]

abbrev pub contains : List (List ℕ) → List ℕ → Bool
contains [] name = false
contains (child ∷ rest) name = is_same child name || contains rest name

-- `InitramfsVnode::lookup` of the node of an entry at a path.
pub lookup_child : InitramfsFs → InitEntry → List ℕ → List ℕ → Result InitEntry
lookup_child fs entry path name =
    if not (is_directory entry.kind)
    then err not_a_directory
    else if not (contains entry.children name)
    then err not_found
    else lookup_path fs (if is_root path then slash ∷ name else path ++ slash ∷ name)
