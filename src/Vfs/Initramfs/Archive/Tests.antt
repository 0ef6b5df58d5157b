-- ===== src/Vfs/Initramfs/Archive/Tests.antt =====
-- An archive of the file /d/a, which holds "hi".
use pindos.Base.{ℕ, ◌≡◌, refl, Option, none, some, List, [], ◌∷◌, ◌++◌, arith, ◌⊎◌}
use pindos.Vfs.{ok, regular, directory, split}
use pindos.Vfs.Initramfs.{
  hex8, hex_loop, hex_digit, align4, normalize_path, normalize_loop, compute_children, is_child_of,
  get_relative_name,
}
use pindos.Vfs.Initramfs.Archive.{
  InitramfsFs, parse, parse_loop, name_of, kind_of, finish, create_parent_dirs, parent_loop,
  add_parents, set_children, children_of_root, lookup_path,
}
use pindos.Vfs.Initramfs.Archive.Layout.{Item, Layout, IsEnd, IsBroken}
use pindos.Vfs.Initramfs.Archive.Parsed.{all_items, parse-Layout}
use pindos.Vfs.Initramfs.Archive.Files.{IsKept}

abbrev file : List ℕ
file =
    48 ∷ 55 ∷ 48 ∷ 55 ∷ 48 ∷ 49 ∷ 48 ∷ 48 ∷ 48 ∷ 48 ∷ 48 ∷ 48 ∷ 48 ∷ 49 ∷ 48 ∷ 48 ∷ 48 ∷ 48 ∷ 56
    ∷ 49 ∷ 65 ∷ 52 ∷ 48 ∷ 48 ∷ 48 ∷ 48 ∷ 48 ∷ 48 ∷ 48 ∷ 48 ∷ 48 ∷ 48 ∷ 48 ∷ 48 ∷ 48 ∷ 48 ∷ 48 ∷ 48
    ∷ 48 ∷ 48 ∷ 48 ∷ 48 ∷ 48 ∷ 48 ∷ 48 ∷ 49 ∷ 48 ∷ 48 ∷ 48 ∷ 48 ∷ 48 ∷ 48 ∷ 48 ∷ 48 ∷ 48 ∷ 48 ∷ 48
    ∷ 48 ∷ 48 ∷ 48 ∷ 48 ∷ 50 ∷ 48 ∷ 48 ∷ 48 ∷ 48 ∷ 48 ∷ 48 ∷ 48 ∷ 48 ∷ 48 ∷ 48 ∷ 48 ∷ 48 ∷ 48 ∷ 48
    ∷ 48 ∷ 48 ∷ 48 ∷ 48 ∷ 48 ∷ 48 ∷ 48 ∷ 48 ∷ 48 ∷ 48 ∷ 48 ∷ 48 ∷ 48 ∷ 48 ∷ 48 ∷ 48 ∷ 48 ∷ 48 ∷ 48
    ∷ 48 ∷ 48 ∷ 48 ∷ 48 ∷ 48 ∷ 48 ∷ 53 ∷ 48 ∷ 48 ∷ 48 ∷ 48 ∷ 48 ∷ 48 ∷ 48 ∷ 48 ∷ 47 ∷ 100 ∷ 47 ∷ 97
    ∷ 0 ∷ 0 ∷ 104 ∷ 105 ∷ 0 ∷ 0 ∷ []

abbrev last : List ℕ
last =
    48 ∷ 55 ∷ 48 ∷ 55 ∷ 48 ∷ 49 ∷ 48 ∷ 48 ∷ 48 ∷ 48 ∷ 48 ∷ 48 ∷ 48 ∷ 49 ∷ 48 ∷ 48 ∷ 48 ∷ 48 ∷ 48
    ∷ 48 ∷ 48 ∷ 48 ∷ 48 ∷ 48 ∷ 48 ∷ 48 ∷ 48 ∷ 48 ∷ 48 ∷ 48 ∷ 48 ∷ 48 ∷ 48 ∷ 48 ∷ 48 ∷ 48 ∷ 48 ∷ 48
    ∷ 48 ∷ 48 ∷ 48 ∷ 48 ∷ 48 ∷ 48 ∷ 48 ∷ 49 ∷ 48 ∷ 48 ∷ 48 ∷ 48 ∷ 48 ∷ 48 ∷ 48 ∷ 48 ∷ 48 ∷ 48 ∷ 48
    ∷ 48 ∷ 48 ∷ 48 ∷ 48 ∷ 48 ∷ 48 ∷ 48 ∷ 48 ∷ 48 ∷ 48 ∷ 48 ∷ 48 ∷ 48 ∷ 48 ∷ 48 ∷ 48 ∷ 48 ∷ 48 ∷ 48
    ∷ 48 ∷ 48 ∷ 48 ∷ 48 ∷ 48 ∷ 48 ∷ 48 ∷ 48 ∷ 48 ∷ 48 ∷ 48 ∷ 48 ∷ 48 ∷ 48 ∷ 48 ∷ 48 ∷ 48 ∷ 48 ∷ 48
    ∷ 48 ∷ 48 ∷ 48 ∷ 48 ∷ 48 ∷ 48 ∷ 66 ∷ 48 ∷ 48 ∷ 48 ∷ 48 ∷ 48 ∷ 48 ∷ 48 ∷ 48 ∷ 84 ∷ 82 ∷ 65 ∷ 73
    ∷ 76 ∷ 69 ∷ 82 ∷ 33 ∷ 33 ∷ 33 ∷ 0 ∷ 0 ∷ 0 ∷ 0 ∷ []

abbrev archive : List ℕ
archive = file ++ last

abbrev from_utf8 : List ℕ → Option (List ℕ)
from_utf8 bytes = some bytes

abbrev parsed : InitramfsFs
parsed = record {
  root = record { kind = directory; bytes = []; children = (100 ∷ []) ∷ [] };
  all_entries =
      (47 ∷ [], record { kind = directory; bytes = []; children = (100 ∷ []) ∷ [] })
      ∷ (47 ∷ 100 ∷ [], record { kind = directory; bytes = []; children = (97 ∷ []) ∷ [] })
      ∷ (47 ∷ 100 ∷ 47 ∷ 97 ∷ [], record { kind = regular; bytes = 104 ∷ 105 ∷ []; children = [] })
      ∷ [];
}

parse_test : parse from_utf8 245 archive ≡ some (some parsed)
unfolding parse parse_loop name_of kind_of finish create_parent_dirs parent_loop add_parents
    set_children children_of_root hex8 hex_loop hex_digit align4 compute_children is_child_of
    get_relative_name split
parse_test = refl

lookup_path_test :
    lookup_path parsed (47 ∷ 47 ∷ 100 ∷ 47 ∷ 97 ∷ [])
    ≡ ok (record { kind = regular; bytes = 104 ∷ 105 ∷ []; children = [] })
unfolding lookup_path normalize_path normalize_loop
lookup_path_test = refl

parse-Layout_example :
    (items : List Item) × ((Layout from_utf8 archive (IsEnd from_utf8 archive) 0 items
        × (parse from_utf8 245 archive
            ≡ some (some (finish from_utf8 (all_items from_utf8 archive items))))
        × IsKept
            (all_items from_utf8 archive items)
            (finish from_utf8 (all_items from_utf8 archive items)).all_entries)
      ⊎ (Layout from_utf8 archive (IsBroken from_utf8 archive) 0 items
          × (parse from_utf8 245 archive ≡ some none)))
parse-Layout_example = parse-Layout from_utf8 archive 245 (omega arith) (omega arith)
