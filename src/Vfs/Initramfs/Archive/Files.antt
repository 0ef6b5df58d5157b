-- ===== src/Vfs/Initramfs/Archive/Files.antt =====
-- What the steps after the loop of the parser keep of its entries.
use pindos.Base.{
  ℕ, ◌≡◌, refl, false, if◌then◌else◌, ◌||◌, Option, none, some, List, [], ◌∷◌, ◌++◌, drop, ap, sym,
  ◌∙◌, Bool-cases, Option-cases, inl, inr,
}
use pindos.Vfs.{split, is_empty, is_root, slash}
use pindos.Vfs.Initramfs.{InitEntry, is_directory, compute_children}
use pindos.Vfs.Initramfs.Archive.{
  Entries, insert, get, keys, is_same, is_before, trailer, empty_directory, add_parents,
  parent_loop, create_parent_dirs, set_children, finish,
}
use pindos.Vfs.Initramfs.Archive.Layout.{is_same-true}

-- Every entry is still there, up to its list of children.
abbrev pub IsKept : Entries → Entries → Type 0
IsKept entries entries' =
    (path : List ℕ) (entry : InitEntry)
    → get entries path ≡ some entry
    → (children : List (List ℕ)) × (get entries' path ≡ some (record entry { children = children }))

get-insert :
    (entries : Entries) (key path : List ℕ) (entry : InitEntry)
    → is_same key path ≡ false
    → get (insert entries key entry) path ≡ get entries path
get-insert [] key path entry other = rw other refl
get-insert ((k, e) ∷ rest) key path entry other = elim (Bool-cases (is_same k key)) [
  | inl same ↦
      let k_other : is_same k path ≡ false =
        ap (λ x. is_same x path) (is_same-true k key same) ∙ other in
      rw (same, other, k_other) refl
  | inr apart ↦ elim (Bool-cases (is_before key k)) [
    | inl before ↦ rw (apart, before, other) refl
    | inr after ↦
        rw (apart, after)
          (elim (Bool-cases (is_same k path)) [
            | inl here ↦ rw here refl
            | inr there ↦ rw there (get-insert rest key path entry other)
          ])
  ]
]

-- A new key leaves every entry in place.
get-insert_new :
    (entries : Entries) (key path : List ℕ) (entry e : InitEntry)
    → get entries key ≡ none
    → get entries path ≡ some e
    → get (insert entries key entry) path ≡ some e
get-insert_new entries key path entry e new old = elim (Bool-cases (is_same key path)) [
  | inl same ↦ absurd (cc (new, old, ap (get entries) (is_same-true key path same)))
  | inr other ↦ get-insert entries key path entry other ∙ old
]

get-add_parents :
    (entries : Entries) (current : List ℕ) (components : List (List ℕ)) (path : List ℕ)
    (e : InitEntry)
    → get entries path ≡ some e
    → get (add_parents entries current components) path ≡ some e
unfolding add_parents
get-add_parents entries current [] path e h = h
get-add_parents entries current (component ∷ rest) path e h =
    elim (Bool-cases (is_empty component)) [
      | inl nothing ↦ rw nothing (get-add_parents entries current rest path e h)
      | inr named ↦ elim (Option-cases (get entries (current ++ slash ∷ component))) [
        | inl absent ↦
            rw (named, absent)
              (get-add_parents (insert entries (current ++ slash ∷ component) empty_directory)
                (current ++ slash ∷ component) rest path e
                (get-insert_new entries (current ++ slash ∷ component) path empty_directory e absent
                  h))
        | inr (x, here) ↦
            rw (named, here) (get-add_parents entries (current ++ slash ∷ component) rest path e h)
      ]
    ]

get-parent_loop :
    (entries : Entries) (paths : List (List ℕ)) (path : List ℕ) (e : InitEntry)
    → get entries path ≡ some e
    → get (parent_loop entries paths) path ≡ some e
unfolding parent_loop
get-parent_loop entries [] path e h = h
get-parent_loop entries (p ∷ rest) path e h = elim (Bool-cases (is_root p || is_same p trailer)) [
  | inl skipped ↦ rw skipped (get-parent_loop entries rest path e h)
  | inr nested ↦ rw nested (
      get-parent_loop (add_parents entries [] (drop 1 (split [] p))) rest path e
        (get-add_parents entries [] (drop 1 (split [] p)) path e h))
]

set_children-IsKept :
    (names : List (List ℕ)) (entries : Entries) → IsKept entries (set_children names entries)
unfolding set_children
set_children-IsKept names [] path entry h = absurd (cc h)
set_children-IsKept names ((p, x) ∷ rest) path entry h = elim (Bool-cases (is_same p path)) [
  | inl same ↦
      let it : x ≡ entry = cc (h, ap (λ b. if b then some x else get rest path) (sym same)) in
      elim (Bool-cases (is_directory x.kind)) [
        | inl dir ↦ (
          compute_children names p,
          rw (dir, same)
              (ap (λ (e : InitEntry). some (record e { children = compute_children names p })) it),
        )
        | inr file ↦ (entry.children, rw (file, same) (ap some it))
      ]
  | inr other ↦
      let later : get rest path ≡ some entry =
        ap (λ b. if b then some x else get rest path) (sym other) ∙ h in
      let (children, kept) = set_children-IsKept names rest path entry later in
      (
        children,
        elim (Bool-cases (is_directory x.kind)) [
          | inl dir ↦ rw (dir, other) kept
          | inr file ↦ rw (file, other) kept
        ],
      )
]

pub finish-IsKept :
    (from_utf8 : List ℕ → Option (List ℕ)) (entries : Entries)
    → IsKept entries (finish from_utf8 entries).all_entries
unfolding finish create_parent_dirs
finish-IsKept from_utf8 entries path e h =
    set_children-IsKept (keys (create_parent_dirs entries)) (create_parent_dirs entries) path e
      (get-parent_loop entries (keys entries) path e h)
