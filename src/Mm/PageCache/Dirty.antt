-- ===== src/Mm/PageCache/Dirty.antt =====
-- The cache as a map from keys to pages: loading, inserting and evicting, and which pages are dirty.
use pindos.Base.{
  ℕ, ◌≡◌, refl, true, false, none, some, List, [], ◌∷◌, arith, if◌then◌else◌, Bool-cases,
  Option-cases, inl, inr, ap, sym, ◌∙◌,
}
use pindos.Mm.PageCache.{Key, same_key, PageCache, find, remove, alloc, get, get_or_load, evict}

same_key_refl : (key : Key) → same_key key key ≡ true
same_key_refl (inode, idx) = ground arith

pub same_key-eq : (k key : Key) → same_key k key ≡ true → k ≡ key
same_key-eq (a, b) (c, d) h =
    let e : a ≡ c = ground (arith, h) in let f : b ≡ d = ground (arith, h) in λ i. (e i, f i)

find-remove_self : (pages : List (Key × ℕ)) (key : Key) → find (remove pages key) key ≡ none
find-remove_self [] key = refl
find-remove_self ((k, page) ∷ rest) key = elim (Bool-cases (same_key k key)) [
  | inl same ↦ rw same (find-remove_self rest key)
  | inr other ↦ rw (other, find, other) (find-remove_self rest key)
]

find-remove_other :
    (pages : List (Key × ℕ)) (key other : Key)
    → same_key key other ≡ false
    → find (remove pages key) other ≡ find pages other
find-remove_other [] key other h = refl
find-remove_other ((k, page) ∷ rest) key other h = elim (Bool-cases (same_key k key)) [
  | inl same ↦
      let apart : same_key k other ≡ false =
        ap (λ x. same_key x other) (same_key-eq k key same) ∙ h in
      rw (same, apart) (find-remove_other rest key other h)
  | inr differs ↦ elim (Bool-cases (same_key k other)) [
    | inl hit ↦ rw (differs, find, hit) refl
    | inr miss ↦ rw (differs, find, miss) (find-remove_other rest key other h)
  ]
]

find_new :
    (pages : List (Key × ℕ)) (key : Key) (page : ℕ) → find ((key, page) ∷ pages) key ≡ some page
find_new pages key page = rw (same_key_refl key) refl

module _ {D : Type 0} where
  get_or_load_cached :
      (s : PageCache D) (key : Key) (loaded : D) (page : ℕ)
      → get s key ≡ some page
      → get_or_load s key loaded ≡ (s, page)
  unfolding get_or_load get
  get_or_load_cached s key loaded page e = rw (e, get_or_load) refl

  get-get_or_load :
      (s : PageCache D) (key : Key) (loaded : D)
      → get (get_or_load s key loaded).0 key ≡ some (get_or_load s key loaded).1
  unfolding get_or_load get alloc
  get-get_or_load s key loaded = elim (Option-cases (find s.pages key)) [
    | inl missing ↦ rw (missing, get_or_load) (find_new s.pages key s.fresh)
    | inr (page, cached) ↦ rw (cached, get_or_load) cached
  ]

  -- Loading gives a page that the cache then holds under the key; loading the key again runs no
  -- loader, whatever it would load: it gives the same page and changes nothing.
  pub get_or_load-again :
      (s : PageCache D) (key : Key) (loaded other : D)
      → (get (get_or_load s key loaded).0 key ≡ some (get_or_load s key loaded).1)
        × (get_or_load (get_or_load s key loaded).0 key other ≡ get_or_load s key loaded)
  get_or_load-again s key loaded other = (
    get-get_or_load s key loaded,
    get_or_load_cached (get_or_load s key loaded).0 key other (get_or_load s key loaded).1
        (get-get_or_load s key loaded),
  )

  -- An evicted key is not cached any more, and every other key is cached as before.
  pub get-evict :
      (s : PageCache D) (key other : Key)
      → get (evict s key).0 other ≡ (if same_key key other then none else get s other)
  unfolding evict get
  get-evict s key other = elim (Bool-cases (same_key key other)) [
    | inl same ↦
        let e : other ≡ key = sym (same_key-eq key other same) in
        elim (Option-cases (find s.pages key)) [
          | inl missing ↦ rw (missing, evict, same) (ap (find s.pages) e ∙ missing)
          | inr (page, cached) ↦
              rw (cached, evict, same)
                (ap (find (remove s.pages key)) e ∙ find-remove_self s.pages key)
        ]
    | inr differs ↦ elim (Option-cases (find s.pages key)) [
      | inl missing ↦ rw (missing, evict, differs) refl
      | inr (page, cached) ↦
          rw (cached, evict, differs) (find-remove_other s.pages key other differs)
    ]
  ]
