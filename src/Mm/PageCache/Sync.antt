-- ===== src/Mm/PageCache/Sync.antt =====
-- `sync_inode` leaves no dirty page of the inode.
use pindos.Base.{
  ℕ, ◌≡◌, refl, Bool, true, false, ◌||◌, none, some, List, [], ◌∷◌, arith, ◌==◌, if◌then◌else◌,
  update, update_self, update_ne, Bool-cases, Option-cases, inl, inr, ap, sym, ◌∙◌,
}
use mathlib.Core.Path.{subst}
use native.Mathlib.Decide.{ℕ_discrete}
use pindos.Mm.PageCache.{
  Key, same_key, CachedPage, PageCache, find, get, mark_clean, mark_clean_page, dirty_keys,
  of_inode, sync_loop, sync_inode,
}
use pindos.Mm.PageCache.Dirty.{same_key-eq}

abbrev listed : Key → List Key → Bool
listed key [] = false
listed key (k ∷ rest) = same_key k key || listed key rest

some-eq : (a b : ℕ) → some a ≡ some b → a ≡ b
some-eq a b e = ap (λ o. elim o as (λ _. ℕ) [ none ↦ 0 | some x ↦ x ]) e

module _ {D : Type 0} where
  listed-dirty :
      (heap : ℕ → CachedPage D) (pages : List (Key × ℕ)) (key : Key) (page : ℕ)
      → find pages key ≡ some page
      → (heap page).dirty ≡ true
      → listed key (dirty_keys heap pages) ≡ true
  listed-dirty heap [] key page e d = absurd (cc)
  listed-dirty heap ((k, r) ∷ rest) key page e d = elim (Bool-cases (same_key k key)) [
    | inl same ↦
        let hit : r ≡ page =
          some-eq r page (ap (λ b. if b then some r else find rest key) (sym same) ∙ e) in
        let soiled : (heap r).dirty ≡ true = ap (λ x. (heap x).dirty) hit ∙ d in
        rw (soiled, listed, same) refl
    | inr other ↦
        let further : find rest key ≡ some page =
          ap (λ b. if b then some r else find rest key) (sym other) ∙ e in
        elim (Bool-cases (heap r).dirty) [
          | inl soiled ↦ rw (soiled, listed, other) (listed-dirty heap rest key page further d)
          | inr clean ↦ rw clean (listed-dirty heap rest key page further d)
        ]
  ]

listed-of_inode :
    (inode : ℕ) (keys : List Key) (key : Key)
    → (key.0 == inode) ≡ true
    → listed key keys ≡ true
    → listed key (of_inode inode keys) ≡ true
listed-of_inode inode [] key h l = l
listed-of_inode inode (k ∷ rest) key h l = elim (Bool-cases (same_key k key)) [
  | inl same ↦
      let mine : (k.0 == inode) ≡ true = ap (λ x. x.0 == inode) (same_key-eq k key same) ∙ h in
      rw (mine, listed, same) refl
  | inr other ↦
      let further : listed key rest ≡ true = ap (λ b. b || listed key rest) (sym other) ∙ l in
      elim (Bool-cases (k.0 == inode)) [
        | inl mine ↦ rw (mine, listed, other) (listed-of_inode inode rest key h further)
        | inr not_mine ↦ rw not_mine (listed-of_inode inode rest key h further)
      ]
]

module _ {D : Type 0} where
  -- A page is clean.
  abbrev pub IsClean : PageCache D → ℕ → Type 0
  IsClean s page = (s.heap page).dirty ≡ false

  mark_clean-pages : (s : PageCache D) (key : Key) → (mark_clean s key).0.pages ≡ s.pages
  unfolding mark_clean
  mark_clean-pages s key = elim (Option-cases (find s.pages key)) [
    | inl e ↦ rw (e, mark_clean) refl
    | inr (r, e) ↦ rw (e, mark_clean) refl
  ]

  clean_write :
      (heap : ℕ → CachedPage D) (r page : ℕ)
      → (heap page).dirty ≡ false
      → (update heap r (mark_clean_page (heap r)) page).dirty ≡ false
  unfolding mark_clean_page
  clean_write heap r page c = elim (ℕ_discrete r page) [
    | yes e ↦
        subst (λ i. (update heap r (mark_clean_page (heap r)) i).dirty ≡ false) e
          (ap (λ x. x.dirty) (update_self heap r (mark_clean_page (heap r))))
    | no ne ↦ ap (λ x. x.dirty) (update_ne heap r page (mark_clean_page (heap r)) ne) ∙ c
  ]

  mark_clean-kept :
      (s : PageCache D) (key : Key) (page : ℕ) → IsClean s page → IsClean (mark_clean s key).0 page
  unfolding mark_clean
  mark_clean-kept s key page c = elim (Option-cases (find s.pages key)) [
    | inl e ↦ rw (e, mark_clean) c
    | inr (r, e) ↦ rw (e, mark_clean) (clean_write s.heap r page c)
  ]

  mark_clean-cleans :
      (s : PageCache D) (key : Key) (page : ℕ)
      → find s.pages key ≡ some page
      → IsClean (mark_clean s key).0 page
  unfolding mark_clean mark_clean_page
  mark_clean-cleans s key page e =
      rw (e, mark_clean)
        (ap (λ x. x.dirty) (update_self s.heap page (mark_clean_page (s.heap page))))

  sync_loop-kept :
      (keys : List Key) (s : PageCache D) (n page : ℕ)
      → IsClean s page
      → IsClean (sync_loop keys s n).0 page
  unfolding sync_loop
  sync_loop-kept [] s n page c = c
  sync_loop-kept (k ∷ rest) s n page c =
      sync_loop-kept rest (mark_clean s k).0 _ page (mark_clean-kept s k page c)

  sync_loop-cleans :
      (keys : List Key) (s : PageCache D) (n page : ℕ) (key : Key)
      → find s.pages key ≡ some page
      → listed key keys ≡ true
      → IsClean (sync_loop keys s n).0 page
  unfolding sync_loop
  sync_loop-cleans [] s n page key e l = absurd (cc)
  sync_loop-cleans (k ∷ rest) s n page key e l = elim (Bool-cases (same_key k key)) [
    | inl same ↦
        sync_loop-kept rest (mark_clean s k).0 _ page
          (mark_clean-cleans s k page (ap (find s.pages) (same_key-eq k key same) ∙ e))
    | inr other ↦
        sync_loop-cleans rest (mark_clean s k).0 _ page key
          (ap (λ p. find p key) (mark_clean-pages s k) ∙ e)
          (ap (λ b. b || listed key rest) (sym other) ∙ l)
  ]

  -- After `sync_inode`, every page that the cache holds of the inode is clean, also where two keys
  -- share a page.
  pub sync_inode-IsClean :
      (s : PageCache D) (inode idx page : ℕ)
      → get s (inode, idx) ≡ some page
      → IsClean (sync_inode s inode).0 page
  unfolding sync_inode get
  sync_inode-IsClean s inode idx page e = elim (Bool-cases (s.heap page).dirty) [
    | inr clean ↦ sync_loop-kept (of_inode inode (dirty_keys s.heap s.pages)) s 0 page clean
    | inl dirty ↦
        sync_loop-cleans (of_inode inode (dirty_keys s.heap s.pages)) s 0 page (inode, idx) e
          (listed-of_inode inode (dirty_keys s.heap s.pages) (inode, idx) (ground arith)
            (listed-dirty s.heap s.pages (inode, idx) page e dirty))
  ]
