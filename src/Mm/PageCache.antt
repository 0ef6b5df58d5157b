-- ===== src/Mm/PageCache.antt =====
-- hammam/src/mm/page_cache.rs: the cache of file pages.
-- A cached page stands behind an `Arc<Mutex<..>>`: the map holds a reference, and `heap` is what the
-- references point to, so that a page that a caller still holds stays shared with the cache. The
-- `BTreeMap` is an association list of the keys (inode, page index), at most one entry a key. The
-- data of a page is a type `D`.
pub mod Dirty
pub mod Sync
pub mod Tests
use pindos.Base.{
  ℕ, zero, suc, ◌+◌, ◌-◌, ◌*◌, Bool, true, false, ◌&&◌, Option, none, some, List, [], ◌∷◌, ◌++◌,
  length, ◌==◌, if◌then◌else◌, update, bit,
}

abbrev pub Key : Type 0
Key = ℕ × ℕ

abbrev pub same_key : Key → Key → Bool
same_key (inode, idx) (inode', idx') = (inode == inode') && (idx == idx')

-- `bytes` is the field `data`.
pub record CachedPage (D : Type 0) : Type 0 where
  pub bytes : D
  pub dirty : Bool

-- `fresh` is the next reference that `Arc::new` gives.
pub record PageCache (D : Type 0) : Type 0 where
  pub pages : List (Key × ℕ)
  pub heap : ℕ → CachedPage D
  pub fresh : ℕ

abbrev pub find : List (Key × ℕ) → Key → Option ℕ
find [] key = none
find ((k, page) ∷ rest) key = if same_key k key then some page else find rest key

abbrev pub remove : List (Key × ℕ) → Key → List (Key × ℕ)
remove [] key = []
remove ((k, page) ∷ rest) key =
    let others = remove rest key in if same_key k key then others else (k, page) ∷ others

abbrev pub keys_of : ℕ → List (Key × ℕ) → List Key
keys_of inode [] = []
keys_of inode ((k, page) ∷ rest) =
    let others = keys_of inode rest in if k.0 == inode then k ∷ others else others

abbrev pub remove_all : List Key → List (Key × ℕ) → List (Key × ℕ)
remove_all [] pages = pages
remove_all (key ∷ rest) pages = remove_all rest (remove pages key)

abbrev pub of_inode : ℕ → List Key → List Key
of_inode inode [] = []
of_inode inode (k ∷ rest) =
    let others = of_inode inode rest in if k.0 == inode then k ∷ others else others

module _ {D : Type 0} where
  pub mark_dirty_page : CachedPage D → CachedPage D
  mark_dirty_page page = record page { dirty = true }

  pub mark_clean_page : CachedPage D → CachedPage D
  mark_clean_page page = record page { dirty = false }

  -- `Arc::new(Mutex::new(page))`
  pub alloc : PageCache D → CachedPage D → PageCache D × ℕ
  alloc s page = (record s { heap = update s.heap s.fresh page; fresh = suc s.fresh }, s.fresh)

  pub get : PageCache D → Key → Option ℕ
  get s key = find s.pages key

  pub insert : PageCache D → Key → CachedPage D → PageCache D × Option ℕ
  insert s key page =
      let (t, reference) = alloc s page in
      (record t { pages = (key, reference) ∷ remove s.pages key }, find s.pages key)

  -- The loader runs only where the page is not cached.
  pub get_or_load : PageCache D → Key → D → PageCache D × ℕ
  get_or_load s key loaded = elim (find s.pages key) [
    | some reference ↦ (s, reference)
    | none ↦
        let (t, reference) = alloc s (record { bytes = loaded; dirty = false }) in
        (record t { pages = (key, reference) ∷ s.pages }, reference)
  ]

  pub evict : PageCache D → Key → PageCache D × Bool
  evict s key = elim (find s.pages key) [
    | none ↦ (s, false)
    | some _ ↦ (record s { pages = remove s.pages key }, true)
  ]

  pub evict_inode : PageCache D → ℕ → PageCache D × ℕ
  evict_inode s inode =
      let pages = remove_all (keys_of inode s.pages) s.pages in
      (record s { pages = pages }, length s.pages - length pages)

  abbrev pub dirty_keys : (ℕ → CachedPage D) → List (Key × ℕ) → List Key
  dirty_keys heap [] = []
  dirty_keys heap ((k, page) ∷ rest) =
      let others = dirty_keys heap rest in if (heap page).dirty then k ∷ others else others

  pub get_dirty_pages : PageCache D → List Key
  get_dirty_pages s = dirty_keys s.heap s.pages

  pub mark_dirty : PageCache D → Key → PageCache D × Bool
  mark_dirty s key = elim (find s.pages key) [
    | none ↦ (s, false)
    | some page ↦ (record s { heap = update s.heap page (mark_dirty_page (s.heap page)) }, true)
  ]

  pub mark_clean : PageCache D → Key → PageCache D × Bool
  mark_clean s key = elim (find s.pages key) [
    | none ↦ (s, false)
    | some page ↦ (record s { heap = update s.heap page (mark_clean_page (s.heap page)) }, true)
  ]

  -- The second loop of `sync_inode`; the write to the disk is not implemented yet.
  pub sync_loop : List Key → PageCache D → ℕ → PageCache D × ℕ
  sync_loop [] s synced = (s, synced)
  sync_loop (key ∷ rest) s synced =
      let (t, found) = mark_clean s key in sync_loop rest t (if found then synced + 1 else synced)

  pub sync_inode : PageCache D → ℕ → PageCache D × ℕ
  sync_inode s inode = sync_loop (of_inode inode (dirty_keys s.heap s.pages)) s 0

  pub cached_pages : PageCache D → ℕ
  cached_pages s = length s.pages

  pub dirty_pages_count : PageCache D → ℕ
  dirty_pages_count s = length (dirty_keys s.heap s.pages)

  pub clear : PageCache D → PageCache D
  clear s = record s { pages = [] }

  pub cache_size_bytes : PageCache D → ℕ
  cache_size_bytes s = length s.pages * 4096
