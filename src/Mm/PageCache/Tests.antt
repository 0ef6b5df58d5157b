-- ===== src/Mm/PageCache/Tests.antt =====
-- A cache with one dirty page.
use pindos.Base.{ℕ, ◌≡◌, refl, true, some, [], ◌∷◌}
use pindos.Mm.PageCache.{PageCache, get, sync_inode}
use pindos.Mm.PageCache.Sync.{IsClean, sync_inode-IsClean}

abbrev cache : PageCache ℕ
cache = record {
  pages = ((1, 0), 0) ∷ [];
  heap = λ _. record { bytes = 9; dirty = true };
  fresh = 1;
}

cached : get cache (1, 0) ≡ some 0
unfolding get
cached = refl

sync_inode-IsClean_example : IsClean (sync_inode cache 1).0 0
sync_inode-IsClean_example = sync_inode-IsClean cache 1 0 0 cached
