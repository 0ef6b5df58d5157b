-- ===== src/Vfs/Mounts.antt =====
-- The mount point of a path is the longest one that is a prefix of it.
use pindos.Base.{
  ℕ, suc, ◌≤◌, ◌≡◌, refl, true, Option, none, some, List, [], ◌∷◌, All, arith, length, get_elem?,
  ltb, Bool-cases, inl, inr, ◌⊎◌, sym,
}
use mathlib.Core.Path.{subst}
use pindos.Vfs.{VfsMount, VfsTree, starts_with, find_loop, find_mount_point}

module _ {V : Type 0} (path : List ℕ) where
  abbrev size : Option (VfsMount V) → ℕ
  size none = 0
  size (some (point, node)) = length point

  -- No matching mount point is longer.
  abbrev pub IsLongest : VfsTree V → Option (VfsMount V) → Type 0
  IsLongest mounts r = All (λ m. starts_with path m.0 ≡ true → length m.0 ≤ size r) mounts

  -- The result is the mount at an index, and matches.
  abbrev pub IsMatch : VfsTree V → Option (VfsMount V) → Type 0
  IsMatch mounts r =
      (i : ℕ) × (m : VfsMount V) × (get_elem? mounts i ≡ some m)
      × (r ≡ some m)
      × (starts_with path m.0 ≡ true)

  later :
      (first : VfsMount V) (rest : VfsTree V) (r best : Option (VfsMount V))
      → (r ≡ best) ⊎ IsMatch rest r
      → (r ≡ best) ⊎ IsMatch (first ∷ rest) r
  later first rest r best (inl e) = inl e
  later first rest r best (inr (i, m, at, e, matches)) = inr (suc i, m, at, e, matches)

  taken :
      (first : VfsMount V) (rest : VfsTree V) (r best : Option (VfsMount V))
      → starts_with path first.0 ≡ true
      → (r ≡ some first) ⊎ IsMatch rest r
      → (r ≡ best) ⊎ IsMatch (first ∷ rest) r
  taken first rest r best matches (inl e) = inr (0, first, refl, e, matches)
  taken first rest r best matches (inr (i, m, at, e, matches')) = inr (suc i, m, at, e, matches')

  -- What the loop ends with, from the best match so far.
  abbrev IsBest : VfsTree V → Option (VfsMount V) → Option (VfsMount V) → Type 0
  IsBest mounts best r = (size best ≤ size r) × IsLongest mounts r × ((r ≡ best) ⊎ IsMatch mounts r)

  find_loop-longest :
      (mounts : VfsTree V) (best : Option (VfsMount V))
      → IsBest mounts best (find_loop path mounts best (size best))
  unfolding find_loop
  find_loop-longest [] best = (omega arith, tt, inl refl)
  find_loop-longest ((point, node) ∷ rest) best = elim (Bool-cases (starts_with path point)) [
    | inr differs ↦
        let (grows, longest, found) = find_loop-longest rest best in
        let e : find_loop path ((point, node) ∷ rest) best (size best)
            ≡ find_loop path rest best (size best) =
          rw differs refl in
        subst (IsBest ((point, node) ∷ rest) best) (sym e)
          (grows, ((λ h. absurd (cc (h, differs))), longest), later (point, node) rest _ best found)
    | inl matches ↦ elim (Bool-cases (ltb (size best) (length point))) [
      | inl longer ↦
          let (grows, longest, found) = find_loop-longest rest (some (point, node)) in
          let e : find_loop path ((point, node) ∷ rest) best (size best)
              ≡ find_loop path rest (some (point, node)) (length point) =
            rw (matches, longer) refl in
          subst (IsBest ((point, node) ∷ rest) best) (sym e) (
            ground (arith, longer, grows),
            ((λ _. grows), longest),
            taken (point, node) rest _ best matches found,
          )
      | inr shorter ↦
          let (grows, longest, found) = find_loop-longest rest best in
          let e : find_loop path ((point, node) ∷ rest) best (size best)
              ≡ find_loop path rest best (size best) =
            rw (matches, shorter) refl in
          subst (IsBest ((point, node) ∷ rest) best) (sym e) (
            grows,
            ((λ _. ground (arith, shorter, grows)), longest),
            later (point, node) rest _ best found,
          )
    ]
  ]

  -- The lookup of a mount point finds one of the mounts, which is a prefix of the path and as long as
  -- any mount point that is a prefix; it finds none only where no mount point but the empty string is
  -- a prefix.
  pub find_mount_point-IsLongest :
      (mounts : VfsTree V)
      → IsLongest mounts (find_mount_point mounts path)
        × ((find_mount_point mounts path ≡ none) ⊎ IsMatch mounts (find_mount_point mounts path))
  unfolding find_mount_point
  find_mount_point-IsLongest mounts =
      let (_, longest, found) = find_loop-longest mounts none in (longest, found)
