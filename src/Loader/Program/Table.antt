-- ===== src/Loader/Program/Table.antt =====
-- The loop over the table of relocations, with SMAP off.
use pindos.Base.{
  false, ℕ, suc, ◌+◌, ◌*◌, ◌/◌, ◌%◌, ◌^◌, ◌≤◌, ◌<◌, ◌≡◌, ◌≢◌, refl, List, [], ◌∷◌, arith, ◌∙◌, ap,
  sym, All, length, get_elem?, ◌⊎◌,
}
use mathlib.Core.Path.{subst}
use native.Mathlib.Decide.{ℕ_discrete}
use pindos.Mm.Buddy.{add64}
use pindos.Mm.Paging.{PageFlags, Memory}
use pindos.Mm.Paging.Walk.{Role, no_table}
use pindos.Mm.Paging.Address.{page_number}
use pindos.Loader.{Space, Outcome, ok, err, panic, fault, and_then, byte_at, copy}
use pindos.Loader.Place.{IsPlaced}
use pindos.Loader.Store.{
  HasPage, Stored, Stored-inside, Stored-outside, Returned, weaken, copy-Stored, address_limit,
}
use pindos.Loader.Program.{Rela, to_ne_bytes, relocate_loop}
use pindos.Loader.Program.Relocate.{
  Entry, IsRelative, length-to_ne_bytes, HoldsEntry, Holds-same, target, value, relocate_other,
  relocate_relative,
}

module _ (page_flags : PageFlags) (pml4 : ℕ) (first role : ℕ → Role) (m : Memory)
    (delta ent : ℕ) where
  -- The page of an address is placed.
  abbrev pub Page : ℕ → Type 0
  Page w = IsPlaced page_flags pml4 first role m.tables (page_number w)

  abbrev pub at : Entry → ℕ
  at e = target page_flags pml4 delta e

  abbrev pub new_bytes : Entry → List ℕ
  new_bytes e = to_ne_bytes 8 (value page_flags pml4 delta e)

  -- From `a` on, `ent` bytes apart, the memory holds these entries.
  abbrev pub HasTable : Space → ℕ → List Entry → Type 0
  HasTable s a [] = Unit
  HasTable s a (e ∷ entries) =
      HoldsEntry page_flags pml4 s a e
      × ((w : ℕ) → a ≤ w → w < a + 24 → Page w)
      × HasTable s (a + ent) entries

  -- What a relative entry writes is in range, and meets no later entry and nothing that one writes.
  abbrev pub AreClear : ℕ → List Entry → Type 0
  AreClear a [] = Unit
  AreClear a (e ∷ entries) =
      (IsRelative e
        → (at e + 8 < address_limit)
          × ((w : ℕ) → at e ≤ w → w < at e + 8 → Page w)
          × ((at e + 8 ≤ a + ent) ⊎ (a + ent + length entries * ent + 24 ≤ at e))
          × All (λ e'. IsRelative e' → (at e + 8 ≤ at e') ⊎ (at e' + 8 ≤ at e)) entries)
      × AreClear (a + ent) entries

  abbrev pub Unwritten : List Entry → ℕ → Type 0
  Unwritten entries w = All (λ e. IsRelative e → (w < at e) ⊎ (at e + 8 ≤ w)) entries

  -- Each relative entry has its value, and all other bytes are as before.
  pub record Relocated (s : Space) (entries : List Entry) (s' : Space) : Type 0 where
    pub same : s'.memory ≡ s.memory
    pub written :
        All
          (λ e.
            IsRelative e
            → (k : ℕ) → k < 8
            → byte_at page_flags pml4 s' (at e + k) ≡ get_elem? (new_bytes e) k)
          entries
    pub others :
        (w : ℕ)
        → w < address_limit
        → Page w
        → Unwritten entries w
        → byte_at page_flags pml4 s' w ≡ byte_at page_flags pml4 s w
    pub used : (p : ℕ) → first (p / 4096 * 4096) ≢ no_table → s'.bytes p ≡ s.bytes p

  HasTable-same :
      (s s1 : Space) (a : ℕ) (entries : List Entry)
      → a + length entries * ent + 24 < address_limit
      → ((w : ℕ)
          → a ≤ w
          → w < a + length entries * ent + 24
          → Page w
          → byte_at page_flags pml4 s1 w ≡ byte_at page_flags pml4 s w)
      → HasTable s a entries
      → HasTable s1 a entries
  HasTable-same s s1 a [] h same t = tt
  HasTable-same s s1 a (e ∷ entries) h same ((offset, info, addend), pages, rest) =
      let long : suc (length entries) * ent ≡ ent + length entries * ent = grind arith in
      let here : (w : ℕ)
          → a ≤ w
          → w < a + 24
          → byte_at page_flags pml4 s1 w ≡ byte_at page_flags pml4 s w =
        λ w lo hi. same w lo (omega (arith, hi)) (pages w lo hi) in
      (
        (
          Holds-same page_flags pml4 a e.r_offset s s1 (omega (arith, h))
              (λ k lo hi. here k lo (omega (arith, hi))) offset,
          Holds-same page_flags pml4 (a + 8) e.r_info s s1 (omega (arith, h))
              (λ k lo hi. here k (omega (arith, lo)) (omega (arith, hi))) info,
          Holds-same page_flags pml4 (a + 16) e.r_addend s s1 (omega (arith, h))
              (λ k lo hi. here k (omega (arith, lo)) (omega (arith, hi))) addend,
        ),
        pages,
        HasTable-same s s1 (a + ent) entries (omega (arith, h, long))
            (λ w lo hi p. same w (omega (arith, lo)) (omega (arith, hi, long)) p) rest,
      )

  -- The addresses that an entry writes are not written by the others.
  Unwritten-apart :
      (e : Entry) (entries : List Entry) (k : ℕ)
      → k < 8
      → All (λ e'. IsRelative e' → (at e + 8 ≤ at e') ⊎ (at e' + 8 ≤ at e)) entries
      → Unwritten entries (at e + k)
  Unwritten-apart e [] k h all = tt
  Unwritten-apart e (e' ∷ entries) k h (this, all) =
      ((λ is. omega (arith, this is, h)), Unwritten-apart e entries k h all)

  Relocated-skip :
      (s s' : Space) (e : Entry) (entries : List Entry)
      → (IsRelative e → ⊥)
      → Relocated s entries s'
      → Relocated s (e ∷ entries) s'
  Relocated-skip s s' e entries ne r = record {
    same = r.same;
    written = ((λ is. absurd (ne is)), r.written);
    others = λ w low p (this, all). r.others w low p all;
    used = r.used;
  }

  module _ (s s1 : Space) (start : s.memory ≡ m) (e : Entry) (entries : List Entry)
      (low : at e + 8 < address_limit) (pages : (w : ℕ) → at e ≤ w → w < at e + 8 → Page w)
      (stored : Stored page_flags pml4 first role s (at e) (new_bytes e) s1) where
    HasPage-Page : (w : ℕ) → Page w → HasPage page_flags pml4 first role s w
    HasPage-Page w p =
        subst (λ x. IsPlaced page_flags pml4 first role x.tables (page_number w)) (sym start) p

    outside :
        (w : ℕ)
        → w < address_limit
        → Page w
        → (w < at e) ⊎ (at e + 8 ≤ w)
        → byte_at page_flags pml4 s1 w ≡ byte_at page_flags pml4 s w
    outside w h p far =
        Stored-outside page_flags pml4 first role s s1 _ _ stored w h (HasPage-Page w p)
          (omega (arith, far, length-to_ne_bytes 8 (value page_flags pml4 delta e)))

    Relocated-more :
        All (λ e'. IsRelative e' → (at e + 8 ≤ at e') ⊎ (at e' + 8 ≤ at e)) entries
        → IsRelative e
        → (s' : Space) → Relocated s1 entries s'
        → Relocated s (e ∷ entries) s'
    Relocated-more clear is s' r = record {
      same = r.same ∙ stored.same;
      written = (
        (λ _ k h.
            r.others (at e + k) (omega (arith, low, h))
              (pages (at e + k) (omega arith) (omega (arith, h)))
              (Unwritten-apart e entries k h clear)
            ∙ Stored-inside page_flags pml4 first role s s1 _ _ stored k (omega (arith, low, h))
                (HasPage-Page _ (pages (at e + k) (omega arith) (omega (arith, h))))
                (omega (arith, h, length-to_ne_bytes 8 (value page_flags pml4 delta e)))),
        r.written,
      );
      others = λ w h p (this, all). r.others w h p all ∙ outside w h p (this is);
      used = λ p u. r.used p u ∙ stored.used p u;
    }

  -- One entry is written; then the loop goes on.
  Relocated-then :
      (s : Space) (e : Entry) (entries : List Entry) (r : Outcome Unit × Space)
      (f : Space → Outcome Unit × Space)
      → Returned page_flags pml4 first role
          (Stored page_flags pml4 first role s (at e) (new_bytes e))
          r
      → ((s1 : Space)
          → Stored page_flags pml4 first role s (at e) (new_bytes e) s1
          → Returned page_flags pml4 first role (Relocated s (e ∷ entries)) (f s1))
      → Returned page_flags pml4 first role (Relocated s (e ∷ entries)) (and_then r (λ _ s1. f s1))
  Relocated-then s e entries (ok u, s1) f stored go = go s1 stored
  Relocated-then s e entries (err x, s1) f stored go = elim stored [ ]
  Relocated-then s e entries (panic, s1) f stored go = elim stored [ ]
  Relocated-then s e entries (fault, s1) f stored go = elim stored [ ]

  -- With SMAP off, for a table of entries on placed pages, whose targets lie on placed pages and
  -- meet neither a later entry or the 24 bytes behind the table, nor what another entry writes: the
  -- loop returns, each relative entry has its addend plus the offset at its target, and every other
  -- byte is as it was.
  pub relocate_loop-Relocated :
      (r : Rela) (entries : List Entry) (i a : ℕ) (s : Space)
      → r.rela_ent ≡ ent
      → r.rela_va + delta + i * ent ≡ a
      → s.memory ≡ m
      → a + length entries * ent + 24 < address_limit
      → HasTable s a entries
      → AreClear a entries
      → Returned page_flags pml4 first role
          (Relocated s entries)
          (relocate_loop page_flags pml4 false (length entries) i r delta s)
  unfolding relocate_loop
  relocate_loop-Relocated r [] i a s size place start h t c = record {
    same = refl;
    written = tt;
    others = λ w low p u. refl;
    used = λ p u. refl;
  }
  relocate_loop-Relocated r (e ∷ entries) i a s size place start h (entry, on, rest)
        (clear, later) =
      let long : suc (length entries) * ent ≡ ent + length entries * ent = grind arith in
      let step : (i + 1) * ent ≡ i * ent + ent = grind arith in
      let address : add64 (add64 r.rela_va delta) (i * r.rela_ent) ≡ a =
        ap (λ (x : ℕ). add64 (add64 r.rela_va delta) (i * x)) size
        ∙ omega (arith, place, h, long) in
      let bound : a + ent + length entries * ent + 24 < address_limit = omega (arith, h, long) in
      let next : r.rela_va + delta + (i + 1) * ent ≡ a + ent = omega (arith, place, step) in
      rw address (elim (ℕ_discrete (e.r_info % 2 ^ 32) 8) [
        | no other ↦
            rw (relocate_other page_flags pml4 delta a s e (omega (arith, h)) entry other) (
              weaken page_flags pml4 first role
                (relocate_loop page_flags pml4 false (length entries) (i + 1) r delta s)
                (λ s' x. Relocated-skip s s' e entries other x)
                (relocate_loop-Relocated r entries (i + 1) (a + ent) s size next start bound rest
                  later))
        | yes is ↦
            let (low, pages, away, apart) = clear is in
            rw
              (relocate_relative page_flags pml4 delta a s e (omega (arith, h)) entry is
                (omega (arith, low)))
              (Relocated-then s e entries (copy page_flags pml4 false (new_bytes e) (at e) s)
                (λ s1. relocate_loop page_flags pml4 false (length entries) (i + 1) r delta s1)
                (copy-Stored page_flags pml4 first role (new_bytes e) s (at e)
                  (omega (arith, low, length-to_ne_bytes 8 (value page_flags pml4 delta e)))
                  (λ w lo hi.
                    subst (λ x. IsPlaced page_flags pml4 first role x.tables (page_number w))
                      (sym start)
                      (pages w lo
                        (omega (arith, hi, length-to_ne_bytes 8 (value page_flags pml4 delta e))))))
                (λ s1 stored.
                  weaken page_flags pml4 first role
                    (relocate_loop page_flags pml4 false (length entries) (i + 1) r delta s1)
                    (Relocated-more s s1 start e entries low pages stored apart is)
                    (relocate_loop-Relocated r entries (i + 1) (a + ent) s1 size next
                      (stored.same ∙ start) bound
                      (HasTable-same s s1 (a + ent) entries bound
                        (λ w lo hi p.
                          outside s s1 start e entries low pages stored w (omega (arith, hi, bound))
                            p (omega (arith, away, lo, hi)))
                        rest)
                      later)))
      ])
