-- ===== src/Loader/Store.antt =====
-- Bytes written through the page tables can be read there, and change nothing else.
use pindos.Base.{
  ℕ, suc, ◌+◌, ◌-◌, ◌*◌, ◌/◌, ◌%◌, ◌^◌, ◌≤◌, ◌<◌, ◌≡◌, ◌≢◌, refl, true, false, Option, some, List,
  [], ◌∷◌, arith, ◌∙◌, ap, sym, update, update_ne, ◌==◌, ltb, leb, ◌&&◌, if◌then◌else◌, length,
  get_elem?, Bool-cases, inl, inr, ◌⊎◌,
}
use mathlib.Core.Path.{subst}
use native.Mathlib.Decide.{dec_lt, ℕ_discrete}
use pindos.Mm.Buddy.{add64}
use pindos.Mm.Paging.{PageFlags, translate}
use pindos.Mm.Paging.Walk.{Role, no_table, page}
use pindos.Mm.Paging.Address.{page_number}
use pindos.Loader.{is_refused, Space, Outcome, ok, err, panic, fault, byte_at, set_byte, copy}
use pindos.Loader.Place.{IsPlaced}

-- The addresses that the walk tells apart.
abbrev pub address_limit : ℕ
address_limit = 2 ^ 48

module _ (page_flags : PageFlags) (pml4 : ℕ) (first role : ℕ → Role) where
  -- The page of an address is placed.
  abbrev pub HasPage : Space → ℕ → Type 0
  HasPage s w = IsPlaced page_flags pml4 first role s.memory.tables (page_number w)

  -- What a write of `bs` at `virt` leaves.
  pub record Stored (s : Space) (virt : ℕ) (bs : List ℕ) (s' : Space) : Type 0 where
    pub same : s'.memory ≡ s.memory
    pub read :
        (w : ℕ)
        → w < address_limit
        → HasPage s w
        → byte_at page_flags pml4 s' w ≡ (
            if leb virt w && ltb w (virt + length bs)
            then get_elem? bs (w - virt)
            else byte_at page_flags pml4 s w)
    pub used : (p : ℕ) → first (p / 4096 * 4096) ≢ no_table → s'.bytes p ≡ s.bytes p

  abbrev pub Returned : (Space → Type 0) → Outcome Unit × Space → Type 0
  Returned P (ok u, s) = P s
  Returned P (err e, s) = ⊥
  Returned P (panic, s) = ⊥
  Returned P (fault, s) = ⊥

  module _ (s s' : Space) (virt : ℕ) (bs : List ℕ) (stored : Stored s virt bs s') where
    pub Stored-inside :
        (i : ℕ)
        → virt + i < address_limit
        → HasPage s (virt + i)
        → i < length bs
        → byte_at page_flags pml4 s' (virt + i) ≡ get_elem? bs i
    Stored-inside i low there h =
        let here : (leb virt (virt + i) && ltb (virt + i) (virt + length bs)) ≡ true =
          ground (arith, h) in
        let e : virt + i - virt ≡ i = omega arith in
        stored.read (virt + i) low there ∙ rw here (ap (get_elem? bs) e)

    pub Stored-outside :
        (w : ℕ)
        → w < address_limit
        → HasPage s w
        → (w < virt) ⊎ (virt + length bs ≤ w)
        → byte_at page_flags pml4 s' w ≡ byte_at page_flags pml4 s w
    Stored-outside w low there far =
        let here : (leb virt w && ltb w (virt + length bs)) ≡ false = ground (arith, far) in
        stored.read w low there ∙ rw here refl

  pub weaken :
      {P Q : Space → Type 0} (r : Outcome Unit × Space)
      → ((s : Space) → P s → Q s)
      → Returned P r
      → Returned Q r
  weaken (ok u, s) f h = f s h
  weaken (err e, s) f h = h
  weaken (panic, s) f h = h
  weaken (fault, s) f h = h

  page-injective : {a b : ℕ} → page a ≡ page b → a ≡ b
  page-injective e = cc e

  -- Addresses of placed pages have one frame byte each.
  apart :
      (s : Space) (v w : ℕ) (a : HasPage s v) (b : HasPage s w)
      → v < address_limit
      → w < address_limit
      → v ≢ w
      → a.frame_of + v % 4096 ≢ b.frame_of + w % 4096
  apart s v w a b lv lw ne e =
      let frames : a.frame_of ≡ b.frame_of = omega (arith, e, a.aligned, b.aligned) in
      let pages : page_number v ≡ page_number w =
        page-injective (sym a.holds ∙ ap role frames ∙ b.holds) in
      ne (omega (arith, e, frames, pages, lv, lw))

  module _ (s : Space) (virt : ℕ) (here : HasPage s virt) where
    abbrev changed : ℕ → Space
    changed b = record s { bytes = update s.bytes (here.frame_of + virt % 4096) b }

    set_byte_placed : (b : ℕ) → set_byte page_flags pml4 false s virt b ≡ (ok tt, changed b)
    unfolding set_byte is_refused
    set_byte_placed b = rw (here.found virt refl, set_byte) refl

    byte_at_placed :
        (s' : Space)
        → s'.memory ≡ s.memory
        → byte_at page_flags pml4 s' virt ≡ some (s'.bytes (here.frame_of + virt % 4096))
    unfolding byte_at
    byte_at_placed s' same =
        rw (ap (λ m. translate page_flags pml4 m.tables virt) same ∙ here.found virt refl, byte_at)
          refl

  byte_at-changed :
      (s : Space) (virt b w : ℕ) (here : HasPage s virt) (there : HasPage s w)
      → virt < address_limit
      → w < address_limit
      → byte_at page_flags pml4 (changed s virt here b) w
        ≡ (if w == virt then some b else byte_at page_flags pml4 s w)
  byte_at-changed s virt b w here there lv lw = elim (Bool-cases (w == virt)) [
    | inl same ↦
        let e : w ≡ virt = ground (arith, same) in
        rw same (
          subst (λ x. byte_at page_flags pml4 (changed s virt here b) x ≡ some b) (sym e)
            (byte_at_placed s virt here (changed s virt here b) refl ∙ ap some (ground arith)))
    | inr other ↦
        let ne : virt ≢ w = λ e. absurd (ground (arith, other, e)) in
        rw other (
          byte_at_placed s w there (changed s virt here b) refl
          ∙ ap some (update_ne s.bytes _ _ b (apart s virt w here there lv lw ne))
          ∙ sym (byte_at_placed s w there s refl))
  ]

  used-changed :
      (s : Space) (virt b p : ℕ) (here : HasPage s virt)
      → first (p / 4096 * 4096) ≢ no_table
      → (changed s virt here b).bytes p ≡ s.bytes p
  used-changed s virt b p here used = update_ne s.bytes _ p b (λ e.
      let base : p / 4096 * 4096 ≡ here.frame_of = omega (arith, e, here.aligned) in
      used (ap first base ∙ here.unused))

  -- The byte at `w` once `b` is at `virt` and `bs` after it.
  cons_at :
      (virt b w : ℕ) (bs : List ℕ) (x y : Option ℕ)
      → x ≡ (if w == virt then some b else y)
      → (if leb (virt + 1) w && ltb w (virt + 1 + length bs)
          then get_elem? bs (w - (virt + 1))
          else x)
        ≡ (if leb virt w && ltb w (virt + suc (length bs))
            then get_elem? (b ∷ bs) (w - virt)
            else y)
  cons_at virt b w bs x y e = elim (dec_lt virt w) [
    | yes later ↦
        let step : w - virt ≡ suc (w - (virt + 1)) = omega (arith, later) in
        rw step (ground (arith, e, later))
    | no early ↦ elim (ℕ_discrete w virt) [
      | yes same ↦
          let step : w - virt ≡ 0 = omega (arith, same) in rw step (ground (arith, e, same))
      | no other ↦ ground (arith, e, early, other)
    ]
  ]

  Stored-more :
      (s : Space) (virt b : ℕ) (bs : List ℕ) (here : HasPage s virt)
      → virt < address_limit
      → (s' : Space) → Stored (changed s virt here b) (virt + 1) bs s'
      → Stored s virt (b ∷ bs) s'
  Stored-more s virt b bs here low s' rest = record {
    same = rest.same;
    read = λ w lw there.
        rest.read w lw there
        ∙ cons_at virt b w bs _ _ (byte_at-changed s virt b w here there low lw);
    used = λ p u. rest.used p u ∙ used-changed s virt b p here u;
  }

  pub Stored-nil : (s : Space) (virt : ℕ) → Stored s virt [] s
  Stored-nil s virt = record { same = refl; read = λ w lw there. ground arith; used = λ p u. refl }

  pub copy-Stored :
      (bs : List ℕ) (s : Space) (virt : ℕ)
      → virt + length bs ≤ address_limit
      → ((w : ℕ) → virt ≤ w → w < virt + length bs → HasPage s w)
      → Returned (Stored s virt bs) (copy page_flags pml4 false bs virt s)
  unfolding copy
  copy-Stored [] s virt fits pages = Stored-nil s virt
  copy-Stored (b ∷ bs) s virt fits pages =
      let here : HasPage s virt = pages virt (omega arith) (omega arith) in
      let next : add64 virt 1 ≡ virt + 1 = omega (arith, fits) in
      rw (set_byte_placed s virt here b, next)
        (weaken (copy page_flags pml4 false bs (virt + 1) (changed s virt here b))
          (Stored-more s virt b bs here (omega (arith, fits)))
          (copy-Stored bs (changed s virt here b) (virt + 1) (omega (arith, fits))
            (λ w lo hi. pages w (omega (arith, lo)) (omega (arith, hi)))))
