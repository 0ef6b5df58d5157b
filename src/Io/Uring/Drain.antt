-- ===== src/Io/Uring/Drain.antt =====
-- `process_sq` drains the submission queue, and completes in order.
use pindos.Base.{
  ℕ, zero, suc, ◌+◌, ◌-◌, ◌*◌, ◌%◌, ◌^◌, ◌≤◌, ◌<◌, ◌≡◌, refl, true, false, Option, none, some, List,
  [], ◌∷◌, ◌++◌, arith, length, get_elem?, set, take, length-set, map, Bool-cases, Option-cases,
  inl, inr, ltb, ◌==◌, ap, sym, ◌∙◌, bit_and, get_elem?_below, take_nil,
}
use pindos.Base.Bits.{bit_and_low, pow-add}
use Prim.Native.Nat.{◌∣◌}
use mathlib.Core.Path.{subst}
use mathlib.Core.List.{append-nil, append_assoc}
use native.Mathlib.Nat.{dvd-mul_left, mod-lt, mod-mod_of_dvd, one-le-pow, pow-le-pow_right}
use native.Mathlib.Numerals.{add-one}
use pindos.Io.Entry.{SqEntry, CqEntry, new_cqe}
use pindos.Io.Ring.{RingHeader, len, is_empty, is_full, index, push, pop}
use pindos.Io.Ring.Window.{window, window_mod, window_push}
use pindos.Io.Uring.{execute_sqe, complete, process_sq}

-- A header as `RingHeader::new` makes it and as the positions, which are u32, can become.
pub record IsRing (k : ℕ) (r : RingHeader) : Type 0 where
  pub size : r.entries ≡ 2 ^ k
  pub masks : r.mask + 1 ≡ 2 ^ k
  pub head_u32 : r.head < 2 ^ 32
  pub tail_u32 : r.tail < 2 ^ 32

abbrev pub completion : Option SqEntry → Option CqEntry
completion none = none
completion (some sqe) = some (new_cqe sqe.user_data (execute_sqe sqe))

-- The queue's entries, oldest first.
abbrev pub queued {ℓ} : {A : Type ℓ} → RingHeader → List A → List (Option A)
queued r slots = window r.entries slots r.head (len r)

-- The entries that the queue has room for.
abbrev pub room : RingHeader → ℕ
room r = r.entries - len r

lap : (k x : ℕ) → k ≤ 32 → x % 2 ^ 32 % 2 ^ k ≡ x % 2 ^ k
lap k x h =
    mod-mod_of_dvd (2 ^ k) x
      (subst (λ y. 2 ^ k ∣ y) (sym split) (dvd-mul_left (2 ^ k) (2 ^ (32 - k))))
  where
    exponent : 32 ≡ 32 - k + k
    exponent = omega arith

    split : 2 ^ 32 ≡ 2 ^ (32 - k) * 2 ^ k
    split = ap (λ e. 2 ^ e) exponent ∙ pow-add (32 - k) k

-- The index of a position is its remainder.
index_lem : {k : ℕ} {r : RingHeader} → IsRing k r → (p : ℕ) → index r p ≡ p % r.entries
index_lem {k} {r} i p =
    let low : bit_and p (2 ^ k - 1) ≡ p % 2 ^ k = bit_and_low k p in
    ap (λ x. bit_and p x) (omega (arith, i.masks)) ∙ low ∙ ap (λ x. p % x) (sym i.size)

-- Taking the head off.
module _ {k : ℕ} {r : RingHeader} (i : IsRing k r) (h : k < 32) {A : Type 0} (slots : List A) where
  pop-IsRing : IsRing k (pop r).0
  pop-IsRing = record {
    size = i.size;
    masks = i.masks;
    head_u32 = omega arith;
    tail_u32 = i.tail_u32;
  }

  len-pop : (len r == 0) ≡ false → len (pop r).0 + 1 ≡ len r
  len-pop some_left = ground (arith, i.head_u32, i.tail_u32, some_left)

  queued-pop :
      (len r == 0) ≡ false
      → queued r slots ≡ get_elem? slots (index (pop r).0 r.head) ∷ queued (pop r).0 slots
  queued-pop some_left =
      let next : (r.head + 1) % 2 ^ 32 % r.entries ≡ suc r.head % r.entries =
        rw i.size (lap k (r.head + 1) (omega arith) ∙ ap (λ x. x % 2 ^ k) (omega arith)) in
      rw
        (
          sym (len-pop some_left),
          add-one (len (pop r).0),
          index_lem pop-IsRing r.head,
          window_mod r.entries slots ((r.head + 1) % 2 ^ 32) (suc r.head) (len (pop r).0) next,
        )
        refl

-- Putting a completion in: it is appended where there is room.
record Completed (k : ℕ) (r : RingHeader) (slots : List CqEntry) (v : CqEntry) (r' : RingHeader)
    (slots' : List CqEntry) : Type 0 where
  ring : IsRing k r'
  slot_count : length slots' ≡ length slots
  appended : queued r' slots' ≡ queued r slots ++ take (room r) (some v ∷ [])
  room_left : room r' ≡ room r - 1

take_one : {A : Type 0} (n : ℕ) (x : A) → 0 < n → take n (x ∷ []) ≡ x ∷ []
take_one zero x h = absurd (omega arith)
take_one (suc zero) x h = refl
take_one (suc (suc n)) x h = refl

take_more :
    {A : Type 0} (n : ℕ) (x : A) (xs : List A)
    → take n (x ∷ []) ++ take (n - 1) xs ≡ take n (x ∷ xs)
take_more zero x xs = refl
take_more (suc zero) x xs = refl
take_more (suc (suc n)) x xs = ap (λ m. x ∷ take m xs) less
  where
    less : suc (suc n) - 1 ≡ suc n
    less = omega arith

pushed :
    (k : ℕ) (r : RingHeader) (slots : List CqEntry) (v : CqEntry)
    → k < 32
    → IsRing k r
    → 2 ^ k ≤ length slots
    → is_full r ≡ false
    → Completed k r slots v (push r).0 (set slots (r.tail % r.entries) v)
pushed k r slots v h i long fits = record {
  ring = record { size = i.size; masks = i.masks; head_u32 = i.head_u32; tail_u32 = omega arith };
  slot_count = length-set slots (r.tail % r.entries) v;
  appended =
      ap (λ n. window r.entries (set slots (r.tail % r.entries) v) r.head n)
        (longer ∙ add-one (len r))
      ∙ ap (λ x. window r.entries (set slots x v) r.head (suc (len r))) at_tail
      ∙ window_push r.entries slots v r.head (len r) free (omega (arith, i.size))
      ∙ ap (λ l. queued r slots ++ l) (sym taken);
  room_left = omega (arith, longer);
}
  where
    small : 2 ^ k ≤ 2 ^ 31
    small = pow-le-pow_right {n = 2} (omega arith) {i = k} {j = 31} (omega arith)

    free : len r < r.entries
    free = ground (arith, fits)

    longer : len (push r).0 ≡ len r + 1
    longer = omega (arith, free, small, i.size, i.head_u32, i.tail_u32)

    at_tail : r.tail % r.entries ≡ (r.head + len r) % r.entries
    at_tail = rw i.size (
        ap (λ x. x % 2 ^ k) (omega (arith, i.head_u32, i.tail_u32))
        ∙ lap k (r.head + len r) (omega arith))

    taken : take (room r) (some v ∷ []) ≡ some v ∷ []
    taken = take_one (room r) (some v) (omega (arith, free))

complete-Completed :
    (k : ℕ) (r : RingHeader) (slots : List CqEntry) (v : CqEntry)
    → k < 32
    → IsRing k r
    → 2 ^ k ≤ length slots
    → Completed k r slots v (complete r slots v).0 (complete r slots v).1
unfolding complete
complete-Completed k r slots v h i long = elim (Bool-cases (is_full r)) [
  | inl full ↦
      let no_room : room r ≡ 0 = ground (arith, full) in
      rw (full, complete)
        (record {
          ring = i;
          slot_count = refl;
          appended = rw no_room (sym (append-nil (queued r slots)));
          room_left = omega arith;
        })
  | inr fits ↦
      let at : index r r.tail ≡ r.tail % r.entries = index_lem i r.tail in
      let power : 1 ≤ 2 ^ k = one-le-pow k 2 (omega arith) in
      let below : r.tail % r.entries < r.entries = mod-lt r.tail (omega (arith, i.size)) in
      let inside : ltb (r.tail % r.entries) (length slots) ≡ true =
        ground (arith, below, long, i.size) in
      rw (fits, complete, at, inside) (pushed k r slots v h i long fits)
]

-- The effect of the loop: the submission queue is empty, and the completion queue has the completions.
pub record Drained (k : ℕ) (sq : RingHeader) (sq_entries : List SqEntry) (cq : RingHeader)
    (cq_entries : List CqEntry) (sq' cq' : RingHeader) (cq_entries' : List CqEntry) : Type 0 where
  pub empty : sq'.head ≡ sq'.tail
  pub kept : sq'.tail ≡ sq.tail
  pub ring : IsRing k cq'
  pub completed :
      queued cq' cq_entries'
      ≡ queued cq cq_entries ++ take (room cq) (map completion (queued sq sq_entries))

-- For rings of a power of two entries, below 2 ^ 32, with as many slots at least, and one round of
-- fuel for every pending entry, `process_sq` returns; the submission queue is then
-- empty, and the completions of its entries stand behind those that were queued, in order, as far as
-- there is room in the completion queue. The tail of the submission queue is any u32.
pub process_sq-Drained :
    (fuel j k : ℕ) (sq : RingHeader) (sq_entries : List SqEntry) (cq : RingHeader)
    (cq_entries : List CqEntry)
    → len sq < fuel
    → j < 32
    → k < 32
    → IsRing j sq
    → IsRing k cq
    → 2 ^ j ≤ length sq_entries
    → 2 ^ k ≤ length cq_entries
    → (sq' : RingHeader) × (cq' : RingHeader) × (cq_entries' : List CqEntry) × (process_sq fuel sq
          sq_entries cq cq_entries
        ≡ some (sq', cq', cq_entries'))
      × Drained k sq sq_entries cq cq_entries sq' cq' cq_entries'
unfolding process_sq
process_sq-Drained zero j k sq sq_entries cq cq_entries e hj hk a b long long' =
    absurd (omega arith)
process_sq-Drained (suc fuel) j k sq sq_entries cq cq_entries e hj hk a b long long' =
    elim (Bool-cases (is_empty sq)) [
      | inl done ↦
          let no_entry : len sq ≡ 0 = ground (arith, done) in
          (
            sq,
            cq,
            cq_entries,
            rw done refl,
            record {
              empty = omega (arith, no_entry, a.head_u32, a.tail_u32);
              kept = refl;
              ring = b;
              completed =
                  rw (no_entry, take_nil {A = Option CqEntry} (room cq))
                    (sym (append-nil (queued cq cq_entries)));
            },
          )
      | inr left ↦ elim (Option-cases (get_elem? sq_entries (index (pop sq).0 sq.head))) [
        | inl outside ↦ absurd (inside outside)
        | inr (sqe, here) ↦
            let c : Completed k cq cq_entries (new_cqe sqe.user_data (execute_sqe sqe))
                (complete cq cq_entries (new_cqe sqe.user_data (execute_sqe sqe))).0
                (complete cq cq_entries (new_cqe sqe.user_data (execute_sqe sqe))).1 =
              complete-Completed k cq cq_entries (new_cqe sqe.user_data (execute_sqe sqe)) hk b
                long' in
            let (sq', cq', cq_entries', run, d) =
              process_sq-Drained fuel j k (pop sq).0 sq_entries
                (complete cq cq_entries (new_cqe sqe.user_data (execute_sqe sqe))).0
                (complete cq cq_entries (new_cqe sqe.user_data (execute_sqe sqe))).1
                (omega (arith, len-pop a hj sq_entries left)) hj hk (pop-IsRing a hj sq_entries)
                c.ring long (omega (arith, c.slot_count)) in
            (
              sq',
              cq',
              cq_entries',
              rw (left, here) run,
              record {
                empty = d.empty;
                kept = d.kept;
                ring = d.ring;
                completed =
                    d.completed
                    ∙ rw (c.room_left, c.appended, queued-pop a hj sq_entries left, here)
                        (append_assoc (queued cq cq_entries) _ _
                          ∙ ap (λ l. queued cq cq_entries ++ l) (take_more (room cq) _ _));
              },
            )
      ]
    ]
  where
    inside : get_elem? sq_entries (index (pop sq).0 sq.head) ≡ none → ⊥
    inside outside =
        let power : 1 ≤ 2 ^ j = one-le-pow j 2 (omega arith) in
        let below : sq.head % sq.entries < sq.entries = mod-lt sq.head (omega (arith, a.size)) in
        let (x, found) =
          get_elem?_below sq_entries (sq.head % sq.entries) (omega (arith, below, long, a.size)) in
        let at : index (pop sq).0 sq.head ≡ sq.head % sq.entries =
          index_lem (pop-IsRing a hj sq_entries) sq.head in
        absurd (cc (at, outside, found))
