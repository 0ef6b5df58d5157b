-- ===== src/Net/Queue.antt =====
-- What the device finds in a queue after any number of packets.
use pindos.Base.{
  ℕ, zero, suc, ◌+◌, ◌*◌, ◌/◌, ◌%◌, ◌^◌, ◌≤◌, ◌<◌, ◌≡◌, ◌≢◌, refl, Option, none, some, List, [],
  ◌∷◌, ◌++◌, arith, ◌∙◌, ap, sym, length, get_elem?, update, update_self, update_ne, length-append,
  get_elem?-append_left, get_elem?-append_last,
}
use mathlib.Core.List.{append_assoc, append-nil}
use mathlib.Core.Path.{subst}
use native.Mathlib.Decide.{dec_lt, ℕ_discrete}
use pindos.Net.{avail_bytes, Virtqueue, VirtqDesc, zero_desc, chain_loop, init, send}

-- A packet: the address and the length of its buffer.
pub record Packet : Type 0 where
  pub addr : ℕ
  pub len : ℕ

abbrev pub send_all : Virtqueue → List Packet → Virtqueue
send_all q [] = q
send_all q (p ∷ packets) = send_all (send q p.addr p.len) packets

abbrev pub Shows : VirtqDesc → Option Packet → Type 0
Shows d none = ⊥
Shows d (some p) = (d.addr ≡ p.addr) × (d.len ≡ p.len % 2 ^ 32) × (d.flags ≡ 0)

-- The queue has taken these packets: the place of the `i`th in the ring names a descriptor that shows
-- it, if no more than 256 have come since.
pub record HasTaken (packets : List Packet) (q : Virtqueue) : Type 0 where
  pub head : q.free_head ≡ length packets % 256
  pub index : q.avail_idx ≡ length packets % 2 ^ 16
  pub chain : (j : ℕ) → j < 256 → (q.desc j).next ≡ (j + 1) % 256
  pub ring :
      (i : ℕ)
      → i < length packets
      → length packets ≤ i + 256
      → (q.avail_ring (i % 256) ≡ i % 256) × Shows (q.desc (i % 256)) (get_elem? packets i)
  pub notified : length q.ports ≡ length packets + 2

chain_loop_outside :
    (n i : ℕ) (desc : ℕ → VirtqDesc) (j : ℕ) → (i ≤ j → i + n ≤ j) → chain_loop n i desc j ≡ desc j
unfolding chain_loop
chain_loop_outside zero i desc j out = refl
chain_loop_outside (suc n) i desc j out =
    chain_loop_outside n (i + 1) _ j (λ lo. omega (arith, out (omega (arith, lo))))
    ∙ update_ne desc i j _ (λ e. absurd (omega (arith, e, out (omega (arith, e)))))

chain_loop_inside :
    (n i : ℕ) (desc : ℕ → VirtqDesc) (j : ℕ)
    → i ≤ j
    → j < i + n
    → (chain_loop n i desc j).next ≡ j + 1
unfolding chain_loop
chain_loop_inside zero i desc j lo hi = absurd (omega (arith, lo, hi))
chain_loop_inside (suc n) i desc j lo hi = elim (ℕ_discrete i j) [
  | yes here ↦
      let new : VirtqDesc = record (desc i) { next = i + 1; flags = 1 } in
      ap (λ (d : VirtqDesc). d.next)
        (chain_loop_outside n (i + 1) (update desc i new) j (λ le. absurd (omega (arith, le, here)))
          ∙ ap (update desc i new) (sym here)
          ∙ update_self desc i new)
      ∙ ap (λ (k : ℕ). k + 1) here
  | no later ↦ chain_loop_inside n (i + 1) _ j (omega (arith, lo, later)) (omega (arith, hi))
]

init-HasTaken : (ptr io_base queue_idx : ℕ) → HasTaken [] (init ptr io_base queue_idx)
unfolding init
init-HasTaken ptr io_base queue_idx = record {
  head = refl;
  index = refl;
  chain = λ j low. elim (dec_lt j 255) [
    | yes inner ↦ omega (
      arith,
      chain_loop_inside 255 0 (λ _. zero_desc) j (omega arith) (omega (arith, inner)),
      inner,
    )
    | no last ↦
        ap (λ (d : VirtqDesc). d.next)
          (chain_loop_outside 255 0 (λ _. zero_desc) j (λ _. omega (arith, last)))
        ∙ omega (arith, low, last)
  ];
  ring = λ i low _. absurd (omega (arith, low));
  notified = refl;
}

-- A descriptor that was not written shows what it showed.
module _ (packets : List Packet) (p : Packet) (q : Virtqueue) (taken : HasTaken packets q) where
  abbrev n : ℕ
  n = length packets

  one_more : length (packets ++ p ∷ []) ≡ n + 1
  one_more = omega (arith, length-append packets (p ∷ []))

  -- The descriptor of the packet.
  abbrev shown : VirtqDesc
  shown = record (q.desc q.free_head) { addr = p.addr; len = p.len % 2 ^ 32; flags = 0 }

  here_at : (i : ℕ) → i ≡ n → (q.avail_idx % 256 ≡ i % 256) × (q.free_head ≡ i % 256)
  here_at i e = (omega (arith, e, taken.index), omega (arith, e, taken.head))

  send-ring :
      (i : ℕ)
      → i < n + 1
      → n + 1 ≤ i + 256
      → ((send q p.addr p.len).avail_ring (i % 256) ≡ i % 256)
        × Shows ((send q p.addr p.len).desc (i % 256)) (get_elem? (packets ++ p ∷ []) i)
  unfolding send
  send-ring i low recent = elim (ℕ_discrete i n) [
    | yes last ↦
        let (slot, desc) = here_at i last in
        let shows : get_elem? (packets ++ p ∷ []) i ≡ some p =
          ap (get_elem? (packets ++ p ∷ [])) last ∙ get_elem?-append_last packets p in
        (
          ap (update q.avail_ring (q.avail_idx % 256) q.free_head) (sym slot)
              ∙ update_self q.avail_ring (q.avail_idx % 256) q.free_head
              ∙ desc,
          subst (Shows (update q.desc q.free_head shown (i % 256))) (sym shows) (
              subst (λ d. Shows d (some p))
                (sym (
                  ap (update q.desc q.free_head shown) (sym desc)
                  ∙ update_self q.desc q.free_head shown))
                (refl, refl, refl)),
        )
    | no older ↦
        let before : i < n = omega (arith, low, older) in
        let (ring, shows) = taken.ring i before (omega (arith, recent)) in
        (
          update_ne q.avail_ring (q.avail_idx % 256) (i % 256) q.free_head
                (λ e. absurd (omega (arith, e, taken.index, before, recent)))
              ∙ ring,
          subst (Shows (update q.desc q.free_head shown (i % 256)))
              (sym (get_elem?-append_left packets (p ∷ []) i before))
              (subst (λ d. Shows d (get_elem? packets i))
                (sym (
                  update_ne q.desc q.free_head (i % 256) shown
                    (λ e. absurd (omega (arith, e, taken.head, before, recent)))))
                shows),
        )
  ]

  send-HasTaken : HasTaken (packets ++ p ∷ []) (send q p.addr p.len)
  unfolding send
  send-HasTaken = record {
    head =
        ap (λ (k : ℕ). (q.desc k).next) taken.head
        ∙ taken.chain (n % 256) (omega arith)
        ∙ omega (arith, one_more);
    index = omega (arith, taken.index, one_more);
    chain = λ j low. elim (ℕ_discrete q.free_head j) [
      | yes here ↦
          ap (λ (d : VirtqDesc). d.next)
            (ap (update q.desc q.free_head shown) (sym here) ∙ update_self q.desc q.free_head shown)
          ∙ ap (λ (k : ℕ). (q.desc k).next) here
          ∙ taken.chain j low
      | no other ↦
          ap (λ (d : VirtqDesc). d.next) (update_ne q.desc q.free_head j shown other)
          ∙ taken.chain j low
    ];
    ring = λ i low recent.
        send-ring i (omega (arith, low, one_more)) (omega (arith, recent, one_more));
    notified = omega (arith, taken.notified, one_more);
  }

send_all-HasTaken_after :
    (packets before : List Packet) (q : Virtqueue)
    → HasTaken before q
    → HasTaken (before ++ packets) (send_all q packets)
send_all-HasTaken_after [] before q taken =
    subst (λ l. HasTaken l q) (sym (append-nil before)) taken
send_all-HasTaken_after (p ∷ packets) before q taken =
    subst (λ l. HasTaken l (send_all (send q p.addr p.len) packets))
      (append_assoc before (p ∷ []) packets)
      (send_all-HasTaken_after packets (before ++ p ∷ []) (send q p.addr p.len)
        (send-HasTaken before p q taken))

-- After any number of packets on a new queue, the index of the ring counts them, each has been
-- announced, and each of the last 256 stands at its place in the ring, with its address and length.
pub send_all-HasTaken :
    (packets : List Packet) (ptr io_base queue_idx : ℕ)
    → HasTaken packets (send_all (init ptr io_base queue_idx) packets)
send_all-HasTaken packets ptr io_base queue_idx =
    send_all-HasTaken_after packets [] (init ptr io_base queue_idx)
      (init-HasTaken ptr io_base queue_idx)

-- In a queue that starts at a page, the ring of used descriptors does not stand at the first page
-- after the ring of available ones.
pub init-used_ptr :
    (ptr io_base queue_idx : ℕ)
    → ptr % 4096 ≡ 0
    → (init ptr io_base queue_idx).used_ptr
      ≢ ((init ptr io_base queue_idx).avail_ptr + avail_bytes + 4095) / 4096 * 4096
unfolding init
init-used_ptr ptr io_base queue_idx h e = omega (arith, h, e)
