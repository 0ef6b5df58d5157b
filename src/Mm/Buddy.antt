-- ===== src/Mm/Buddy.antt =====
-- hammam/src/mm/physical.rs: the buddy allocator of physical pages.
-- The free lists are intrusive: a free block holds, at its own address, the pointer to the next
-- free block. `next` is that memory. A `PhysFrame` is its start address, and `*mut FreeBlock` an
-- address. u64 and usize arithmetic wraps. Each walk along a list is on fuel, one round a node;
-- `none` is a walk that ran out.
pub mod Cover
pub mod Linked
pub mod Remove
pub mod Pair
pub mod Free
pub mod Alloc
pub mod Tests
use pindos.Base.{
  ℕ, zero, suc, ◌+◌, ◌-◌, ◌*◌, ◌/◌, ◌%◌, ◌^◌, min, max, bit_and, bit_xor, Bool, true, false, ◌&&◌,
  Option, none, some, List, [], ◌∷◌, ltb, leb, ◌==◌, if◌then◌else◌, update,
}

abbrev pub max_order : ℕ
max_order = 11

abbrev pub page_size : ℕ
page_size = 4096

abbrev pub PhysFrame : Type 0
PhysFrame = ℕ

pub data AllocError : Type 0 where
  out_of_memory invalid_order : AllocError

pub data Result {ℓ} (A : Type ℓ) : Type ℓ where
  ok : A → Result A
  err : AllocError → Result A

pub record BuddyAllocator : Type 0 where
  pub free_lists : ℕ → Option ℕ
  pub next : ℕ → Option ℕ
  pub total_frames : ℕ
  pub free_frames : ℕ

-- `BuddyAllocator::new`
abbrev pub new : BuddyAllocator
new = record { free_lists = λ _. none; next = λ _. none; total_frames = 0; free_frames = 0 }

-- `(1u64 << order) * PAGE_SIZE`, below 2 ^ 23 for every order that the code reaches.
unfoldable pub block_size : ℕ → ℕ
block_size order = 2 ^ order * page_size

abbrev pub add64 : ℕ → ℕ → ℕ
add64 a b = (a + b) % 2 ^ 64

abbrev pub sub64 : ℕ → ℕ → ℕ
sub64 a b = (a + 2 ^ 64 - b) % 2 ^ 64

-- `(*ptr).next = self.free_lists[order]; self.free_lists[order] = Some(ptr)`
pub push : BuddyAllocator → ℕ → ℕ → BuddyAllocator
push s order ptr = record s {
  next = update s.next ptr (s.free_lists order);
  free_lists = update s.free_lists order (some ptr);
}

-- What `current: &mut Option<*mut FreeBlock>` points to: the head of a list, or a node's field.
pub data Slot : Type 0 where
  head : ℕ → Slot
  field : ℕ → Slot

pub read : BuddyAllocator → Slot → Option ℕ
read s (head order) = s.free_lists order
read s (field ptr) = s.next ptr

pub write : BuddyAllocator → Slot → Option ℕ → BuddyAllocator
write s (head order) v = record s { free_lists = update s.free_lists order v }
write s (field ptr) v = record s { next = update s.next ptr v }

-- The `while let Some(node_ptr) = *current` of `remove_from_list`.
pub remove_loop : ℕ → BuddyAllocator → Slot → ℕ → Option (BuddyAllocator × Bool)
remove_loop zero s current block_addr = none
remove_loop (suc fuel) s current block_addr = elim (read s current) [
  | none ↦ some (s, false)
  | some node ↦
      let rest = remove_loop fuel s (field node) block_addr in
      if node == block_addr then some (write s current (s.next node), true) else rest
]

pub remove_from_list : ℕ → BuddyAllocator → ℕ → ℕ → Option (BuddyAllocator × Bool)
remove_from_list fuel s order block_addr = remove_loop fuel s (head order) block_addr

-- The merging loop of `deallocate_internal`; it ends with the block to put on a list. `rounds`
-- bounds its iterations, `fuel` each walk.
pub merge_loop : ℕ → ℕ → BuddyAllocator → ℕ → ℕ → Option (BuddyAllocator × ℕ × ℕ)
merge_loop fuel zero s addr order = none
merge_loop fuel (suc rounds) s addr order =
    if ltb order (max_order - 1)
    then (let buddy = bit_xor addr (block_size order) in
        elim (remove_from_list fuel s order buddy) [
          | none ↦ none
          | some (s', true) ↦ merge_loop fuel rounds s' (min addr buddy) (order + 1)
          | some (s', false) ↦ some (s', addr, order)
        ])
    else some (s, addr, order)

pub deallocate_internal : ℕ → BuddyAllocator → PhysFrame → ℕ → Option BuddyAllocator
deallocate_internal fuel s frame order = elim (merge_loop fuel max_order s frame order) [
  | none ↦ none
  | some (s', addr, merged) ↦
      let s'' = push s' merged addr in
      some (record s'' { free_frames = add64 s''.free_frames (2 ^ order) })
]

pub deallocate : ℕ → BuddyAllocator → PhysFrame → ℕ → Option BuddyAllocator
deallocate fuel s frame order =
    if leb max_order order then some s else deallocate_internal fuel s frame order

-- `for split_order in (order..current_order).rev()`: `n` orders above `order` are left to split.
pub split_loop : ℕ → BuddyAllocator → ℕ → ℕ → BuddyAllocator
split_loop zero s block order = s
split_loop (suc n) s block order =
    split_loop n (push s (order + n) (add64 block (block_size (order + n)))) block order

-- A block of order `current` is taken off its list, split down to `order`, and returned.
pub take_block : BuddyAllocator → ℕ → ℕ → ℕ → BuddyAllocator
take_block s order current block =
    let s' = record s { free_lists = update s.free_lists current (s.next block) } in
    let s'' = split_loop (current - order) s' block order in
    record s'' { free_frames = sub64 s''.free_frames (2 ^ order) }

-- `for current_order in order..MAX_ORDER`, with `n` orders left.
pub search_loop : ℕ → BuddyAllocator → ℕ → ℕ → Result PhysFrame × BuddyAllocator
search_loop zero s order current = (err out_of_memory, s)
search_loop (suc n) s order current = elim (s.free_lists current) [
  | none ↦ search_loop n s order (current + 1)
  | some block ↦ (ok block, take_block s order current block)
]

pub allocate : BuddyAllocator → ℕ → Result PhysFrame × BuddyAllocator
allocate s order =
    if leb max_order order
    then (err invalid_order, s)
    else search_loop (max_order - order) s order order
