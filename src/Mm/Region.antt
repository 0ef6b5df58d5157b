-- ===== src/Mm/Region.antt =====
-- hammam/src/mm/physical.rs: the start of the buddy allocator from the loader's memory map
-- (`add_memory_region`, `init`, `bootstrap`), with the map's types of hammam/src/boot_info.rs.
-- `kstart` and `kend` are the linker's symbols `kernel_phys_start` and `kernel_phys_end`. `fuel`
-- is for the walks along the free lists, `rounds` for the loop over a range's blocks.
pub mod Fill
pub mod Boot
pub mod Init
use pindos.Base.{
  ℕ, zero, suc, ◌+◌, ◌-◌, ◌*◌, ◌/◌, ◌%◌, ◌^◌, min, max, bit_and, Bool, true, false, ◌&&◌, Option,
  none, some, List, [], ◌∷◌, ltb, leb, ◌==◌, if◌then◌else◌,
}
use pindos.Mm.Buddy.{BuddyAllocator, max_order, page_size, block_size, deallocate_internal, add64}

pub data MemoryKind : Type 0 where
  usable reserved uefi_boot_services uefi_runtime_services : MemoryKind
  kernel bootloader acpi_nvs acpi_reclaimable mmio : MemoryKind

pub record MemoryRegion : Type 0 where
  pub start : ℕ
  pub end : ℕ
  pub kind : MemoryKind

abbrev pub is_usable : MemoryKind → Bool
is_usable MemoryKind.usable = true
is_usable _ = false

-- The inner `while order > 0`: the largest order at most `order` whose block fits and is aligned.
pub pick_order : ℕ → ℕ → ℕ → ℕ
pick_order zero max_pages current_addr = 0
pick_order (suc n) max_pages current_addr =
    let lower = pick_order n max_pages current_addr in
    if leb (2 ^ suc n) max_pages && (current_addr % block_size (suc n) == 0) then suc n else lower

-- `while current_addr < range_end`
pub fill_loop : ℕ → ℕ → BuddyAllocator → ℕ → ℕ → Option BuddyAllocator
fill_loop fuel zero s current_addr range_end = none
fill_loop fuel (suc rounds) s current_addr range_end =
    let max_pages = (range_end - current_addr) / page_size in
    let order = pick_order (max_order - 1) max_pages current_addr in
    let next : Option BuddyAllocator = elim (deallocate_internal fuel s current_addr order) [
      | none ↦ none
      | some t ↦
          fill_loop fuel rounds (record t { total_frames = add64 t.total_frames (2 ^ order) })
            (add64 current_addr (block_size order)) range_end
    ] in
    if ltb current_addr range_end then (if max_pages == 0 then some s else next) else some s

-- One of the two sub-ranges; page 0 is never handed out.
pub fill_range : ℕ → ℕ → BuddyAllocator → ℕ → ℕ → Option BuddyAllocator
fill_range fuel rounds s range_start range_end =
    if leb range_end range_start
    then some s
    else fill_loop fuel rounds s (if range_start == 0 then page_size else range_start) range_end

infixl 5 ◌>>=◌
abbrev pub ◌>>=◌ {ℓ κ} : {A : Type ℓ} {B : Type κ} → Option A → (A → Option B) → Option B
none >>= f = none
some a >>= f = f a

-- `!(PAGE_SIZE - 1)` as a u64
abbrev pub page_mask : ℕ
page_mask = 2 ^ 64 - page_size

module _ (kstart kend fuel rounds : ℕ) where
  pub add_memory_region : BuddyAllocator → ℕ → ℕ → Option BuddyAllocator
  add_memory_region s start_addr end_addr = do
    t ← fill_range fuel rounds s start_addr (min end_addr kstart)
    fill_range fuel rounds t (max start_addr kend) end_addr

  pub bootstrap : BuddyAllocator → ℕ → ℕ → Option BuddyAllocator
  bootstrap s start end = if ltb start end then add_memory_region s start end else some s

  pub init : BuddyAllocator → List MemoryRegion → Option BuddyAllocator
  init s [] = some s
  init s (region ∷ rest) =
      let start = bit_and (add64 region.start (page_size - 1)) page_mask in
      let end = bit_and region.end page_mask in
      if is_usable region.kind
      then (if ltb start end then add_memory_region s start end else some s) >>= (λ t. init t rest)
      else init s rest
