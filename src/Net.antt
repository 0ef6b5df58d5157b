-- ===== src/Net.antt =====
-- userspace/net-server/src/virtio.rs, pci.rs and device.rs: the queues shared with a network device.
-- A queue is its three parts in the memory that the device shares, by index, and the fields of the
-- driver; `ptr` is the block that the allocator hands out for it. Writes to I/O ports are a list, the
-- last one first. The device writes `used`, and may do so between any two calls. u16 arithmetic wraps.
pub mod Queue
pub mod Pci
pub mod Tests
use pindos.Base.{
  ℕ, zero, suc, ◌+◌, ◌-◌, ◌*◌, ◌/◌, ◌%◌, ◌^◌, min, bit_and, bit_or, Option, none, some, List, [],
  ◌∷◌, length, ltb, ◌==◌, if◌then◌else◌, update,
}

abbrev pub queue_size : ℕ
queue_size = 256

pub record VirtqDesc : Type 0 where
  pub addr : ℕ
  pub len : ℕ
  pub flags : ℕ
  pub next : ℕ

pub record VirtqUsedElem : Type 0 where
  pub id : ℕ
  pub len : ℕ

-- `outw(port, value)` and `outl(port, value)`
pub record PortWrite : Type 0 where
  pub port : ℕ
  pub value : ℕ

pub record Virtqueue : Type 0 where
  -- the addresses of the three parts
  pub desc_ptr : ℕ
  pub avail_ptr : ℕ
  pub used_ptr : ℕ
  -- the parts
  pub desc : ℕ → VirtqDesc
  pub avail_idx : ℕ
  pub avail_ring : ℕ → ℕ
  pub used_idx : ℕ
  pub used_ring : ℕ → VirtqUsedElem
  -- the driver's fields
  pub free_head : ℕ
  pub last_used : ℕ
  pub io_base : ℕ
  pub queue_idx : ℕ
  pub ports : List PortWrite

-- The size of the descriptors, and that of the ring of available ones.
abbrev pub desc_bytes : ℕ
desc_bytes = 16 * queue_size

abbrev pub avail_bytes : ℕ
avail_bytes = 4 + 2 * queue_size

abbrev pub zero_desc : VirtqDesc
zero_desc = record { addr = 0; len = 0; flags = 0; next = 0 }

-- `for i in 0..QUEUE_SIZE - 1`, with `n` rounds left.
pub chain_loop : ℕ → ℕ → (ℕ → VirtqDesc) → ℕ → VirtqDesc
chain_loop zero i desc = desc
chain_loop (suc n) i desc =
    chain_loop n (i + 1) (update desc i (record (desc i) { next = i + 1; flags = 1 }))

pub init : ℕ → ℕ → ℕ → Virtqueue
init ptr io_base queue_idx = record {
  desc_ptr = ptr;
  avail_ptr = ptr + desc_bytes;
  used_ptr = ptr + desc_bytes + avail_bytes;
  desc = chain_loop (queue_size - 1) 0 (λ _. zero_desc);
  avail_idx = 0;
  avail_ring = λ _. 0;
  used_idx = 0;
  used_ring = λ _. record { id = 0; len = 0 };
  free_head = 0;
  last_used = 0;
  io_base = io_base;
  queue_idx = queue_idx;
  ports =
      record { port = io_base + 8; value = ptr % 2 ^ 32 / 4096 }
      ∷ record { port = io_base + 14; value = queue_idx }
      ∷ [];
}

-- The buffer's address and length.
pub send : Virtqueue → ℕ → ℕ → Virtqueue
send q buf_addr buf_len =
    let idx = q.free_head in
    let d = q.desc idx in
    record q {
      free_head = d.next;
      desc = update q.desc idx (record d { addr = buf_addr; len = buf_len % 2 ^ 32; flags = 0 });
      avail_ring = update q.avail_ring (q.avail_idx % queue_size) idx;
      avail_idx = (q.avail_idx + 1) % 2 ^ 16;
      ports = record { port = q.io_base + 16; value = q.queue_idx } ∷ q.ports;
    }

-- `copy_nonoverlapping`: `n` bytes of the memory.
pub copied : (ℕ → ℕ) → ℕ → ℕ → List ℕ
copied memory zero a = []
copied memory (suc n) a = memory a ∷ copied memory n (a + 1)

-- Nothing, the bytes of a packet, or an access past the descriptors.
pub data Received : Type 0 where
  nothing : Received
  packet : List ℕ → Received
  out_of_bounds : Received

pub recv : (ℕ → ℕ) → Virtqueue → ℕ → Received × Virtqueue
recv memory q buf_len =
    let elem = q.used_ring (q.last_used % queue_size) in
    let len = min elem.len buf_len in
    if q.used_idx == q.last_used
    then (nothing, q)
    else if ltb elem.id queue_size
    then (
      packet (copied memory len (q.desc elem.id).addr),
      record q {
        last_used = (q.last_used + 1) % 2 ^ 16;
        desc = update q.desc elem.id (record (q.desc elem.id) { next = q.free_head });
        free_head = elem.id;
      },
    )
    else (out_of_bounds, q)

pub record PciDevice : Type 0 where
  pub bus : ℕ
  pub slot : ℕ
  pub bar0 : ℕ

pub pci_addr : ℕ → ℕ → ℕ → ℕ → ℕ
pci_addr bus slot func offset =
    bit_or (bit_or (bit_or (bit_or (2 ^ 31) (bus * 2 ^ 16)) (slot * 2 ^ 11)) (func * 2 ^ 8))
      (bit_and offset 252)

-- The device 0x1000 of the vendor 0x1AF4
abbrev pub virtio_net : ℕ
virtio_net = 0x10001af4

module _ (config : ℕ → ℕ) where
  -- `config` is what CONFIG_DATA reads for each CONFIG_ADDRESS.
  pub pci_read32 : ℕ → ℕ → ℕ → ℕ → ℕ
  pci_read32 bus slot func offset = config (pci_addr bus slot func offset)

  -- `for slot in 0u8..32`, with `n` slots left.
  pub slot_loop : ℕ → ℕ → ℕ → Option PciDevice
  slot_loop zero bus slot = none
  slot_loop (suc n) bus slot =
      let rest = slot_loop n bus (slot + 1) in
      if pci_read32 bus slot 0 0 == virtio_net
      then some (record {
        bus = bus;
        slot = slot;
        bar0 = bit_and (pci_read32 bus slot 0 16) (2 ^ 32 - 16) % 2 ^ 16;
      })
      else rest

  -- `for bus in 0u8..=255`, with `n` buses left.
  pub bus_loop : ℕ → ℕ → Option PciDevice
  bus_loop zero bus = none
  bus_loop (suc n) bus =
      let rest = bus_loop n (bus + 1) in
      elim (slot_loop 32 bus 0) [ some dev ↦ some dev | none ↦ rest ]

  pub find_virtio_net : Option PciDevice
  find_virtio_net = bus_loop 256 0
