-- ===== src/Lib.antt =====
-- A model of PINDOS, an operating system in Rust, with the properties of its core.
--
-- The kernel is hammam/src. Its memory starts from the loader's map (hammam/src/boot_info.rs), from
-- which the physical allocator (hammam/src/mm/physical.rs) takes its free pages; the page tables
-- (hammam/src/mm/paging.rs) take theirs from it, and the kernel's heap (hammam/src/mm/heap.rs) has a
-- region of its own. Processes (hammam/src/process/mod.rs) call the kernel
-- (hammam/src/arch/x86_64/syscall.rs), hold capabilities (hammam/src/cap/mod.rs), reach files through
-- the mount tree (hammam/src/vfs/mod.rs), the archive in memory (hammam/src/vfs/initramfs.rs) and the
-- page cache (hammam/src/mm/page_cache.rs), hand buffers to the kernel that it checks
-- (hammam/src/mm/userptr.rs) by the page tables, and exchange requests with it over rings
-- (hammam/src/io/uring.rs). The scheduler (hammam/src/sched) chooses the task that runs. The table of
-- interrupt controllers is searched by hammam/src/acpi/madt.rs, for the start of the other processors
-- (hammam/src/smp/mod.rs). A program file is placed in memory by hammam/src/loader/elf.rs. Above the
-- kernel stand the network server (userspace/net-server/src), the service
-- manager (dealduck/src), which is the first process, and the POSIX layer
-- (userspace/posix-compat/src/lib.rs).
--
-- Base: tests, lists, arrays as functions, digits of numbers, sets of bits and signed results.
-- Mm: Buddy is physical.rs (allocate, deallocate, remove_from_list on intrusive lists, written as a
-- memory of next pointers); Region its init, add_memory_region and bootstrap; Paging is paging.rs over a
-- memory of tables, whose new tables Buddy allocates, and Paging.Space the address space that UserPtr
-- asks; UserPtr is userptr.rs, over a page walk given as a record; Heap is heap.rs over the list of its
-- holes; PageCache is page_cache.rs with shared pages as references.
-- Kernel: syscall.rs and the table of process/mod.rs, over Mm.UserPtr, Vfs and Sched; Kernel.Service puts
-- the service manager of Dealduck on the kernel's waitpid.
-- Loader: loader/elf.rs over Mm.Paging and Mm.Buddy; the crate xmas_elf is a parameter, and so is the bit
-- SMAP of CR4, under which the processor refuses the kernel the pages of programs.
-- Multiboot: parse_multiboot2_memory_map of main.rs, over the memory of Acpi and the regions of Mm.Region.
-- Arch: Gdt, Idt, Security and Smp are gdt.rs, interrupts.rs, security/mod.rs and smp/mod.rs; Smp walks the
-- table of Acpi.
-- Block: the registry of block/mod.rs.
-- Net: virtio.rs and pci.rs of the network server.
-- Cap: cap/mod.rs, over the operations of the crate bitflags as parameters.
-- Io: Entry, Ring and Uring are the entries, RingHeader and process_sq of uring.rs.
-- Sched: the run queue of sched/mod.rs; tasks are indices of a store, so that two Arcs of one task are
-- one index.
-- Vfs: normalize_path, find_mount_point and lookup of vfs/mod.rs; Initramfs is the header fields, the
-- paths and the nodes of vfs/initramfs.rs, and Initramfs.Archive its parser.
-- Acpi: acpi/madt.rs over a memory of bytes.
-- Posix: lib.rs of posix-compat, over the kernel's answers as parameters.
-- Bump: the allocators of the programs, dealduck/src/allocator.rs and its two copies.
-- Dealduck: manager.rs and unit.rs, over the kernel's answers as parameters.
--
-- Numbers are natural numbers; where the code's integers wrap, the modulus is written out. A loop over
-- a list in memory runs on fuel, one round a step, and answers none when the fuel ends; each theorem
-- about such a loop says how much fuel is enough and that the loop then answers: a round for every free
-- page (Mm.Buddy), every block of a region (Mm.Region), every page of the user half (Mm.UserPtr), every
-- pending entry (Io), every queued task (Sched), every byte of an archive or of a table (Vfs, Acpi),
-- every character (Posix), every tag (Multiboot). The loops of the page tables, of the heap, of the loader
-- and of the queues are structural.
--
-- Not modelled: assembly, port I/O, the timers, the boot path but for the memory map, the context switch,
-- and the tokens that hand packets to the crate smoltcp. What loading a program
-- gives the kernel, and the bytes that a node reads, are parameters of Kernel. Locks are taken for
-- granted: each operation runs alone, and the atomics of the rings are read and written by one thread.
pub mod Acpi
pub mod Arch
pub mod Base
pub mod Block
pub mod Bump
pub mod Cap
pub mod Dealduck
pub mod Io
pub mod Kernel
pub mod Loader
pub mod Mm
pub mod Multiboot
pub mod Net
pub mod Posix
pub mod Sched
pub mod Vfs
