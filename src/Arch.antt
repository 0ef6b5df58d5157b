-- ===== src/Arch.antt =====
-- hammam/src/arch/x86_64/gdt.rs, interrupts.rs, security/mod.rs, smp/mod.rs and part of
-- arch/x86_64/apic.rs: the tables and the registers of the processor. What the hardware reads or
-- answers is an argument; the instructions that load a table are left out.
pub mod Gdt
pub mod Idt
pub mod Security
pub mod Smp
pub mod Tests
