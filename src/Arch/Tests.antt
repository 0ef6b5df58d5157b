-- ===== src/Arch/Tests.antt =====
-- The task state at 2 ^ 40 + 2 ^ 24, a timer at vector 32, and the table of controllers of the tests of
-- ACPI.
use pindos.Base.{◌+◌, ◌*◌, ◌^◌, ◌≡◌, some, [], ◌++◌, arith}
use pindos.Acpi.Tests.{memory, madt}
use pindos.Acpi.Entries.{local_items}
use pindos.Arch.Gdt.{Gdt, init, Described, init-Described}
use pindos.Arch.Security.{Registers, init_all, protected, init_all-protected}
use pindos.Arch.Smp.{Cpus, init_aps, all_messages, init_aps-messages}

abbrev gdt : Gdt
gdt = record { table = λ _. 0; tss = record { rsp0 = 0; ist1 = 0; iomap_base = 0 } }

init-Described_example : Described (2 ^ 40 + 2 ^ 24) 8192 (init (2 ^ 40 + 2 ^ 24) 8192 gdt)
init-Described_example = init-Described (2 ^ 40 + 2 ^ 24) 8192 gdt (omega arith)

abbrev registers : Registers
registers = record { cr4 = 32; mxcsr = 0; efer = 256; spec_ctrl = 0; stack_canary = 0 }

init_all-protected_example :
    init_all (2 ^ 7 + 2 ^ 20) (2 ^ 30) 77 registers
    ≡ protected (2 ^ 7 + 2 ^ 20) (2 ^ 30) 77 registers
init_all-protected_example = init_all-protected (2 ^ 7 + 2 ^ 20) (2 ^ 30) 77 registers

abbrev cpus : Cpus
cpus = record {
  writes = [];
  per_cpu_data = λ _. record { cpu_id = 0; stack_top = 0 };
  ap_stacks = λ _. 0;
}

init_aps-messages_example :
    (t : Cpus) × (init_aps (λ id. 65536 * id) memory 21 0 madt cpus ≡ some t)
    × (t.writes ≡ [] ++ all_messages (λ id. 65536 * id) 0 (local_items memory madt))
init_aps-messages_example = init_aps-messages (λ id. 65536 * id) memory 21 0 madt cpus (omega arith)
