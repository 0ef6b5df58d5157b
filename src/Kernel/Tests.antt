-- ===== src/Kernel/Tests.antt =====
-- A machine whose only file is the root, which is a program of one task: it starts a child, which
-- then exits.
use pindos.Base.{ℕ, ◌+◌, ◌^◌, ◌≡◌, refl, true, some, [], ◌∷◌, arith, ℤ, pos, neg}
use pindos.Mm.UserPtr.{AddressSpace, validate_user_slice, validate, page_loop, read_error}
use pindos.Sched.{
  Scheduler, ready, running, dead, add_task, insert_task_into_queue, place, find_key, set_vruntime,
  base_vruntime, exit_current, schedule_locked, pick_next, put_back, take_first, set_state,
}
use pindos.Vfs.{
  VfsTree, directory, lookup, normalize_path, find_mount_point, find_loop, root, trim,
  normalize_loop,
}
use pindos.Vfs
use pindos.Dealduck.{ServiceUnit, round, on_failure}
use pindos.Dealduck
use pindos.Kernel.{
  process_of, sys_exec, exec_path, exec_node, load, register, take_pid, sys_exit, mark_exit, Kernel,
  Loaded, returned, gone, Services, get, sys_waitpid, sys_write, syscall_dispatch, boot,
}
use pindos.Kernel.Zombies.{Reaches, here, call, pending, sys_waitpid-unreported}
use pindos.Kernel.Service.{waitpid, round-unnoticed}
use pindos.Kernel.Write.{Written, sys_write-Written}

abbrev services : Services Unit ℕ
services = record {
  from_utf8 = λ bytes. some bytes;
  lookup_node = λ node name. Vfs.err Vfs.not_found;
  stat_node = λ node. Vfs.ok (record { size = 1; kind = directory });
  read_node = λ node offset buf. Vfs.ok (1, buf);
  from_elf = λ m pid elf.
      (some (record { entry_point = 4096; user_stack_top = 8192; main_task = pid }), m);
}

abbrev space : AddressSpace
space = record { translate = λ page. some page; translate_flags = λ _. some true }

-- Every byte is a slash.
abbrev memory : ℕ → ℕ
memory ptr = 47

abbrev mounts : VfsTree ℕ
mounts = (47 ∷ [], 0) ∷ []

abbrev init_process : Loaded
init_process = record { entry_point = 4096; user_stack_top = 8192; main_task = 1 }

abbrev scheduler : Scheduler
scheduler = record {
  tasks = λ _. record { state = ready; priority = pos 1; vruntime = 1 };
  run_queue = [];
  current = some 1;
  min_vruntime = 0;
  current_ticks = 0;
}

abbrev booted : Kernel Unit
booted = boot tt scheduler init_process

abbrev with_child : Kernel Unit
with_child = record booted {
  table = (2, process_of 2 (record init_process { main_task = 2 })) ∷ booted.table;
  next_pid = 3;
  scheduler = record (set_vruntime scheduler 2 2) { run_queue = (2, 2) ∷ [] };
}

exec_test :
    syscall_dispatch services space memory mounts 3 booted 2 4096 1 0
    ≡ some (returned (pos 2), with_child)
unfolding syscall_dispatch sys_exec exec_path exec_node load register take_pid boot lookup
    validate_user_slice normalize_path add_task insert_task_into_queue place find_key validate
    page_loop read_error set_vruntime base_vruntime find_mount_point find_loop root trim
    normalize_loop
exec_test = refl

-- The child has called `exit(7)`: the table marks pid 1.
abbrev after_exit : Kernel Unit
after_exit = record with_child {
  table =
      (2, process_of 2 (record init_process { main_task = 2 }))
      ∷ (1, record (process_of 1 init_process) { exit_code = pos 7; is_zombie = true })
      ∷ [];
  scheduler =
      record (set_state (set_state (set_state with_child.scheduler 1 dead) 1 ready) 2 running) {
        run_queue = [];
        min_vruntime = 2;
        current = some 2;
      };
}

exit_test :
    syscall_dispatch services space memory mounts 3 with_child 60 7 0 0 ≡ some (gone, after_exit)
unfolding syscall_dispatch sys_exit mark_exit boot exit_current schedule_locked pick_next put_back
    take_first set_state set_vruntime
exit_test = refl

reached : Reaches services space memory mounts booted after_exit
reached = call 3 60 7 0 0 gone (call 3 2 4096 1 0 (returned (pos 2)) here exec_test) exit_test

sys_waitpid-unreported_example :
    sys_waitpid after_exit 2 1 ≡ (pending (get after_exit.table 2) true, after_exit)
sys_waitpid-unreported_example =
    sys_waitpid-unreported services space memory mounts tt scheduler init_process after_exit 2 1
      reached (λ e. absurd (omega (arith, e)))

abbrev service : ServiceUnit
service = record {
  name = [];
  exec_path = 47 ∷ [];
  state = Dealduck.running;
  restart = on_failure;
  pid = some 2;
}

round-unnoticed_example :
    round (λ s path. (neg 12, s)) waitpid after_exit (service ∷ []) ≡ (service ∷ [], after_exit)
round-unnoticed_example =
    round-unnoticed services space memory mounts tt scheduler init_process after_exit
      (λ s path. (neg 12, s)) (service ∷ []) reached
      (
        (λ e. (
          2,
          refl,
          omega arith,
          (λ one. absurd (omega (arith, one))),
          process_of 2 (record init_process { main_task = 2 }),
          refl,
        )),
        tt,
      )

sys_write-Written_example :
    (r : ℤ × Kernel Unit) × (sys_write space memory (2 ^ 35 + 2) booted 1 4096 3 ≡ some r)
    × Written space memory booted 4096 3 r
sys_write-Written_example = sys_write-Written space memory (2 ^ 35 + 2) booted 4096 3 (omega arith)
