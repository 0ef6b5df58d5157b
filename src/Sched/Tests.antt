-- ===== src/Sched/Tests.antt =====
-- The scheduler with a running task 0 and a waiting task 1.
use pindos.Base.{◌≡◌, refl, none, some, [], ◌∷◌, pos, arith}
use pindos.Sched.{
  Scheduler, add_task, base_vruntime, insert_task_into_queue, schedule_locked, exit_current,
  running, ready,
}
use pindos.Sched.Queue.{Inserted, IsSorted, insert_task_into_queue-Inserted}
use pindos.Sched.Ahead.{add_task-IsAhead}
use pindos.Sched.Schedule.{IsAhead, schedule_locked-live, exit_current-first}

abbrev two_tasks : Scheduler
two_tasks = record {
  tasks = λ _. record { state = ready; priority = pos 1; vruntime = 1 };
  run_queue = (1, 1) ∷ [];
  current = some 0;
  min_vruntime = 0;
  current_ticks = 0;
}

base : base_vruntime two_tasks ≡ 2
unfolding base_vruntime
base = omega arith

insert_task_into_queue-Inserted_example :
    (t : Scheduler) × (insert_task_into_queue 2 two_tasks 2 ≡ some t)
    × Inserted two_tasks 2 t
    × IsSorted 0 t.run_queue
insert_task_into_queue-Inserted_example =
    insert_task_into_queue-Inserted 2 two_tasks 2 0 (omega arith) (omega (arith, base))
      (omega arith) (omega arith, tt)

schedule_locked-live_example :
    (t : Scheduler) × (schedule_locked 1 two_tasks ≡ some (t, none))
    × (t.current ≡ some 0)
    × (t.run_queue ≡ two_tasks.run_queue)
    × (t.min_vruntime ≡ two_tasks.min_vruntime)
schedule_locked-live_example =
    schedule_locked-live 0 two_tasks 0 (1, 1) [] refl refl refl (omega arith, tt)

exit_current-first_example :
    (t : Scheduler) × (exit_current 1 two_tasks ≡ some (t, some (0, 1)))
    × (t.current ≡ some 1)
    × (t.run_queue ≡ [])
    × (t.min_vruntime ≡ 1)
    × ((t.tasks 1).state ≡ running)
exit_current-first_example =
    exit_current-first 1 two_tasks 0 1 1 [] refl refl (λ e. absurd (omega (arith, e)))

add_task-IsAhead_example :
    (t : Scheduler) × (add_task 2 two_tasks 2 ≡ some t) × IsSorted 0 t.run_queue × IsAhead t
add_task-IsAhead_example =
    add_task-IsAhead 2 two_tasks 0 2 refl (omega arith) (omega arith) (omega (arith, base))
      (omega arith, tt) (omega arith, tt)
