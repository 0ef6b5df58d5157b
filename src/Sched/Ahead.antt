-- ===== src/Sched/Ahead.antt =====
-- Every task that is queued while another one is current waits above the least vruntime.
use pindos.Base.{
  ℕ, ◌+◌, ◌≤◌, ◌<◌, ◌≡◌, some, List, [], ◌∷◌, All, arith, ltb, ◌==◌, Bool-cases, inl, inr, sym,
  length,
}
use mathlib.Core.Path.{subst}
use pindos.Sched.{Scheduler, u64_max, insert_key, base_vruntime, add_task}
use pindos.Sched.Queue.{IsSorted, insert_task_into_queue-Inserted}
use pindos.Sched.Schedule.{IsAhead}

insert_key-ahead :
    (low key task : ℕ) (queue : List (ℕ × ℕ))
    → low < key
    → All (λ e. low < e.0) queue
    → All (λ e. low < e.0) (insert_key key task queue)
insert_key-ahead low key task [] h a = (h, tt)
insert_key-ahead low key task ((k, other) ∷ rest) h a = elim (Bool-cases (ltb key k)) [
  | inl before ↦ rw before (h, a)
  | inr after ↦ elim (Bool-cases (k == key)) [
    | inl same ↦ rw (after, same) (h, a.1)
    | inr apart ↦ rw (after, apart) (a.0, insert_key-ahead low key task rest h a.1)
  ]
]

base_vruntime-least :
    (s : Scheduler) (c : ℕ) → s.current ≡ some c → s.min_vruntime ≤ base_vruntime s
unfolding base_vruntime
base_vruntime-least s c e = rw (e, base_vruntime) (omega arith)

base_vruntime_current :
    (s : Scheduler) (c : ℕ)
    → s.current ≡ some c
    → s.min_vruntime ≤ (s.tasks c).vruntime
    → s.min_vruntime < u64_max
    → s.min_vruntime < base_vruntime s
unfolding base_vruntime
base_vruntime_current s c e h small = rw (e, base_vruntime) (omega arith)

-- Adding a task while another one is current, whose vruntime is not below the least one, returns with
-- more fuel than there are queued tasks, where the keys cannot reach the end of u64: the keys of all
-- queued tasks are then above the least vruntime, if they were before.
pub add_task-IsAhead :
    (fuel : ℕ) (s : Scheduler) (c task : ℕ)
    → s.current ≡ some c
    → s.min_vruntime ≤ (s.tasks c).vruntime
    → length s.run_queue < fuel
    → base_vruntime s + fuel ≤ u64_max
    → IsSorted 0 s.run_queue
    → IsAhead s
    → (t : Scheduler) × (add_task fuel s task ≡ some t) × IsSorted 0 t.run_queue × IsAhead t
unfolding add_task
add_task-IsAhead fuel s c task e h enough room sorted ahead =
    let (t, run, placed, sorted') =
      insert_task_into_queue-Inserted fuel s task 0 enough room (omega arith) sorted in
    let small : s.min_vruntime < u64_max = omega (arith, base_vruntime-least s c e) in
    let above : s.min_vruntime < placed.key =
      omega (arith, base_vruntime_current s c e h small, placed.after_base) in
    (
      t,
      rw (e, add_task) run,
      sorted',
      subst (λ m. All (λ x. m < x.0) t.run_queue) (sym placed.min_vruntime)
          (subst (λ q. All (λ x. s.min_vruntime < x.0) q) (sym placed.queue)
            (insert_key-ahead s.min_vruntime placed.key task s.run_queue above ahead)),
    )
