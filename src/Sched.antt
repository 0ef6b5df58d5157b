-- ===== src/Sched.antt =====
-- hammam/src/sched/mod.rs and task.rs: the run queue.
-- A task is known by its index in the store `tasks`, so that two `Arc`s of one task are one index.
-- The run queue is a `BTreeMap`: an association list with the keys in increasing order. `fuel`
-- bounds the search of a free key; `none` is a search that ran out.
pub mod Queue
pub mod Schedule
pub mod Ahead
pub mod Tests
use pindos.Base.{
  ℕ, zero, suc, ◌+◌, ◌-◌, ◌*◌, ◌/◌, ◌^◌, min, max, Bool, true, false, not, Option, none, some, List,
  [], ◌∷◌, ltb, leb, ◌==◌, if◌then◌else◌, update, ℤ, pos, negsuc,
}

pub data TaskState : Type 0 where
  running ready blocked dead : TaskState

abbrev pub is_dead : TaskState → Bool
is_dead dead = true
is_dead _ = false

-- What the scheduler reads and writes of a `Task`.
pub record Task : Type 0 where
  pub state : TaskState
  pub priority : ℤ
  pub vruntime : ℕ

pub record Scheduler : Type 0 where
  pub tasks : ℕ → Task
  pub run_queue : List (ℕ × ℕ)
  pub current : Option ℕ
  pub min_vruntime : ℕ
  pub current_ticks : ℕ

abbrev pub u64_max : ℕ
u64_max = 2 ^ 64 - 1

abbrev pub quantum_ticks : ℕ
quantum_ticks = 10

-- `a.saturating_add(b)` on u64
abbrev pub saturating_add : ℕ → ℕ → ℕ
saturating_add a b = min (a + b) u64_max

-- `1024 / priority.max(1).min(1024)`
pub weight : ℤ → ℕ
weight (pos n) = 1024 / min (max n 1) 1024
weight (negsuc n) = 1024

-- The map: `contains_key`, `insert` and the removal of the first entry.
abbrev pub contains_key : ℕ → List (ℕ × ℕ) → Bool
contains_key key [] = false
contains_key key ((k, task) ∷ rest) = if k == key then true else contains_key key rest

abbrev pub insert_key : ℕ → ℕ → List (ℕ × ℕ) → List (ℕ × ℕ)
insert_key key task [] = (key, task) ∷ []
insert_key key task ((k, other) ∷ rest) =
    if ltb key k
    then (key, task) ∷ (k, other) ∷ rest
    else if k == key
    then (key, task) ∷ rest
    else (k, other) ∷ insert_key key task rest

-- `while self.run_queue.contains_key(&key)`
unfoldable pub find_key : ℕ → List (ℕ × ℕ) → ℕ → Option ℕ
find_key zero queue key = none
find_key (suc fuel) queue key =
    let rest = find_key fuel queue (saturating_add key 1) in
    if contains_key key queue then rest else some key

unfoldable pub set_vruntime : Scheduler → ℕ → ℕ → Scheduler
set_vruntime s task v = record s {
  tasks = update s.tasks task (record (s.tasks task) { vruntime = v });
}

unfoldable pub set_state : Scheduler → ℕ → TaskState → Scheduler
set_state s task v = record s { tasks = update s.tasks task (record (s.tasks task) { state = v }) }

-- The vruntime that `insert_task_into_queue` starts from.
unfoldable pub base_vruntime : Scheduler → ℕ
base_vruntime s = elim s.current [
  | none ↦ s.min_vruntime
  | some current ↦ max s.min_vruntime (saturating_add (s.tasks current).vruntime 1)
]

-- The task gets the key as its vruntime, and its place in the queue.
unfoldable pub place : Scheduler → ℕ → ℕ → Scheduler
place s task key =
    let s' = if key == (s.tasks task).vruntime then s else set_vruntime s task key in
    record s' { run_queue = insert_key key task s'.run_queue }

unfoldable pub insert_task_into_queue : ℕ → Scheduler → ℕ → Option Scheduler
insert_task_into_queue fuel s task = elim (find_key fuel s.run_queue (base_vruntime s)) [
  | none ↦ none
  | some key ↦ some (place s task key)
]

unfoldable pub add_task : ℕ → Scheduler → ℕ → Option Scheduler
add_task fuel s task = elim s.current [
  | none ↦ some (record s { current = some task })
  | some _ ↦ insert_task_into_queue fuel s task
]

-- The current task is put back unless it is dead.
unfoldable pub put_back : ℕ → Scheduler → Option Scheduler
put_back fuel s = elim s.current [
  | none ↦ some s
  | some current ↦
      if is_dead (s.tasks current).state
      then some (record s { current = none })
      else insert_task_into_queue fuel (record s { current = none }) current
]

unfoldable pub take_first : Scheduler → Scheduler × Option ℕ
take_first s = elim s.run_queue [
  | [] ↦ (s, none)
  | (key, next) ∷ rest ↦
      (record s { run_queue = rest; min_vruntime = key; current = some next }, some next)
]

unfoldable pub pick_next : ℕ → Scheduler → Option (Scheduler × Option ℕ)
pick_next fuel s = elim s.run_queue [
  | [] ↦ some (s, none)
  | _ ∷ _ ↦ elim (put_back fuel s) [ none ↦ none | some t ↦ some (take_first t) ]
]

-- The result is the pair of tasks whose contexts are switched. `CURRENT_TASK` is set to the second.
unfoldable pub schedule_locked : ℕ → Scheduler → Option (Scheduler × Option (ℕ × ℕ))
schedule_locked fuel s = elim s.current [
  | none ↦ some (s, none)
  | some current ↦ elim (pick_next fuel s) [
    | none ↦ none
    | some (t, none) ↦ some (t, none)
    | some (t, some next) ↦
        if current == next
        then some (t, none)
        else some (set_state (set_state t current ready) next running, some (current, next))
  ]
]

pub tick : ℕ → Scheduler → Option (Scheduler × Option (ℕ × ℕ))
tick fuel s = elim s.current [
  | none ↦ some (s, none)
  | some current ↦
      let increment = 1000000 / weight (s.tasks current).priority in
      let t = set_vruntime s current (saturating_add (s.tasks current).vruntime increment) in
      let ticks = min (t.current_ticks + 1) 255 in
      if leb quantum_ticks ticks
      then schedule_locked fuel (record t { current_ticks = 0 })
      else some (record t { current_ticks = ticks }, none)
]

-- `exit_current`, up to the switch.
unfoldable pub exit_current : ℕ → Scheduler → Option (Scheduler × Option (ℕ × ℕ))
exit_current fuel s = elim s.current [
  | none ↦ schedule_locked fuel s
  | some current ↦ schedule_locked fuel (set_state s current dead)
]
