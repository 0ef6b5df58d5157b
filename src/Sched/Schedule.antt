-- ===== src/Sched/Schedule.antt =====
-- Which task runs next: the current one as long as it is not dead.
use pindos.Base.{
  ℕ, suc, ◌<◌, ◌≡◌, refl, ◌≢◌, true, false, Option, none, some, List, [], ◌∷◌, All, arith, ltb,
  ◌==◌, ==_refl, Bool-cases, inl, inr, update_self, ap, ◌∙◌,
}
use pindos.Sched.Queue.{insert-place}
use pindos.Sched.{
  Scheduler, TaskState, is_dead, contains_key, insert_key, find_key, set_vruntime, set_state,
  base_vruntime, put_back, take_first, pick_next, schedule_locked, exit_current, running, ready,
  dead, place,
}

-- Every queued key is above the least vruntime, as `insert_task_into_queue` leaves it.
abbrev pub IsAhead : Scheduler → Type 0
IsAhead s = All (λ e. s.min_vruntime < e.0) s.run_queue

ahead-free :
    (low : ℕ) (queue : List (ℕ × ℕ)) → All (λ e. low < e.0) queue → contains_key low queue ≡ false
ahead-free low [] h = refl
ahead-free low ((k, task) ∷ rest) h = ground (arith, h.0, ahead-free low rest h.1)

ahead-first :
    (low task : ℕ) (queue : List (ℕ × ℕ))
    → All (λ e. low < e.0) queue
    → insert_key low task queue ≡ (low, task) ∷ queue
ahead-first low task [] h = refl
ahead-first low task ((k, other) ∷ rest) h =
    let before : ltb low k ≡ true = ground (arith, h.0) in rw before refl

find_key_free :
    (fuel : ℕ) (queue : List (ℕ × ℕ)) (key : ℕ)
    → contains_key key queue ≡ false
    → find_key (suc fuel) queue key ≡ some key
unfolding find_key
find_key_free fuel queue key free = rw free refl

-- The queue without its first entry.
take_first_cons :
    (s : Scheduler) (k n : ℕ) (rest : List (ℕ × ℕ))
    → s.run_queue ≡ (k, n) ∷ rest
    → take_first s ≡ (record s { run_queue = rest; min_vruntime = k; current = some n }, some n)
unfolding take_first
take_first_cons s k n rest e = rw (e, take_first) refl

place_queue :
    (s : Scheduler) (task key : ℕ) → (place s task key).run_queue ≡ insert_key key task s.run_queue
unfolding place set_vruntime
place_queue s task key = elim (Bool-cases (key == (s.tasks task).vruntime)) [
  | inl same ↦ rw (same, place) refl
  | inr changed ↦ rw (changed, place) refl
]

-- A live current task goes back in at the least vruntime.
put_back_live :
    (fuel : ℕ) (s : Scheduler) (c : ℕ)
    → s.current ≡ some c
    → is_dead (s.tasks c).state ≡ false
    → IsAhead s
    → put_back (suc fuel) s ≡ some (place (record s { current = none }) c s.min_vruntime)
unfolding put_back base_vruntime
put_back_live fuel s c e live ahead =
    rw (e, put_back, live)
      (insert-place (suc fuel) (record s { current = none }) c s.min_vruntime
        (find_key_free fuel s.run_queue s.min_vruntime
          (ahead-free s.min_vruntime s.run_queue ahead)))

pick_next_run :
    (fuel : ℕ) (s t u : Scheduler) (first : ℕ × ℕ) (rest : List (ℕ × ℕ)) (o : Option ℕ)
    → s.run_queue ≡ first ∷ rest
    → put_back fuel s ≡ some t
    → take_first t ≡ (u, o)
    → pick_next fuel s ≡ some (u, o)
unfolding pick_next
pick_next_run fuel s t u first rest o q run taken = rw (q, pick_next, run) (ap some taken)

schedule_same :
    (fuel : ℕ) (s t : Scheduler) (c : ℕ)
    → s.current ≡ some c
    → pick_next fuel s ≡ some (t, some c)
    → schedule_locked fuel s ≡ some (t, none)
unfolding schedule_locked
schedule_same fuel s t c e run = rw (e, schedule_locked, run, ==_refl c) refl

schedule_other :
    (fuel : ℕ) (s t : Scheduler) (c n : ℕ)
    → s.current ≡ some c
    → c ≢ n
    → pick_next fuel s ≡ some (t, some n)
    → schedule_locked fuel s ≡ some (set_state (set_state t c ready) n running, some (c, n))
unfolding schedule_locked
schedule_other fuel s t c n e ne run =
    let apart : (c == n) ≡ false = ground (arith, ne) in rw (e, schedule_locked, run, apart) refl

-- Whoever waits in the queue: as long as the current task is not dead and every queued key is above
-- the least vruntime, a call of the scheduler switches to no other task, keeps the queue and keeps
-- the current task.
pub schedule_locked-live :
    (fuel : ℕ) (s : Scheduler) (c : ℕ) (first : ℕ × ℕ) (rest : List (ℕ × ℕ))
    → s.current ≡ some c
    → is_dead (s.tasks c).state ≡ false
    → s.run_queue ≡ first ∷ rest
    → IsAhead s
    → (t : Scheduler) × (schedule_locked (suc fuel) s ≡ some (t, none))
      × (t.current ≡ some c)
      × (t.run_queue ≡ s.run_queue)
      × (t.min_vruntime ≡ s.min_vruntime)
schedule_locked-live fuel s c first rest e live q ahead =
    let t : Scheduler = place (record s { current = none }) c s.min_vruntime in
    let taken : take_first t ≡ (
      record t { run_queue = s.run_queue; min_vruntime = s.min_vruntime; current = some c },
      some c,
    ) =
      take_first_cons t s.min_vruntime c s.run_queue (
        place_queue (record s { current = none }) c s.min_vruntime
        ∙ ahead-first s.min_vruntime c s.run_queue ahead) in
    (
      record t { run_queue = s.run_queue; min_vruntime = s.min_vruntime; current = some c },
      schedule_same (suc fuel) s _ c e (
          pick_next_run (suc fuel) s t _ first rest (some c) q (put_back_live fuel s c e live ahead)
            taken),
      refl,
      refl,
      refl,
    )

put_back_dead :
    (fuel : ℕ) (s : Scheduler) (c : ℕ)
    → s.current ≡ some c
    → is_dead (s.tasks c).state ≡ true
    → put_back fuel s ≡ some (record s { current = none })
unfolding put_back
put_back_dead fuel s c e gone = rw (e, put_back, gone) refl

set_state_self : (s : Scheduler) (c : ℕ) (v : TaskState) → ((set_state s c v).tasks c).state ≡ v
unfolding set_state
set_state_self s c v = ap (λ x. x.state) (update_self s.tasks c (record (s.tasks c) { state = v }))

exit-schedule :
    (fuel : ℕ) (s : Scheduler) (c : ℕ)
    → s.current ≡ some c
    → exit_current fuel s ≡ schedule_locked fuel (set_state s c dead)
unfolding exit_current
exit-schedule fuel s c e = simp (e, exit_current) refl

-- A task that ends gives way to the first queued task, if that is another one, which leaves the queue and runs;
-- the scheduler's least vruntime is then its key.
pub exit_current-first :
    (fuel : ℕ) (s : Scheduler) (c k n : ℕ) (rest : List (ℕ × ℕ))
    → s.current ≡ some c
    → s.run_queue ≡ (k, n) ∷ rest
    → c ≢ n
    → (t : Scheduler) × (exit_current fuel s ≡ some (t, some (c, n)))
      × (t.current ≡ some n)
      × (t.run_queue ≡ rest)
      × (t.min_vruntime ≡ k)
      × ((t.tasks n).state ≡ running)
unfolding set_state
exit_current-first fuel s c k n rest e q ne =
    let ended : Scheduler = set_state s c dead in
    let left : Scheduler = record ended { current = none } in
    let next : Scheduler = record left { run_queue = rest; min_vruntime = k; current = some n } in
    (
      set_state (set_state next c ready) n running,
      exit-schedule fuel s c e
          ∙ schedule_other fuel ended next c n e ne (
              pick_next_run fuel ended left next (k, n) rest (some n) q
                (put_back_dead fuel ended c e (ap is_dead (set_state_self s c dead)))
                (take_first_cons left k n rest q)),
      refl,
      refl,
      refl,
      set_state_self (set_state next c ready) n running,
    )
