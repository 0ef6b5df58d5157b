-- ===== src/Sched/Queue.antt =====
-- The run queue: a task is put in under a free key, and the keys stay in increasing order.
use pindos.Base.{
  ℕ, zero, suc, ◌+◌, ◌≤◌, ◌<◌, ◌≡◌, refl, true, false, some, List, [], ◌∷◌, arith, ltb, leb, ◌==◌,
  bit, Bool-cases, inl, inr, update_self, ap, sym, ◌∙◌, length,
}
use mathlib.Core.Path.{subst}
use pindos.Sched.{
  Scheduler, u64_max, saturating_add, contains_key, insert_key, find_key, set_vruntime,
  base_vruntime, insert_task_into_queue, place,
}

-- The keys from `key` on.
abbrev keys_from : ℕ → List (ℕ × ℕ) → ℕ
keys_from key [] = 0
keys_from key ((k, task) ∷ rest) = bit (leb key k) + keys_from key rest

-- Increasing keys, all of them at least `low`.
abbrev pub IsSorted : ℕ → List (ℕ × ℕ) → Type 0
IsSorted low [] = Unit
IsSorted low ((k, task) ∷ rest) = (low ≤ k) × IsSorted (k + 1) rest

keys_from-le-length : (key : ℕ) (queue : List (ℕ × ℕ)) → keys_from key queue ≤ length queue
keys_from-le-length key [] = omega arith
keys_from-le-length key ((k, task) ∷ rest) = ground (arith, keys_from-le-length key rest)

keys_from_next :
    (key : ℕ) (queue : List (ℕ × ℕ))
    → keys_from (key + 1) queue + bit (contains_key key queue) ≤ keys_from key queue
keys_from_next key [] = omega arith
keys_from_next key ((k, task) ∷ rest) = ground (arith, keys_from_next key rest)

find_key_next :
    (fuel : ℕ) (queue : List (ℕ × ℕ)) (key : ℕ)
    → contains_key key queue ≡ true
    → key + 1 ≤ u64_max
    → find_key (suc fuel) queue key ≡ find_key fuel queue (key + 1)
unfolding find_key
find_key_next fuel queue key used b =
    let step : saturating_add key 1 ≡ key + 1 = omega arith in
    rw used (ap (λ x. find_key fuel queue x) step)

-- The search ends at a free key that is not lower.
find_key_lem :
    (fuel : ℕ) (queue : List (ℕ × ℕ)) (key : ℕ)
    → keys_from key queue < fuel
    → key + fuel ≤ u64_max
    → (found : ℕ) × (find_key fuel queue key ≡ some found)
      × (key ≤ found)
      × (found < key + fuel)
      × (contains_key found queue ≡ false)
unfolding find_key
find_key_lem zero queue key e b = absurd (omega arith)
find_key_lem (suc fuel) queue key e b = elim (Bool-cases (contains_key key queue)) [
  | inr free ↦ (key, rw free refl, omega arith, omega arith, free)
  | inl used ↦
      let (found, run, lo, hi, free) =
        find_key_lem fuel queue (key + 1) (omega (arith, keys_from_next key queue, ap bit used))
          (omega arith) in
      (found, find_key_next fuel queue key used (omega arith) ∙ run, omega arith, omega arith, free)
]

insert_key-IsSorted :
    (key task low : ℕ) (queue : List (ℕ × ℕ))
    → low ≤ key
    → IsSorted low queue
    → IsSorted low (insert_key key task queue)
insert_key-IsSorted key task low [] h o = (h, tt)
insert_key-IsSorted key task low ((k, other) ∷ rest) h o = elim (Bool-cases (ltb key k)) [
  | inl before ↦ rw before (h, (ground (arith, before), o.1))
  | inr after ↦ elim (Bool-cases (k == key)) [
    | inl same ↦ rw (after, same) (h, subst (λ x. IsSorted (x + 1) rest) (ground (arith, same)) o.1)
    | inr apart ↦
        rw (after, apart)
          (o.0, insert_key-IsSorted key task (k + 1) rest (ground (arith, after, apart)) o.1)
  ]
]

-- What an insertion leaves: a free key not below the start, the tasks in order of their keys.
pub record Inserted (s : Scheduler) (task : ℕ) (t : Scheduler) : Type 0 where
  pub key : ℕ
  pub fresh : contains_key key s.run_queue ≡ false
  pub after_base : base_vruntime s ≤ key
  pub queue : t.run_queue ≡ insert_key key task s.run_queue
  pub vruntime : (t.tasks task).vruntime ≡ key
  pub current : t.current ≡ s.current
  pub min_vruntime : t.min_vruntime ≡ s.min_vruntime

place-Inserted :
    (s : Scheduler) (task key : ℕ)
    → contains_key key s.run_queue ≡ false
    → base_vruntime s ≤ key
    → Inserted s task (place s task key)
unfolding place set_vruntime
place-Inserted s task key free lo = elim (Bool-cases (key == (s.tasks task).vruntime)) [
  | inl same ↦
      rw (same, place)
        (record {
          key = key;
          fresh = free;
          after_base = lo;
          queue = refl;
          vruntime = ground (arith, same);
          current = refl;
          min_vruntime = refl;
        })
  | inr changed ↦
      rw (changed, place)
        (record {
          key = key;
          fresh = free;
          after_base = lo;
          queue = refl;
          vruntime =
              ap (λ x. x.vruntime)
                (update_self s.tasks task (record (s.tasks task) { vruntime = key }));
          current = refl;
          min_vruntime = refl;
        })
]

pub insert-place :
    (fuel : ℕ) (s : Scheduler) (task key : ℕ)
    → find_key fuel s.run_queue (base_vruntime s) ≡ some key
    → insert_task_into_queue fuel s task ≡ some (place s task key)
unfolding insert_task_into_queue
insert-place fuel s task key run = rw (run, insert_task_into_queue) refl

-- Inserting a task returns with more fuel than there are queued tasks, where the keys cannot reach
-- the end of u64: the task gets a key that no queued task has, not below the vruntime it starts
-- from, its vruntime is that key, and the queue stays in increasing order of the keys.
pub insert_task_into_queue-Inserted :
    (fuel : ℕ) (s : Scheduler) (task low : ℕ)
    → length s.run_queue < fuel
    → base_vruntime s + fuel ≤ u64_max
    → low ≤ base_vruntime s
    → IsSorted low s.run_queue
    → (t : Scheduler) × (insert_task_into_queue fuel s task ≡ some t)
      × Inserted s task t
      × IsSorted low t.run_queue
insert_task_into_queue-Inserted fuel s task low e b h o =
    let (key, run, lo, hi, free) =
      find_key_lem fuel s.run_queue (base_vruntime s)
        (omega (arith, keys_from-le-length (base_vruntime s) s.run_queue)) b in
    let placed : Inserted s task (place s task key) = place-Inserted s task key free lo in
    (
      place s task key,
      insert-place fuel s task key run,
      placed,
      subst (λ q. IsSorted low q) (sym placed.queue)
          (insert_key-IsSorted placed.key task low s.run_queue (omega (arith, placed.after_base))
            o),
    )
