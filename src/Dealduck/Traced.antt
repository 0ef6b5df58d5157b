-- ===== src/Dealduck/Traced.antt =====
-- The manager's calls and units follow the turns of the trace.
use pindos.Base.{as_i32, ℕ, ◌≡◌, Option, none, some, List, ◌++◌, ℤ, if◌then◌else◌}
use pindos.Dealduck.{ServiceUnit, running, is_zero}
use pindos.Dealduck.Trace.{Event, exec_logged, waitpid_logged}

-- The calls that a step has added to the log.
abbrev Logged :
    {W A B : Type 0}
    → (A → List Event → B → Type 0)
    → A
    → List Event
    → B × (W × List Event)
    → Type 0
Logged Step a log r = (events : List Event) × (r.1.1 ≡ log ++ events) × Step a events r.0

module _ {W : Type 0} (exec : W → List ℕ → ℤ × W) (waitpid : W → ℕ → ℤ × W) where
  abbrev exec' : W × List Event → List ℕ → ℤ × (W × List Event)
  exec' = exec_logged exec waitpid

  abbrev waitpid' : W × List Event → ℕ → ℤ × (W × List Event)
  waitpid' = waitpid_logged exec waitpid

  abbrev status_of : ℤ → Option ℤ
  status_of answer = if is_zero answer then none else some (as_i32 answer)

  module _ (s : W × List Event) (unit : ServiceUnit) (p : ℕ) (runs' : unit.state ≡ running)
      (has : unit.pid ≡ some p) where
    abbrev answer : ℤ
    answer = (waitpid s.0 p).0

    abbrev asked : W × List Event
    asked = (waitpid' s p).1
