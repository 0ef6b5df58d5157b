-- ===== src/Dealduck/Trace.antt =====
-- What the manager asks of the kernel, and what becomes of its units for each answer.
use pindos.Base.{
  ℕ, suc, ◌-◌, ◌%◌, ◌^◌, ◌≤◌, ◌<◌, ◌≡◌, ◌≢◌, none, some, List, [], ◌∷◌, ◌++◌, ℤ, pos, negsuc, ◌⊎◌,
}
use pindos.Dealduck.{ServiceUnit, running, failed, on_failure}

-- A call of the kernel with its answer.
pub data Event : Type 0 where
  executed : List ℕ → ℤ → Event
  waited : ℕ → ℤ → Event

-- A kernel that keeps the calls in their order.
module _ {W : Type 0} (exec : W → List ℕ → ℤ × W) (waitpid : W → ℕ → ℤ × W) where
  abbrev pub exec_logged : W × List Event → List ℕ → ℤ × (W × List Event)
  exec_logged s path =
      ((exec s.0 path).0, ((exec s.0 path).1, s.1 ++ executed path (exec s.0 path).0 ∷ []))

  abbrev pub waitpid_logged : W × List Event → ℕ → ℤ × (W × List Event)
  waitpid_logged s pid =
      ((waitpid s.0 pid).0, ((waitpid s.0 pid).1, s.1 ++ waited pid (waitpid s.0 pid).0 ∷ []))

-- An answer that tells of an end: not 0, but 0 or negative in its low 32 bits.
abbrev pub TellsEnd : ℤ → Type 0
TellsEnd (pos n) = (n ≢ 0) × ((n % 2 ^ 32 ≡ 0) ⊎ (2 ^ 31 ≤ n % 2 ^ 32))
TellsEnd (negsuc n) = (n % 2 ^ 32 < 2 ^ 31) ⊎ (n % 2 ^ 32 ≡ 2 ^ 32 - 1)

-- The start of a unit: it runs with the pid that the kernel answers, or has failed.
pub data Started (unit : ServiceUnit) : List Event → ServiceUnit → Type 0 where
  runs :
      (n : ℕ)
      → Started unit
          (executed unit.exec_path (pos n) ∷ [])
          (record unit { state = running; pid = some (n % 2 ^ 32) })
  fails :
      (n : ℕ)
      → Started unit (executed unit.exec_path (negsuc n) ∷ []) (record unit { state = failed })

-- The turn of a unit in a round.
pub data Turn (unit : ServiceUnit) : List Event → ServiceUnit → Type 0 where
  passed : (unit.state ≢ running) ⊎ (unit.pid ≡ none) → Turn unit [] unit
  alive :
      (p : ℕ) (answer : ℤ)
      → unit.state ≡ running
      → unit.pid ≡ some p
      → (TellsEnd answer → ⊥)
      → Turn unit (waited p answer ∷ []) unit
  ended :
      (p : ℕ) (answer : ℤ)
      → unit.state ≡ running
      → unit.pid ≡ some p
      → TellsEnd answer
      → unit.restart ≢ on_failure
      → Turn unit (waited p answer ∷ []) (record unit { state = failed })
  replaced :
      (p : ℕ) (answer : ℤ) (events : List Event) (unit' : ServiceUnit)
      → unit.state ≡ running
      → unit.pid ≡ some p
      → TellsEnd answer
      → unit.restart ≡ on_failure
      → Started unit events unit'
      → Turn unit (waited p answer ∷ events) unit'

-- One step of every unit, in their order.
pub data Each (Step : ServiceUnit → List Event → ServiceUnit → Type 0)
    : List ServiceUnit → List Event → List ServiceUnit → Type 0 where
  nothing : Each Step [] [] []
  one :
      (unit unit' : ServiceUnit) (events events' : List Event) (units units' : List ServiceUnit)
      → Step unit events unit'
      → Each Step units events' units'
      → Each Step (unit ∷ units) (events ++ events') (unit' ∷ units')

pub data Rounds : ℕ → List ServiceUnit → List Event → List ServiceUnit → Type 0 where
  over : (units : List ServiceUnit) → Rounds 0 units [] units
  more :
      (n : ℕ) (units units' units'' : List ServiceUnit) (events events' : List Event)
      → Each Turn units events units'
      → Rounds n units' events' units''
      → Rounds (suc n) units (events ++ events') units''
