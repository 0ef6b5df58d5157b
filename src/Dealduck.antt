-- ===== src/Dealduck.antt =====
-- dealduck/src/manager.rs and unit.rs: the service manager, the first process of the system.
-- The two `syscall` instructions are parameters: `exec` and `waitpid` of a kernel state `W`, each
-- with the i64 that the kernel leaves in rax. The copy in userspace/dealduck/src does the same.
pub mod Supervise
pub mod Trace
pub mod Traced
pub mod Tests
use pindos.Base.{
  ℕ, zero, suc, ◌+◌, ◌-◌, ◌%◌, ◌^◌, Bool, true, false, ◌||◌, Option, none, some, List, [], ◌∷◌,
  ◌++◌, ℤ, pos, negsuc, neg, as_i32, is_negative, ltb, ◌==◌, if◌then◌else◌,
}

pub data ServiceState : Type 0 where
  stopped starting running failed : ServiceState

pub data RestartPolicy : Type 0 where
  no on_failure always : RestartPolicy

pub record ServiceUnit : Type 0 where
  pub name : List ℕ
  pub exec_path : List ℕ
  pub state : ServiceState
  pub restart : RestartPolicy
  pub pid : Option ℕ

pub new_unit : List ℕ → List ℕ → ServiceUnit
new_unit name exec_path = record {
  name = name;
  exec_path = exec_path;
  state = stopped;
  restart = on_failure;
  pid = none;
}

pub register : List ServiceUnit → List ℕ → List ℕ → List ServiceUnit
register units name exec_path = units ++ new_unit name exec_path ∷ []

-- What becomes of a unit when `spawn` returns.
pub launched : ServiceUnit → Option ℕ → ServiceUnit
launched unit (some pid) = record unit { state = running; pid = some pid }
launched unit none = record unit { state = failed }

abbrev pub is_zero : ℤ → Bool
is_zero (pos n) = n == 0
is_zero (negsuc n) = false

module _ {W : Type 0} (exec : W → List ℕ → ℤ × W) (waitpid : W → ℕ → ℤ × W) where
  -- A negative pid is a failure; another one is taken as a u32.
  pub spawn : W → List ℕ → Option ℕ × W
  spawn w path =
      let (pid, w') = exec w path in (elim pid [ pos n ↦ some (n % 2 ^ 32) | negsuc _ ↦ none ], w')

  pub waitpid_nonblock : W → ℕ → Option ℤ × W
  waitpid_nonblock w pid =
      let (result, w') = waitpid w pid in
      (if is_zero result then none else some (as_i32 result), w')

  pub start : W → ServiceUnit → ServiceUnit × W
  start w unit = let (pid, w') = spawn w unit.exec_path in (launched unit pid, w')

  pub start_all : W → List ServiceUnit → List ServiceUnit × W
  start_all w [] = ([], w)
  start_all w (unit ∷ rest) =
      let (unit', w') = start w unit in let (rest', w'') = start_all w' rest in (unit' ∷ rest', w'')

  -- A service that has ended is started again under the policy `OnFailure`.
  pub restarted : W → ServiceUnit → RestartPolicy → ServiceUnit × W
  restarted w unit on_failure = let (pid, w') = spawn w unit.exec_path in (launched unit pid, w')
  restarted w unit _ = (record unit { state = failed }, w)

  -- `status == Some(0) || status.map(|s| s < 0).unwrap_or(false)`
  pub has_ended : Option ℤ → Bool
  has_ended none = false
  has_ended (some status) = is_zero status || is_negative status

  -- The status of a running unit's process, if it has one.
  pub poll : W → ServiceUnit → Option ℕ → ServiceUnit × W
  poll w unit none = (unit, w)
  poll w unit (some pid) =
      let (status, w') = waitpid_nonblock w pid in
      if has_ended status then restarted w' unit unit.restart else (unit, w')

  -- One unit in a round of the loop of `run`.
  pub check : W → ServiceUnit → ServiceState → ServiceUnit × W
  check w unit running = poll w unit unit.pid
  check w unit _ = (unit, w)

  pub round : W → List ServiceUnit → List ServiceUnit × W
  round w [] = ([], w)
  round w (unit ∷ rest) =
      let (unit', w') = check w unit unit.state in
      let (rest', w'') = round w' rest in (unit' ∷ rest', w'')

  -- `n` rounds of the endless loop of `run`.
  pub run : ℕ → W → List ServiceUnit → List ServiceUnit × W
  run zero w units = (units, w)
  run (suc n) w units = let (units', w') = round w units in run n w' units'
