-- ===== src/Dealduck/Tests.antt =====
-- The service manager with a kernel whose processes have the pids 7, 8 and so on; 7 has ended.
use pindos.Base.{ℕ, suc, List, [], ◌∷◌, ◌==◌, if◌then◌else◌, ℤ, pos, negsuc, none}
use pindos.Dealduck.{ServiceUnit, stopped, on_failure}

abbrev exec : ℕ → List ℕ → ℤ × ℕ
exec w path = (pos w, suc w)

abbrev waitpid : ℕ → ℕ → ℤ × ℕ
waitpid w pid = (if pid == 7 then negsuc 9 else pos 0, w)

abbrev net_server : ServiceUnit
net_server = record {
  name = 110 ∷ [];
  exec_path = 47 ∷ 110 ∷ [];
  state = stopped;
  restart = on_failure;
  pid = none;
}
