-- ===== src/Daemon/State.antt =====
-- src/coda_node/server/daemon.py: the pid file, and the calls to the operating system. What they give is the
-- parameter `Env`, which may answer the same call differently each time.
use coda_self_service.Prelude.{ℕ, suc, String, Bool, Option, List, ◌∷◌}
use coda_self_service.Prelude.Int.{ℤ}
use coda_self_service.Effects.{Result, Action}

pub data Signal : Type 0 where
  sigterm sigkill : Signal

pub record Spawn : Type 0 where
  pub command : List String
  pub environment : List (String × String)

-- `probed`, `signalled` and `ran_taskkill` hold the number that the call is given.
pub data Event : Type 0 where
  read_pid read_log opened_log closed_log wrote_pid unlinked_pid restricted : Event
  probed : ℤ → Event
  signalled : ℤ → Signal → Event
  ran_taskkill : ℤ → Event
  spawned : Spawn → Event
  slept : ℕ → Event

pub record World : Type 0 where
  pub now : ℕ
  -- newest first
  pub trace : List Event
  -- the content of DAEMON_PID_PATH, if it exists; nobody else writes it
  pub pid_file : Option String

pub record Env : Type 0 where
  -- `os.name == "nt"`, `os.environ`, `sys.executable`
  pub windows : Bool
  pub environ : List (String × String)
  pub executable : String
  -- whether an access to the pid file succeeds: `read_text`, `write_text`, `unlink`, `chmod`
  pub readable : ℕ → Result (Unit {0})
  pub writable : ℕ → Result (Unit {0})
  pub removable : ℕ → Result (Unit {0})
  pub chmod : ℕ → Result (Unit {0})
  -- `os.kill(pid, 0)` and `os.kill(pid, signal)`, and the run of taskkill
  pub probe : ℕ → ℤ → Result (Unit {0})
  pub kill : ℕ → ℤ → Signal → Result (Unit {0})
  pub taskkill : ℕ → ℤ → Result (Unit {0})
  -- `open` of the log for appending, and `subprocess.Popen`, with the pid
  pub open_log : ℕ → Result (Unit {0})
  pub popen : ℕ → Spawn → Result ℤ
  -- the log, if it exists, and what reading gives
  pub log_exists : ℕ → Bool
  pub log_text : ℕ → Result String
  -- the clock in ns, and `time.sleep`
  pub monotonic : ℕ → ℕ
  pub sleep : ℕ → Result (Unit {0})

unfoldable pub call : {A : Type 0} → (ℕ → Result A) → Event → Action World A
call ask note s = (ask s.now, record s { now = suc s.now; trace = note ∷ s.trace })
