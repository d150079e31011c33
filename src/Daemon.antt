-- ===== src/Daemon.antt =====
-- src/coda_node/server/daemon.py: the pid file, the start and the stop of the daemon, and the tail of its log.
pub mod State
pub mod Stopping
pub mod Signals
pub mod Waiting
pub mod Recorded
pub mod Register
pub mod Tail
pub mod Spawns
pub mod Tests
use coda_self_service.Prelude.{
  ℕ, zero, suc, ◌+◌, ◌*◌, ◌^◌, String, ◌<>◌, Bool, true, false, not, Option, none, some, List, [],
  ◌∷◌, length, insert, ltb, leb, is_some, if◌then◌else◌,
}
use coda_self_service.Prelude.Int.{ℤ, pos, negsuc}
use coda_self_service.Prelude.Text.{is_blank, strip, str_int, int_of}
use coda_self_service.Prelude.Lines.{splitlines, join}
use coda_self_service.Values.{Value, bool, int, str, null, Dict}
use coda_self_service.Effects.{
  Exc, permission_error, process_lookup_error, timeout_expired, value_error, runtime_error,
  is_connection, Result, ok, raise, Action, pure, throw, lift, gets, modify, try, finally, ◌>>=◌,
  ◌>>◌, when,
}
use coda_self_service.Daemon.State.{
  Signal, sigterm, sigkill, Spawn, Event, read_pid, read_log, opened_log, closed_log, wrote_pid,
  unlinked_pid, restricted, probed, signalled, ran_taskkill, spawned, slept, World, Env, call,
}

abbrev pub parse_pid : String → Result (Option ℤ)
parse_pid text = elim (int_of (strip text)) [
  | none ↦ raise (value_error "invalid literal for int()")
  | some pid ↦ ok (some pid)
]

-- `except (ValueError, OSError)`
abbrev pub is_unreadable : Exc → Bool
is_unreadable (value_error _) = true
is_unreadable e = is_connection e

-- `cmd`
abbrev pub command : String → String → ℤ → List String
command executable host port =
    executable
    ∷ "-m"
    ∷ "uvicorn"
    ∷ "coda_node.server.app:app"
    ∷ "--host"
    ∷ host
    ∷ "--port"
    ∷ str_int port
    ∷ "--log-level"
    ∷ "warning"
    ∷ []

abbrev pub with_token : Option String → List (String × String) → List (String × String)
with_token none environment = environment
with_token (some token) environment =
    if is_blank token then environment else insert "CODA_NODE_TOKEN" token environment

-- `xs[n:]`
abbrev pub drop {ℓ} : {A : Type ℓ} → ℕ → List A → List A
drop zero xs = xs
drop (suc n) [] = []
drop (suc n) (x ∷ xs) = drop n xs

-- the last items of a list
abbrev pub last_of {ℓ} : {A : Type ℓ} → ℕ → List A → List A
last_of n [] = []
last_of n (x ∷ xs) = let rest = last_of n xs in if ltb n (length (x ∷ xs)) then rest else x ∷ xs

-- `xs[-n:]`: all of the list for 0, and what follows the first -n items for a negative number
abbrev pub tail_slice {ℓ} : {A : Type ℓ} → ℤ → List A → List A
tail_slice (pos zero) xs = xs
tail_slice (pos (suc n)) xs = last_of (suc n) xs
tail_slice (negsuc n) xs = drop (suc n) xs

module _ (env : Env) where
  unfoldable pub pid_text : String → Action World (Option ℤ)
  pid_text text = do call env.readable read_pid; lift (parse_pid text)

  unfoldable pub read_content : Option String → Action World (Option ℤ)
  read_content none = pure none
  read_content (some text) = try (pid_text text) λ e. if is_unreadable e then pure none else throw e

  -- `read_daemon_pid`
  unfoldable pub read_daemon_pid : Action World (Option ℤ)
  read_daemon_pid = do content ← gets (λ s. s.pid_file); read_content content

  -- `_process_exists`
  unfoldable pub process_exists : ℤ → Action World Bool
  process_exists pid =
      try (do call (λ t. env.probe t pid) (probed pid); pure true)
        λ e. if is_connection e then pure false else throw e

  abbrev pub exists_some : Option ℤ → Action World Bool
  exists_some none = pure false
  exists_some (some pid) = process_exists pid

  -- `is_daemon_running`
  unfoldable pub is_daemon_running : Action World Bool
  is_daemon_running = do pid ← read_daemon_pid; exists_some pid

  abbrev pub shown_pid : Bool → Option ℤ → Value
  shown_pid true (some pid) = int pid
  shown_pid running pid = null

  -- `daemon_status`
  unfoldable pub daemon_status : String → String → Action World Dict
  daemon_status pid_path log_path = do
    pid ← read_daemon_pid
    running ← exists_some pid
    log_exists ← gets (λ s. env.log_exists s.now)
    pure (
        ("running", bool running)
        ∷ ("pid", shown_pid running pid)
        ∷ ("pid_file", str pid_path)
        ∷ ("log_file", str log_path)
        ∷ ("log_exists", bool log_exists)
        ∷ [])

  -- `DAEMON_PID_PATH.unlink(missing_ok=True)`
  unfoldable pub unlink_pid : Action World (Unit {0})
  unlink_pid = do call env.removable unlinked_pid; modify (λ s. record s { pid_file = none })

  abbrev pub spawn_of : String → ℤ → Option String → Spawn
  spawn_of host port token = record {
    command = command env.executable host port;
    environment =
        with_token token (insert "CODA_PORT" (str_int port) (insert "CODA_HOST" host env.environ));
  }

  -- `Popen` between the opening and the closing of the log
  unfoldable pub spawn : Spawn → Action World ℤ
  spawn what = do
    call env.open_log opened_log
    finally (call (λ t. env.popen t what) (spawned what)) (call (λ t. ok tt) closed_log)

  unfoldable pub write_pid : ℤ → Action World (Unit {0})
  write_pid pid = do
    call env.writable wrote_pid
    modify (λ s. record s { pid_file = some (str_int pid <> "\n") })
    when (not env.windows) (call env.chmod restricted)

  -- `start_daemon`
  unfoldable pub start_daemon : String → ℤ → Option String → Action World ℤ
  start_daemon host port token = do
    running ← is_daemon_running
    if running
        then (do
          pid ← read_daemon_pid
          throw (
              runtime_error (
                "Daemon already running (PID "
                <> elim pid [ none ↦ "None" | some pid ↦ str_int pid ]
                <> ")")))
        else (do
          stale ← gets (λ s. is_some s.pid_file)
          when stale unlink_pid
          pid ← spawn (spawn_of host port token)
          write_pid pid
          pure pid)

  -- the `else` of the loop
  unfoldable pub force_kill : ℤ → Action World (Unit {0})
  force_kill pid = do
    call (λ t. env.kill t pid sigkill) (signalled pid sigkill)
    call env.sleep (slept 500)

  -- The `while` loop on a number of rounds; after the last of them RuntimeError stands for a loop that
  -- goes on.
  unfoldable pub wait_exit : ℕ → ℕ → ℤ → Action World (Unit {0})
  wait_exit zero deadline pid = throw (runtime_error "still waiting")
  wait_exit (suc rounds) deadline pid = do
    now ← gets (λ s. env.monotonic s.now)
    if ltb now deadline
        then (do
          alive ← process_exists pid
          if alive then (do call env.sleep (slept 100); wait_exit rounds deadline pid) else pure tt)
        else force_kill pid

  -- How `stop_daemon` ends the process. `os.kill` is given the number as it stands; whom the system signals for 0
  -- or a negative number is not modelled.
  unfoldable pub terminate : ℕ → ℕ → ℤ → Action World (Unit {0})
  terminate rounds timeout pid =
      if env.windows then call (λ t. env.taskkill t pid) (ran_taskkill pid) else (do
        call (λ t. env.kill t pid sigterm) (signalled pid sigterm)
        now ← gets (λ s. env.monotonic s.now)
        wait_exit rounds (now + timeout) pid)

  -- `except (PermissionError, ProcessLookupError, subprocess.TimeoutExpired)`
  abbrev pub stop_failed : Exc → Action World Bool
  stop_failed permission_error = do unlink_pid; pure false
  stop_failed process_lookup_error = do unlink_pid; pure false
  stop_failed timeout_expired = do unlink_pid; pure false
  stop_failed e = throw e

  -- `stop_daemon` from the second check on
  unfoldable pub stop_pid : ℕ → ℕ → Option ℤ → Action World Bool
  stop_pid rounds timeout none = pure false
  stop_pid rounds timeout (some pid) = do
    alive ← process_exists pid
    if alive
        then try (do terminate rounds timeout pid; unlink_pid; pure true) stop_failed
        else (do unlink_pid; pure false)

  -- `stop_daemon`, with the timeout in ns
  unfoldable pub stop_daemon : ℕ → ℕ → Action World Bool
  stop_daemon rounds timeout = do pid ← read_daemon_pid; stop_pid rounds timeout pid

  -- `tail_daemon_log`
  unfoldable pub tail_daemon_log : ℤ → Action World String
  tail_daemon_log lines = do
    exists ← gets (λ s. env.log_exists s.now)
    if exists
        then try
            (do
              text ← call env.log_text read_log
              pure (join "\n" (tail_slice lines (splitlines text))))
            (λ e. if is_connection e then pure "" else throw e)
        else pure ""
