-- ===== src/Cli.antt =====
-- src/coda_node/server/cli.py: `main` from the parsed arguments on, and its commands. argparse, pydantic and
-- uvicorn are outside.
pub mod State
pub mod Screen
pub mod Reset
pub mod Removal
pub mod Wiped
pub mod Listed
pub mod Stopped
pub mod Launched
pub mod Started
mod Tests
use coda_self_service.Prelude.{
  ℕ, String, ◌<>◌, Bool, true, false, not, Option, none, some, List, [], ◌∷◌, insert, lookup, ltb,
  ◌&&◌, suc, contains, if◌then◌else◌,
}
use coda_self_service.Prelude.Int.{ℤ}
use coda_self_service.Prelude.Text.{is_blank, str_int}
use coda_self_service.Config.{Settings, connect_url}
use coda_self_service.Effects.{
  Exc, runtime_error, is_exception, Result, ok, raise, Action, pure, throw, lift, gets, modify, try,
  finally, ◌>>=◌, ◌>>◌,
}
use coda_self_service.Values.{Value, int, is_true, Dict}
use coda_self_service.Daemon.State.{Event, closed_log}
use coda_self_service.Daemon.{
  is_daemon_running, daemon_status, start_daemon, stop_daemon, tail_daemon_log,
}
use coda_self_service.Vpn.Service.Daemon.{openvpn_binary, detect}
use coda_self_service.Cli.State.{
  Command, start, stop, status, doctor, reset, stop_vpn, logs, Arguments, Exit, returned,
  system_exit, World, Env, call, openvpn_pid_path, daemon_pid_path, daemon_log_path,
}
use coda_self_service.Cli.Screen.{print_line, print_lines, print_banner, print_status}
use coda_self_service.Cli.Reset.{
  exists, in_daemon, in_service, kill_openvpn, stop_timeout, reset_all,
}

-- `if value: environ[key] = value`
abbrev pub put_nonblank : String → Option String → List (String × String) → List (String × String)
put_nonblank key none environ = environ
put_nonblank key (some value) environ = if is_blank value then environ else insert key value environ

abbrev pub put_port : Option ℤ → List (String × String) → List (String × String)
put_port none environ = environ
put_port (some port) environ = insert "CODA_PORT" (str_int port) environ

-- `_apply_overrides`
unfoldable pub overridden : Arguments → List (String × String) → List (String × String)
overridden a environ =
    put_nonblank "CODA_NODE_TOKEN" a.node_token
      (put_port a.port (put_nonblank "CODA_HOST" a.host environ))

-- `_start_mode`
abbrev pub start_mode : String → String
start_mode token = if is_blank token then "env" else "token"

-- `value or default`
abbrev pub or_text : String → String → String
or_text value default = if is_blank value then default else value

abbrev pub or_option : Option String → String → String
or_option none default = default
or_option (some value) default = or_text value default

-- `settings.node_token or None`
abbrev pub token_of : String → Option String
token_of token = if is_blank token then none else some token

-- `str(status["pid"])`
abbrev pub shown_pid : Option Value → String
shown_pid (some (int pid)) = str_int pid
shown_pid _ = "None"

-- the same, and "-" for what counts as false
abbrev pub pid_or_dash : Option Value → String
pid_or_dash none = "-"
pid_or_dash (some value) = if is_true value then shown_pid (some value) else "-"

-- `status[key]`, for a truth value
abbrev pub flag : Option Value → Bool
flag none = false
flag (some value) = is_true value

abbrev pub closes : List Event → ℕ
closes [] = 0
closes (closed_log ∷ events) = suc (closes events)
closes (event ∷ events) = closes events

module _ (env : Env) where
  -- `daemon_status`
  unfoldable pub status_now : Action World Dict
  status_now = in_daemon env (λ d. daemon_status d (daemon_pid_path env) (daemon_log_path env))

  -- a start that has opened the log leaves one
  abbrev pub note_log : ℕ → World → World
  note_log before s =
      if ltb before (closes s.daemon.trace) && not (contains s.files (daemon_log_path env))
      then record s { files = daemon_log_path env ∷ s.files }
      else s

  unfoldable pub start_logged : Settings → Action World ℤ
  start_logged c = do
    before ← gets (λ s. closes s.daemon.trace)
    finally (in_daemon env (λ d. start_daemon d c.host c.port (token_of c.node_token)))
        (modify (note_log before))

  -- `except RuntimeError`
  abbrev pub start_failed : Exc → Action World Exit
  start_failed (runtime_error message) = do
    print_line ("  Failed to start daemon: " <> message)
    pure (system_exit 1)
  start_failed e = throw e

  abbrev pub start_rows : Settings → List (String × String)
  start_rows c =
      ("WEBAPP", c.webapp_url)
      ∷ ("ENDPOINT", c.host <> ":" <> str_int c.port)
      ∷ ("MODE", start_mode c.node_token)
      ∷ []

  unfoldable pub launch : Settings → Action World Exit
  launch c = do
    print_banner "C O D A  ·  D A E M O N" (start_rows c)
    try
        (do
          pid ← start_logged c
          print_lines (
              ("  Started daemon (PID " <> str_int pid <> ")")
              ∷ ("  Log file: " <> daemon_log_path env)
              ∷ ""
              ∷ "  Use 'coda stop' to stop the daemon"
              ∷ "  Use 'coda status' to check daemon status"
              ∷ "  Use 'coda logs' to view log output"
              ∷ [])
          pure returned)
        start_failed

  unfoldable pub launch_once : Settings → Action World Exit
  launch_once c = do
    running ← in_daemon env is_daemon_running
    if running
        then (do
          dict ← status_now
          print_line ("Daemon already running (PID " <> shown_pid (lookup "pid" dict) <> ")")
          pure (system_exit 1))
        else launch c

  unfoldable pub serve_here : Settings → Action World Exit
  serve_here c = do
    print_banner "C O D A  ·  N O D E" (start_rows c)
    modify (λ s. record s { served = (c.host, c.port) ∷ s.served })
    call (λ t. env.serve t c.host c.port)
    pure returned

  -- `Settings()`
  unfoldable pub load_settings : Action World Settings
  load_settings = do environ ← gets (λ s. s.environ); call (λ t. env.settings t environ)

  unfoldable pub run_start : Arguments → Action World Exit
  run_start a = do
    modify (λ s. record s { environ = overridden a s.environ })
    c ← load_settings
    if a.daemon then launch_once c else serve_here c

  unfoldable pub run_stop : Action World Exit
  run_stop = do
    running ← in_daemon env is_daemon_running
    if not running then (do print_line "No daemon is running"; pure (system_exit 1)) else (do
      dict ← status_now
      print_line ("Stopping daemon (PID " <> shown_pid (lookup "pid" dict) <> ")...")
      stopped ← in_daemon env (λ d. stop_daemon d env.rounds (stop_timeout env))
      if stopped
          then (do print_line "  Daemon stopped"; pure (system_exit 0))
          else (do print_line "  Failed to stop daemon"; pure (system_exit 1)))

  unfoldable pub find_interface : Settings → Action World (Option String)
  find_interface c = in_service env (λ v. detect v c.vpn_interface_hint)

  unfoldable pub show_interface : Action World (Unit {0})
  show_interface =
      try
        (do
          c ← load_settings
          iface ← find_interface c
          print_status "VPN IFACE" (or_option iface "not detected"))
        λ e. if is_exception e then print_status "VPN IFACE" "unknown" else throw e

  unfoldable pub run_status : Action World Exit
  run_status = do
    dict ← status_now
    print_banner "C O D A  ·  S T A T U S" (
        ("DAEMON", if flag (lookup "running" dict) then "running" else "stopped")
        ∷ ("PID", pid_or_dash (lookup "pid" dict))
        ∷ ("PID FILE", daemon_pid_path env)
        ∷ [])
    print_status "LOG FILE" (daemon_log_path env)
    print_status "LOG EXISTS" (if flag (lookup "log_exists" dict) then "yes" else "no")
    show_interface
    pure (system_exit (if flag (lookup "running" dict) then 0 else 1))

  unfoldable pub run_logs : ℤ → Action World Exit
  run_logs lines = do
    output ← in_daemon env (λ d. tail_daemon_log d lines)
    if is_blank output
        then (do print_line ("No log file found at " <> daemon_log_path env); pure (system_exit 1))
        else (do print_line output; pure (system_exit 0))

  -- `_doctor`
  unfoldable pub run_doctor : Action World Exit
  run_doctor = do
    c ← load_settings
    binary ← in_service env openvpn_binary
    iface ← find_interface c
    pid_exists ← exists env (openvpn_pid_path env)
    print_banner "C O D A  ·  D O C T O R" (
        ("WEBAPP", c.webapp_url)
        ∷ ("CONNECT", connect_url c)
        ∷ ("REDIS", or_text c.redis_url "not set")
        ∷ [])
    print_status "EXECUTOR" (or_text c.executor_factory "NoopExecutor")
    print_status "OPENVPN" (or_option binary "not found")
    print_status "VPN IFACE" (or_option iface "not detected")
    print_status "VPN PID" (if pid_exists then "present" else "absent")
    pure (system_exit 0)

  unfoldable pub run_stop_vpn : Action World Exit
  run_stop_vpn = do
    killed ← kill_openvpn env
    print_line "Stopping Coda VPN service..."
    print_line
        (if killed then "  ✓ Stopped managed OpenVPN daemon" else "  No managed VPN process found")
    pure (system_exit (if killed then 0 else 1))

  unfoldable pub run_reset : Action World Exit
  run_reset = do code ← reset_all env; pure (system_exit code)

  -- `parser.error` exits with 2
  abbrev pub dispatch : Arguments → Option Command → Action World Exit
  dispatch a none = pure (system_exit 2)
  dispatch a (some start) = run_start a
  dispatch a (some stop) = run_stop
  dispatch a (some status) = run_status
  dispatch a (some doctor) = run_doctor
  dispatch a (some reset) = run_reset
  dispatch a (some stop_vpn) = run_stop_vpn
  dispatch a (some logs) = run_logs a.lines

  unfoldable pub main : Arguments → Action World Exit
  main a = if a.reset_flag then run_reset else dispatch a a.command
