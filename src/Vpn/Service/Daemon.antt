-- ===== src/Vpn/Service/Daemon.antt =====
-- src/coda_node/vpn/service.py: the files that provisioning writes, and the OpenVPN daemon: its start,
-- the wait for its tunnel, and its end.
pub mod Waiting
pub mod Restored
use coda_self_service.Prelude.{
  ℕ, zero, suc, ◌+◌, ◌*◌, ◌^◌, String, ◌<>◌, Bool, true, false, not, Option, none, some, List, [],
  ◌∷◌, length, ltb, if◌then◌else◌,
}
use coda_self_service.Prelude.Int.{ℤ, pos, eq_int}
use coda_self_service.Prelude.Text.{is_blank, strip, str_int, int_of}
use coda_self_service.Prelude.Lines.{splitlines, join}
use coda_self_service.Config.{Settings}
use coda_self_service.Effects.{
  Exc, permission_error, process_lookup_error, timeout_expired, value_error, node_error,
  runtime_error, is_connection, Result, ok, raise, Action, pure, throw, lift, gets, try, ◌>>=◌,
  ◌>>◌, when,
}
use coda_self_service.Vpn.Interfaces.{detect_tun_interface}
use coda_self_service.Vpn.Profile.{validate_vpn_profile, with_reneg}
use coda_self_service.Values.{Value, bool, int, str, strings, null, Dict}
use coda_self_service.Vpn.Service.State.{
  slept, ran, wrote, made_dir, restricted, opened_log, read_log, read_pid, unlinked_pid, started,
  signalled, World, Env, call,
}

abbrev hint_value : Option String → Value
hint_value none = null
hint_value (some hint) = str hint

-- the last lines of a list
abbrev pub last_lines : ℕ → List String → List String
last_lines n [] = []
last_lines n (line ∷ lines) =
    let rest = last_lines n lines in if ltb n (length (line ∷ lines)) then rest else line ∷ lines

-- the error of a daemon that did not start
abbrev pub start_failure : String → Exc
start_failure stderr = node_error (
    "Failed to start OpenVPN: "
    <> (if is_blank (strip stderr) then "unknown openvpn error" else strip stderr))

module _ (env : Env) where
  -- `_write_secure_text`
  unfoldable pub write_secure_text : String → String → Action World (Unit {0})
  write_secure_text path content = do
    call (λ t. env.mkdir t (env.parent path)) (made_dir (env.parent path))
    call (λ t. env.write_text t path content) (wrote path content)
    when (not env.windows) (call (λ t. env.chmod t path) (restricted path))

  -- `_write_vpn_profile`
  unfoldable pub write_vpn_profile : String → String → Action World (Unit {0})
  write_vpn_profile path profile = do
    lift (validate_vpn_profile profile)
    call (λ t. env.mkdir t (env.parent path)) (made_dir (env.parent path))
    write_secure_text path (with_reneg profile)

  -- the dictionary that `_persist_runtime_config` writes
  unfoldable pub persisted : Settings → Dict
  persisted c =
      ("qpu_id", str c.qpu_id)
      ∷ ("qpu_display_name", str c.qpu_display_name)
      ∷ ("native_gate_set", str c.native_gate_set)
      ∷ ("num_qubits", int c.num_qubits)
      ∷ ("jwt_key_id", str c.jwt_key_id)
      ∷ ("jwt_private_key_path", str env.private_key_path)
      ∷ ("redis_url", str c.redis_url)
      ∷ ("webapp_url", str c.webapp_url)
      ∷ ("connect_path", str c.connect_path)
      ∷ ("heartbeat_path", str c.heartbeat_path)
      ∷ ("webhook_path", str c.webhook_path)
      ∷ ("vpn_required", bool c.vpn_required)
      ∷ ("vpn_check_interval_sec", int c.vpn_check_interval_sec)
      ∷ ("vpn_interface_hint", hint_value c.vpn_interface_hint)
      ∷ ("vpn_probe_targets", strings c.vpn_probe_targets)
      ∷ ("node_auto_vpn", bool c.node_auto_vpn)
      ∷ ("node_vpn_profile_path", str c.node_vpn_profile_path)
      ∷ ("node_machine_fingerprint", str c.node_machine_fingerprint)
      ∷ []

  -- `_persist_runtime_config`
  unfoldable pub persist_runtime_config : Action World (Unit {0})
  persist_runtime_config = do
    settings ← gets (λ s. s.settings)
    write_secure_text env.private_key_path settings.jwt_private_key
    write_secure_text env.config_path (env.json_dumps (persisted settings) <> "\n")

  abbrev pub or_which : Option String → Option String → Option String
  or_which none other = other
  or_which (some path) other = if is_blank path then other else some path

  -- `_openvpn_binary`
  unfoldable pub openvpn_binary : Action World (Option String)
  openvpn_binary = gets (λ s. or_which (env.which s.now "openvpn") (env.which s.now "openvpn.exe"))

  unfoldable pub start_with : String → Option String → Action World (Unit {0})
  start_with profile_path none =
      throw (node_error "openvpn binary not found. Install OpenVPN or disable node auto VPN.")
  start_with profile_path (some binary) =
      if env.windows
      then (do
        call env.open_log opened_log
        pid ← call (λ t. env.popen t profile_path) (started profile_path)
        call (λ t. env.write_text t env.pid_path (str_int pid <> "\n"))
            (wrote env.pid_path (str_int pid <> "\n")))
      else (do
        result ← call (λ t. env.run_daemon t profile_path) (started profile_path)
        when (not (eq_int result.returncode (pos 0))) (throw (start_failure result.stderr)))

  -- `_start_openvpn`
  unfoldable pub start_openvpn : String → Action World (Unit {0})
  start_openvpn profile_path = do binary ← openvpn_binary; start_with profile_path binary

  -- `_read_openvpn_log_tail`
  unfoldable pub read_openvpn_log_tail : ℕ → Action World String
  read_openvpn_log_tail max_lines =
      try
        (do
          text ← call env.log_text read_log
          pure (join "\n" (last_lines max_lines (splitlines text))))
        λ e. if is_connection e then pure "" else throw e

  unfoldable pub unlink_pid : Action World (Unit {0})
  unlink_pid = call env.unlink unlinked_pid

  -- `except (PermissionError, ProcessLookupError, ValueError, subprocess.TimeoutExpired)`
  abbrev pub kill_failed : Exc → Action World Bool
  kill_failed permission_error = do unlink_pid; pure false
  kill_failed process_lookup_error = do unlink_pid; pure false
  kill_failed (value_error _) = do unlink_pid; pure false
  kill_failed timeout_expired = do unlink_pid; pure false
  kill_failed e = throw e

  abbrev pub pid_of : String → Result ℤ
  pid_of text = elim (int_of text) [
    | none ↦ raise (value_error "invalid literal for int()")
    | some pid ↦ ok pid
  ]

  -- the `try` of `kill_openvpn_daemon`
  unfoldable pub signal_daemon : Action World Bool
  signal_daemon = do
    text ← call env.pid_text read_pid
    pid ← lift (pid_of (strip text))
    call (λ t. env.kill t pid) (signalled pid)
    unlink_pid
    pure true

  -- `kill_openvpn_daemon`
  unfoldable pub kill_openvpn_daemon : Action World Bool
  kill_openvpn_daemon = do
    exists ← gets (λ s. env.path_exists s.now env.pid_path)
    if exists then try signal_daemon kill_failed else pure false

  unfoldable pub detect : Option String → Action World (Option String)
  detect hint =
      detect_tun_interface env.system env.json_loads
        (λ command. call (λ t. env.run t command) (ran command)) hint

  unfoldable pub give_up : Action World String
  give_up = do
    detail ← read_openvpn_log_tail 20
    kill_openvpn_daemon
    throw (
        node_error (
          "OpenVPN daemon started but no VPN tunnel interface appeared within 30.0s. "
          <> "Check firewall rules and VPN endpoint connectivity."
          <> (if is_blank detail then "" else "\nOpenVPN log tail:\n" <> detail)))

  -- The `while` loop on a number of rounds; after the last of them RuntimeError stands for a loop that
  -- goes on.
  unfoldable pub poll_tunnel : ℕ → ℕ → Option String → Action World String
  poll_tunnel zero deadline hint = throw (runtime_error "still waiting")
  poll_tunnel (suc rounds) deadline hint = do
    now ← gets (λ s. env.monotonic s.now)
    if ltb now deadline
        then (do
          iface ← detect hint
          elim iface [
            | some name ↦ pure name
            | none ↦ (do call env.sleep (slept 1); poll_tunnel rounds deadline hint)
          ])
        else give_up

  -- `_wait_for_tunnel`, with its default timeout of 30 s
  unfoldable pub wait_for_tunnel : ℕ → Option String → Action World String
  wait_for_tunnel rounds hint = do
    now ← gets (λ s. env.monotonic s.now)
    poll_tunnel rounds (now + 30 * 10 ^ 9) hint
