-- ===== src/Cli/Reset.antt =====
-- src/coda_node/server/cli.py: `_read_reset_paths` and `_reset`. A path is its text; paths are sorted by their
-- parts.
use Prim.Native.String.{compare}
use text.Mathlib.Text.{is_lt}
use coda_self_service.Prelude.{
  ◌≡◌, refl, ℕ, String, ◌<>◌, Bool, true, false, Option, none, some, List, [], ◌∷◌, str_eq, lookup,
  if◌then◌else◌,
}
use coda_self_service.Prelude.Lines.{split_at}
use coda_self_service.Values.{Dict, nonempty_str}
use coda_self_service.Effects.{
  is_connection, Result, ok, raise, Action, pure, lift, gets, modify, ◌>>=◌, ◌>>◌,
}
use coda_self_service.Effects.Parts.{within}
use coda_self_service.Daemon.{stop_daemon}
use coda_self_service.Daemon.State as Daemon
use coda_self_service.Vpn.Service.State as Service
use coda_self_service.Vpn.Service.Daemon.{kill_openvpn_daemon}
use coda_self_service.Prelude.{contains, ◌++◌, ◌*◌, ◌^◌}
use coda_self_service.Cli.State.{
  World, Env, call, present, config_path, private_key_path, openvpn_pid_path, openvpn_log_path,
  daemon_pid_path, daemon_log_path, profile_path,
}
use coda_self_service.Cli.Screen.{print_line}

-- `<` of the parts
abbrev pub parts_before : List String → List String → Bool
parts_before [] [] = false
parts_before [] (y ∷ ys) = true
parts_before (x ∷ xs) [] = false
parts_before (x ∷ xs) (y ∷ ys) =
    let rest = parts_before xs ys in if str_eq x y then rest else is_lt (compare x y)

abbrev pub before : String → String → Bool
before a b = parts_before (split_at "/" a) (split_at "/" b)

-- a path joins the sorted set
abbrev pub add_path : String → List String → List String
add_path p [] = p ∷ []
add_path p (q ∷ qs) =
    let rest = add_path p qs in
    if str_eq p q then q ∷ qs else if before p q then p ∷ q ∷ qs else q ∷ rest

abbrev pub sorted : List String → List String
sorted [] = []
sorted (p ∷ ps) = add_path p (sorted ps)

abbrev pub without : String → List String → List String
without p [] = []
without p (q ∷ qs) = let rest = without p qs in if str_eq q p then rest else q ∷ rest

module _ (env : Env) where
  abbrev pub fixed_paths : List String
  fixed_paths =
      config_path env
      ∷ private_key_path env
      ∷ openvpn_pid_path env
      ∷ openvpn_log_path env
      ∷ daemon_pid_path env
      ∷ daemon_log_path env
      ∷ profile_path env
      ∷ []

  abbrev pub configured : Option String → List String
  configured none = []
  configured (some value) = env.path value ∷ []

  -- of a document
  abbrev pub paths_in : Option Dict → List String
  paths_in none = []
  paths_in (some dict) =
      configured (nonempty_str (lookup "jwt_private_key_path" dict))
      ++ configured (nonempty_str (lookup "node_vpn_profile_path" dict))

  -- a text that is no JSON counts as an empty object
  abbrev pub decoded : Option (Option Dict) → List String
  decoded none = []
  decoded (some document) = paths_in document

  -- `except OSError`
  abbrev pub configured_in : Result String → Result (List String)
  configured_in (ok text) = ok (decoded (env.json_loads text))
  configured_in (raise e) = if is_connection e then ok [] else raise e

  abbrev pub with_fixed : Result (List String) → Result (List String)
  with_fixed (ok more) = ok (sorted (fixed_paths ++ more))
  with_fixed (raise e) = raise e

  -- `_read_reset_paths`, by whether there is a persisted configuration
  unfoldable pub read_reset_paths : Bool → Result (List String)
  read_reset_paths exists = with_fixed (if exists then configured_in env.config_text else ok [])

  -- `path.exists()`
  unfoldable pub exists : String → Action World Bool
  exists path = do call (λ t. env.stat t path); gets (λ s. present env s path)

  abbrev pub forget : String → World → World
  forget path s =
      if str_eq (daemon_pid_path env) path
      then record s { daemon = record s.daemon { pid_file = none } }
      else record s { files = without path s.files }

  -- `path.unlink()`
  unfoldable pub unlink : String → Action World (Unit {0})
  unlink path = do call (λ t. env.unlink t path); modify (forget path)

  abbrev pub daemon_env : World → Daemon.Env
  daemon_env s = record env.daemon {
    environ = s.environ;
    log_exists = λ _. contains s.files (daemon_log_path env);
  }

  -- a function of daemon.py
  unfoldable pub in_daemon : {A : Type 0} → (Daemon.Env → Action Daemon.World A) → Action World A
  in_daemon m = do
    given ← gets daemon_env
    within (λ s. s.daemon) (λ v s. record s { daemon = v }) (m given)

  abbrev pub service_env : World → Service.Env
  service_env s = record env.service {
    pid_path = openvpn_pid_path env;
    path_exists = λ _. contains s.files;
  }

  -- a function of service.py or guard.py
  unfoldable pub in_service : {A : Type 0} → (Service.Env → Action Service.World A) → Action World A
  in_service m = do
    given ← gets service_env
    within (λ s. s.service) (λ v s. record s { service = v }) (m given)

  -- `kill_openvpn_daemon`. Where it returns, its pid file did not exist or has been removed.
  unfoldable pub kill_openvpn : Action World Bool
  kill_openvpn = do
    killed ← in_service kill_openvpn_daemon
    modify (λ s. record s { files = without (openvpn_pid_path env) s.files })
    pure killed

  -- the timeout of `stop_daemon`, 10 s
  abbrev pub stop_timeout : ℕ
  stop_timeout = 10 * 10 ^ 9

  -- the body of the loop: whether a file has been removed so far
  unfoldable pub remove : String → Bool → Action World Bool
  remove path removed_any = do
    found ← exists path
    if found
        then (do unlink path; print_line ("  ✓ Removed " <> path); pure true)
        else (do print_line ("  - Not found " <> path); pure removed_any)

  unfoldable pub remove_each : List String → Bool → Action World Bool
  remove_each [] removed_any = pure removed_any
  remove_each (path ∷ paths) removed_any = do
    removed ← remove path removed_any
    remove_each paths removed

  -- `_reset`
  unfoldable pub reset_all : Action World ℕ
  reset_all = do
    print_line "Resetting persisted Coda runtime state..."
    stopped ← in_daemon (λ d. stop_daemon d env.rounds stop_timeout)
    print_line (if stopped then "  Stopped Coda daemon" else "  No Coda daemon running")
    killed ← kill_openvpn
    print_line
        (if killed then "  Stopped managed OpenVPN daemon" else "  No managed VPN process found")
    configured ← exists (config_path env)
    paths ← lift (read_reset_paths configured)
    removed_any ← remove_each paths false
    (if removed_any then pure tt else print_line "  No persisted runtime files found")
    pure 0

sorted_runs :
    sorted ("/tmp/b" ∷ "/tmp/a/z" ∷ "/tmp/b" ∷ "/a" ∷ []) ≡ "/a" ∷ "/tmp/a/z" ∷ "/tmp/b" ∷ []
unfolding split_at
sorted_runs = refl
