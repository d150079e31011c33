-- ===== src/Cli/State.antt =====
-- src/coda_node/server/cli.py: the parsed arguments, what a command works on, and the calls that it makes.
use coda_self_service.Prelude.{
  ℕ, suc, String, ◌<>◌, Bool, Option, List, is_some, contains, str_eq, if◌then◌else◌,
}
use coda_self_service.Prelude.Int.{ℤ}
use coda_self_service.Values.{Dict}
use coda_self_service.Config.{Settings}
use coda_self_service.Effects.{Result, Action}
use coda_self_service.Daemon.State as Daemon
use coda_self_service.Vpn.Service.State as Service

pub data Command : Type 0 where
  start stop status doctor reset stop_vpn logs : Command

-- the `argparse.Namespace`; what a command does not have is none, and the number of lines is 50
pub record Arguments : Type 0 where
  pub reset_flag : Bool
  pub command : Option Command
  pub host : Option String
  pub port : Option ℤ
  pub node_token : Option String
  pub daemon : Bool
  pub lines : ℤ

-- how `main` ends
pub data Exit : Type 0 where
  returned : Exit
  system_exit : ℕ → Exit

pub record World : Type 0 where
  pub now : ℕ
  pub daemon : Daemon.World
  pub service : Service.World
  -- the other files that exist, of those that a command looks at
  pub files : List String
  -- `os.environ`
  pub environ : List (String × String)
  -- the lines on the screen, newest first
  pub printed : List String
  -- the addresses at which a server ran here
  pub served : List (String × ℤ)

pub record Env : Type 0 where
  -- `tempfile.gettempdir()`
  pub temp_dir : String
  -- `str(Path(value))`
  pub path : String → String
  pub daemon : Daemon.Env
  pub service : Service.Env
  -- the rounds of the wait for the exit of the daemon
  pub rounds : ℕ
  -- `Settings()` with the variables of the environment
  pub settings : ℕ → List (String × String) → Result Settings
  -- the text of the persisted configuration; `json.loads`, where `none` is a JSONDecodeError, and a document
  -- that is no object is none inside
  pub config_text : Result String
  pub json_loads : String → Option (Option Dict)
  -- whether the `exists` and the `unlink` of a path succeed
  pub stat : ℕ → String → Result (Unit {0})
  pub unlink : ℕ → String → Result (Unit {0})
  -- `uvicorn.run`
  pub serve : ℕ → String → ℤ → Result (Unit {0})

unfoldable pub call : {A : Type 0} → (ℕ → Result A) → Action World A
call ask s = (ask s.now, record s { now = suc s.now })

module _ (env : Env) where
  abbrev pub config_path : String
  config_path = env.temp_dir <> "/coda.config"

  abbrev pub private_key_path : String
  private_key_path = env.temp_dir <> "/coda-private-key"

  abbrev pub openvpn_pid_path : String
  openvpn_pid_path = env.temp_dir <> "/coda-node-openvpn.pid"

  abbrev pub openvpn_log_path : String
  openvpn_log_path = env.temp_dir <> "/coda-node-openvpn.log"

  abbrev pub daemon_pid_path : String
  daemon_pid_path = env.temp_dir <> "/coda-node.pid"

  abbrev pub daemon_log_path : String
  daemon_log_path = env.temp_dir <> "/coda-node.log"

  abbrev pub profile_path : String
  profile_path = env.temp_dir <> "/coda-node.ovpn"

  -- whether a path exists
  unfoldable pub present : World → String → Bool
  present s path =
      if str_eq daemon_pid_path path then is_some s.daemon.pid_file else contains s.files path
