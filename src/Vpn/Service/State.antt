-- ===== src/Vpn/Service/State.antt =====
-- src/coda_node/vpn/service.py: the settings that provisioning changes, the calls that it makes and what
-- they give. HTTP, files, processes, the clock and the executor are the parameter `Env`.
use coda_self_service.Prelude.{ℕ, suc, String, Bool, Option, List, ◌∷◌}
use coda_self_service.Prelude.Int.{ℤ}
use coda_self_service.Values.{Dict}
use coda_self_service.Config.{Settings}
use coda_self_service.Effects.{Exc, Result, Action, modify}
use coda_self_service.Vpn.Interfaces.{Platform, Command, Output, JsonDocument}

-- the response to a connect request; `vpn` is the value of that key, when it is an object
pub record NodeBundle : Type 0 where
  pub fields : Dict
  pub vpn : Option Dict

pub record Reply : Type 0 where
  pub status_code : ℕ
  pub text : String
  pub json : Result NodeBundle

pub record DaemonResult : Type 0 where
  pub returncode : ℤ
  pub stderr : String

pub data Event : Type 0 where
  posted : String → String → Event
  slept : ℕ → Event
  ran : Command → Event
  wrote : String → String → Event
  made_dir restricted : String → Event
  opened_log read_log read_pid unlinked_pid loaded_executor : Event
  started : String → Event
  signalled : ℤ → Event

pub record World : Type 0 where
  pub now : ℕ
  pub trace : List Event
  pub settings : Settings

pub record Env : Type 0 where
  -- `os.name == "nt"`, `platform.system()`, `json.loads`, `subprocess.run` of the detection
  pub windows : Bool
  pub system : Platform
  pub json_loads : String → Option JsonDocument
  pub run : ℕ → Command → Result Output
  -- hostname and MAC address; the connectivity that the executor reports
  pub machine_fingerprint : String
  pub connectivity : ℕ → Result (Option (List (List ℤ)))
  -- the POST of a URL with an authorization, `sign_token`, `str(exc)`
  pub post : ℕ → String → String → Result Reply
  pub token : ℕ → Result String
  pub message : Exc → String
  -- files; the paths of the private key, the configuration, the pid file and the log are constants
  pub private_key_path : String
  pub config_path : String
  pub pid_path : String
  pub parent : String → String
  pub mkdir : ℕ → String → Result (Unit {0})
  pub write_text : ℕ → String → String → Result (Unit {0})
  pub chmod : ℕ → String → Result (Unit {0})
  pub path_exists : ℕ → String → Bool
  pub json_dumps : Dict → String
  pub open_log : ℕ → Result (Unit {0})
  pub log_text : ℕ → Result String
  pub pid_text : ℕ → Result String
  pub unlink : ℕ → Result (Unit {0})
  -- `shutil.which`, the two ways to start the daemon, and the two ways to end it
  pub which : ℕ → String → Option String
  pub run_daemon : ℕ → String → Result DaemonResult
  pub popen : ℕ → String → Result ℤ
  pub kill : ℕ → ℤ → Result (Unit {0})
  -- the clock in ns, and `asyncio.sleep`
  pub monotonic : ℕ → ℕ
  pub sleep : ℕ → Result (Unit {0})

unfoldable pub call : {A : Type 0} → (ℕ → Result A) → Event → Action World A
call ask note s = (ask s.now, record s { now = suc s.now; trace = note ∷ s.trace })

-- `settings.field = …`
unfoldable pub update : (Settings → Settings) → Action World (Unit {0})
update f = modify (λ s. record s { settings = f s.settings })
