-- ===== src/Vpn/Guard/State.antt =====
-- src/coda_node/vpn/guard.py: ServiceState, the results of the checks, the fields of VPNGuard and the
-- outside.
use coda_self_service.Prelude.{ℕ, suc, String, Bool, Option, List, ◌∷◌}
use coda_self_service.Ir.{Float}
use coda_self_service.Effects.{Exc, Result, Action, modify}
use coda_self_service.Vpn.Interfaces.{Platform, Command, Output, JsonDocument}

pub data ServiceState : Type 0 where
  booting vpn_unavailable ready degraded : ServiceState

pub record ProbeResult : Type 0 where
  pub target : String
  pub ok : Bool
  pub latency_ms : Option Float
  pub error : Option String

pub record VpnStatus : Type 0 where
  pub ok : Bool
  pub interface_found : Bool
  pub probes : List ProbeResult
  pub reason : String

-- the calls to the outside; `changed` is a call of `on_change`
pub data Event : Type 0 where
  ran : Command → Event
  looked_up probed : String → Event
  slept : ℕ → Event
  changed : ServiceState → Event

pub record World : Type 0 where
  pub now : ℕ
  pub trace : List Event
  pub state : ServiceState
  pub running : Bool

pub record Env : Type 0 where
  -- the arguments of the constructor
  pub probe_targets : List String
  pub interface_hint : Option String
  pub check_interval_sec : ℕ
  pub vpn_required : Bool
  -- `platform.system()`, `json.loads`, `subprocess.run`
  pub system : Platform
  pub json_loads : String → Option JsonDocument
  pub run : ℕ → Command → Result Output
  -- `urlparse(target).hostname`, `socket.getaddrinfo`, and the status code of an HTTP HEAD
  pub hostname : String → Result (Option String)
  pub getaddrinfo : ℕ → String → Result (Unit {0})
  pub head : ℕ → String → Result ℕ
  -- the milliseconds that a probe took, `str(exc)`
  pub latency : ℕ → Float
  pub message : Exc → String
  -- `asyncio.sleep`, the callback of `watch`, and whether `stop` has been called by then
  pub sleep : ℕ → Result (Unit {0})
  pub on_change : Option (ℕ → ServiceState → Result (Unit {0}))
  pub stopped : ℕ → Bool

-- a call to the outside
unfoldable pub call : {A : Type 0} → (ℕ → Result A) → Event → Action World A
call ask note s = (ask s.now, record s { now = suc s.now; trace = note ∷ s.trace })

unfoldable pub set_state : ServiceState → Action World (Unit {0})
set_state state = modify (λ s. record s { state = state })
