-- ===== src/Config.antt =====
-- src/coda_node/server/config.py, Settings: its fields and the URLs made of them. Pydantic's reading of
-- the environment and its checks at an assignment are not modelled.
pub mod Persisted
pub mod Precedence
pub mod Device
mod Tests
use coda_self_service.Prelude.{
  String, ◌<>◌, Bool, true, false, Option, none, List, [], ◌∷◌, is_empty, if◌then◌else◌,
}
use coda_self_service.Prelude.Int.{ℤ, pos}

pub record Settings : Type 0 where
  pub qpu_id : String
  pub qpu_display_name : String
  pub native_gate_set : String
  pub num_qubits : ℤ
  pub redis_url : String
  pub jwt_private_key : String
  pub jwt_key_id : String
  pub webapp_url : String
  pub webhook_path : String
  pub connect_path : String
  pub heartbeat_path : String
  pub host : String
  pub port : ℤ
  pub vpn_required : Bool
  pub vpn_check_interval_sec : ℤ
  pub vpn_probe_targets : List String
  pub vpn_interface_hint : Option String
  pub allow_degraded_startup : Bool
  pub node_token : String
  pub node_timeout_sec : ℤ
  pub node_machine_fingerprint : String
  pub node_auto_vpn : Bool
  pub node_vpn_profile_path : String
  pub node_connect_headers : List (String × String)
  pub node_connect_retries : ℤ
  pub shutdown_drain_timeout_sec : ℤ
  pub heartbeat_interval_sec : ℤ
  pub executor_factory : String
  pub device_config : String
  pub advertised_provider : String

-- the defaults; the argument is `tempfile.gettempdir()`
abbrev pub default_settings : String → Settings
default_settings temp_dir = record {
  qpu_id = "";
  qpu_display_name = "";
  native_gate_set = "cz";
  num_qubits = pos 5;
  redis_url = "";
  jwt_private_key = "";
  jwt_key_id = "";
  webapp_url = "https://coda.conductorquantum.com";
  webhook_path = "/api/internal/qpu/webhook";
  connect_path = "/api/internal/qpu/connect";
  heartbeat_path = "/api/internal/qpu/heartbeat";
  host = "0.0.0.0";
  port = pos 8080;
  vpn_required = true;
  vpn_check_interval_sec = pos 10;
  vpn_probe_targets = [];
  vpn_interface_hint = none;
  allow_degraded_startup = false;
  node_token = "";
  node_timeout_sec = pos 15;
  node_machine_fingerprint = "";
  node_auto_vpn = true;
  node_vpn_profile_path = temp_dir <> "/coda-node.ovpn";
  node_connect_headers = [];
  node_connect_retries = pos 3;
  shutdown_drain_timeout_sec = pos 30;
  heartbeat_interval_sec = pos 30;
  executor_factory = "";
  device_config = "";
  advertised_provider = "coda";
}

abbrev pub callback_url : Settings → String
callback_url s = s.webapp_url <> s.webhook_path

abbrev pub connect_url : Settings → String
connect_url s = s.webapp_url <> s.connect_path

abbrev pub heartbeat_url : Settings → String
heartbeat_url s = s.webapp_url <> s.heartbeat_path

abbrev pub vpn_probe_urls : Settings → List String
vpn_probe_urls s =
    if is_empty s.vpn_probe_targets
    then (if s.vpn_required then (s.webapp_url <> "/api/internal/qpu/health") ∷ [] else [])
    else s.vpn_probe_targets
