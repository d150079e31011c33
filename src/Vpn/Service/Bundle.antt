-- ===== src/Vpn/Service/Bundle.antt =====
-- src/coda_node/vpn/service.py: `_as_str`, `_as_int` and `apply_node_bundle`.
pub mod Views
pub mod Credentials
use coda_self_service.Prelude.{
  ℕ, String, ◌<>◌, Bool, true, false, ◌&&◌, not, Option, none, some, List, [], ◌∷◌, lookup, is_some,
  if◌then◌else◌,
}
use coda_self_service.Prelude.Int.{ℤ, pos}
use coda_self_service.Prelude.Text.{is_blank}
use coda_self_service.Config.{Settings}
use coda_self_service.Effects.{
  Exc, node_error, value_error, Result, ok, raise, Action, pure, throw, lift, gets, ◌>>=◌, ◌>>◌,
  when,
}
use coda_self_service.Values.{Value, null, bool, int, str, strings, Dict, nonempty_str, is_true}
use coda_self_service.Vpn.Service.State.{NodeBundle, World, Env, update}
use coda_self_service.Vpn.Service.Daemon.{write_vpn_profile, start_openvpn, detect, wait_for_tunnel}

abbrev missing : String → Exc
missing key = node_error ("Node response missing valid '" <> key <> "'")

-- `_as_str`
unfoldable pub as_str : Dict → String → Result String
as_str dict key = elim (nonempty_str (lookup key dict)) [
  | none ↦ raise (missing key)
  | some s ↦ ok s
]

-- a Python bool is an int
abbrev pub int_of_value : Value → Option ℤ
int_of_value (int n) = some n
int_of_value (bool true) = some (pos 1)
int_of_value (bool false) = some (pos 0)
int_of_value _ = none

abbrev pub as_int_value : String → Value → Result ℤ
as_int_value key value = elim (int_of_value value) [
  | none ↦ raise (node_error ("Node response has invalid '" <> key <> "'"))
  | some n ↦ ok n
]

-- `_as_int`
unfoldable pub as_int : Dict → String → ℤ → Result ℤ
as_int dict key default = elim (lookup key dict) [
  | none ↦ ok default
  | some value ↦ as_int_value key value
]

abbrev pub value_or : Option Value → Value → Value
value_or none next = next
value_or (some value) next = if is_true value then value else next

-- `bundle.get("qpu_display_name") or bundle.get("qpu_label") or ""`, which must be a text
unfoldable pub display_name : Dict → Result String
display_name dict =
    elim (value_or (lookup "qpu_display_name" dict) (value_or (lookup "qpu_label" dict) (str ""))) [
      | str s ↦ ok s
      | _ ↦ raise (value_error "qpu_display_name")
    ]

-- a credential of the bundle, or else the one that is there
unfoldable pub credential : Dict → String → String → Result String
credential dict key current = elim (nonempty_str (lookup key dict)) [
  | some s ↦ ok s
  | none ↦ if is_blank current then raise (missing key) else ok current
]

abbrev pub path_or : Dict → String → String → String
path_or dict key current = elim (nonempty_str (lookup key dict)) [
  | none ↦ current
  | some path ↦ path
]

abbrev pub webapp_key : Dict → String
webapp_key dict = if is_some (lookup "webapp_url" dict) then "webapp_url" else "cloud_base_url"

abbrev pub bool_or : Option Value → Bool → Bool
bool_or (some (bool b)) current = b
bool_or _ current = current

abbrev pub hint_or : Option Value → Option String → Option String
hint_or none current = none
hint_or (some null) current = none
hint_or (some (str hint)) current = some hint
hint_or (some _) current = current

abbrev pub interval_or : Option Value → ℤ → ℤ
interval_or none current = current
interval_or (some value) current = elim (int_of_value value) [ none ↦ current | some n ↦ n ]

abbrev pub targets_or : Option Value → List String → List String
targets_or (some (strings (target ∷ targets))) current = target ∷ targets
targets_or _ current = current

-- the identity and the credentials of the bundle, field by field
unfoldable pub apply_credentials : Dict → Action World (Unit {0})
apply_credentials dict = do
  qpu_id ← lift (as_str dict "qpu_id")
  update (λ c. record c { qpu_id = qpu_id })
  name ← lift (display_name dict)
  update (λ c. record c { qpu_display_name = name })
  gate_set ← lift (as_str dict "native_gate_set")
  update (λ c. record c { native_gate_set = gate_set })
  old ← gets (λ s. s.settings)
  num_qubits ← lift (as_int dict "num_qubits" old.num_qubits)
  update (λ c. record c { num_qubits = num_qubits })
  key ← lift (credential dict "jwt_private_key" old.jwt_private_key)
  update (λ c. record c { jwt_private_key = key })
  key_id ← lift (credential dict "jwt_key_id" old.jwt_key_id)
  update (λ c. record c { jwt_key_id = key_id })

-- the URLs and paths of the bundle
unfoldable pub apply_urls : Dict → Action World (Unit {0})
apply_urls dict = do
  redis_url ← lift (as_str dict "redis_url")
  update (λ c. record c { redis_url = redis_url })
  webapp_url ← lift (as_str dict (webapp_key dict))
  update (λ c. record c { webapp_url = webapp_url })
  update (λ c. record c {
    connect_path = path_or dict "connect_path" c.connect_path;
    heartbeat_path = path_or dict "heartbeat_path" c.heartbeat_path;
    webhook_path = path_or dict "webhook_path" c.webhook_path;
  })

-- the settings of the VPN
unfoldable pub apply_vpn_settings : Dict → Action World (Unit {0})
apply_vpn_settings vpn = update (λ c. record c {
  vpn_required = bool_or (lookup "required" vpn) c.vpn_required;
  vpn_interface_hint = hint_or (lookup "interface_hint" vpn) c.vpn_interface_hint;
  vpn_check_interval_sec = interval_or (lookup "check_interval_sec" vpn) c.vpn_check_interval_sec;
  vpn_probe_targets = targets_or (lookup "probe_targets" vpn) c.vpn_probe_targets;
})

abbrev no_profile : Exc
no_profile = node_error (
    "VPN is required but node response did not include a VPN profile. "
    <> "Check VPN infrastructure status in the coda admin panel.")

module _ (env : Env) (rounds : ℕ) where
  -- `if iface is None: …`
  unfoldable pub bring_up : Option String → Settings → Action World (Unit {0})
  bring_up (some iface) settings = pure tt
  bring_up none settings = do
    start_openvpn env settings.node_vpn_profile_path
    wait_for_tunnel env rounds settings.vpn_interface_hint
    pure tt

  -- the profile of the bundle, when there is one
  unfoldable pub apply_profile : Option String → Settings → Action World (Unit {0})
  apply_profile none settings = when settings.vpn_required (throw no_profile)
  apply_profile (some profile) settings = when settings.node_auto_vpn (do
    write_vpn_profile env settings.node_vpn_profile_path profile
    iface ← detect env settings.vpn_interface_hint
    bring_up iface settings)

  unfoldable pub apply_vpn : Option Dict → Action World (Unit {0})
  apply_vpn none = pure tt
  apply_vpn (some vpn) = do
    apply_vpn_settings vpn
    settings ← gets (λ s. s.settings)
    apply_profile (nonempty_str (lookup "client_profile_ovpn" vpn)) settings

  -- `apply_node_bundle`
  unfoldable pub apply_node_bundle : NodeBundle → Action World (Unit {0})
  apply_node_bundle bundle = do
    apply_credentials bundle.fields
    apply_urls bundle.fields
    apply_vpn bundle.vpn
