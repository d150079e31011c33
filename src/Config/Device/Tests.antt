-- ===== src/Config/Device/Tests.antt =====
-- A device configuration that names its factory, and the theorems on it applied to it.
use coda_self_service.Prelude.{◌⊎◌, inl, inr, ◌≡◌, refl, String, true, some, [], ◌∷◌}
use coda_self_service.Prelude.Text.{chars}
use coda_self_service.Prelude.Lines.{splitlines}
use coda_self_service.Config.{Settings, default_settings}
use coda_self_service.Effects.{ok}
use coda_self_service.Config.Device.{
  Site, default_path, strip_inline_yaml_comment, load_executor_factory, apply_default_device_config,
  apply_device_config_executor_factory, check_jwt_or_node_token, validate_settings,
}
use coda_self_service.Config.Device.Factory.{load_executor_factory-quoted}
use coda_self_service.Config.Device.Credentials.{
  CanSign, Completes, FromOutside, Ends, validate_settings-Completes,
}

abbrev written : String
written =
    "target: cz\n  executor_factory: inner\nexecutor_factory: \"lab.run#2:make\" # ours\nqubits: 3\n"

abbrev lab : Site
lab = record { read_text = λ _. ok written; default_exists = ok true }

load_executor_factory-quoted_example : load_executor_factory lab default_path ≡ ok "lab.run#2:make"
unfolding splitlines
load_executor_factory-quoted_example =
    load_executor_factory-quoted lab default_path written
      ("target: cz" ∷ "  executor_factory: inner" ∷ []) ("qubits: 3" ∷ []) [] (chars " ")
      (chars "lab.run#2:make") (some (chars " ours")) refl refl
      (inr (λ h. cc h.0), (inl (inl refl), tt)) refl refl refl

abbrev keyed : Settings
keyed = record (default_settings "/tmp") { jwt_private_key = "key"; jwt_key_id = "q1" }

-- the default device configuration and its factory are filled in
keyed_filled :
    validate_settings lab keyed
    ≡ ok (record keyed { device_config = default_path; executor_factory = "lab.run#2:make" })
unfolding validate_settings apply_default_device_config apply_device_config_executor_factory
    check_jwt_or_node_token load_executor_factory splitlines strip_inline_yaml_comment
keyed_filled = refl

validate_settings-Completes_example :
    Ends
      (Completes lab keyed)
      (λ e. (¬ CanSign keyed) ⊎ FromOutside lab e)
      (validate_settings lab keyed)
validate_settings-Completes_example = validate_settings-Completes lab keyed
