-- ===== src/Config/Persisted.antt =====
-- src/coda_node/server/config.py: `load_persisted_runtime_config` and `merge_persisted_runtime_config`,
-- over a snapshot of the file system. `json.loads` is a parameter.
use coda_self_service.Prelude.{
  ℕ, String, ◌<>◌, Bool, true, false, ◌&&◌, not, Option, none, some, List, [], ◌∷◌, lookup, insert,
  ◌==◌, if◌then◌else◌,
}
use coda_self_service.Prelude.Text.{is_blank, strip}
use coda_self_service.Values.{Value, null, str, strings, Dict, is_true}
use coda_self_service.Effects.{config_error, Result, ok, raise}
use coda_self_service.Effects.Results.{◌>>=◌}

pub record File : Type 0 where
  -- the permission bits, and the text
  pub mode : ℕ
  pub content : String

pub record Env : Type 0 where
  pub windows : Bool
  pub config_path : String
  pub private_key_path : String
  pub files : String → Option File
  -- `json.loads`; `none` is a document that is no object
  pub json_loads : String → Result (Option Dict)
  -- `str(value)`
  pub shown : Value → String

-- 0o600
abbrev pub owner_only : ℕ
owner_only = 384

-- the settings that are read back
abbrev pub persisted_keys : List String
persisted_keys =
    "qpu_id" ∷ "qpu_display_name" ∷ "native_gate_set" ∷ "num_qubits" ∷ "jwt_key_id" ∷ "redis_url"
    ∷ "webapp_url" ∷ "connect_path" ∷ "heartbeat_path" ∷ "webhook_path" ∷ "vpn_required"
    ∷ "vpn_check_interval_sec" ∷ "vpn_interface_hint" ∷ "vpn_probe_targets" ∷ "node_auto_vpn"
    ∷ "node_vpn_profile_path" ∷ "node_machine_fingerprint" ∷ []

-- `if key in source: persisted[key] = source[key]`
abbrev pub copy_key : String → Option Value → Dict → Dict
copy_key key none persisted = persisted
copy_key key (some value) persisted = insert key value persisted

unfoldable pub copy_keys : List String → Dict → Dict → Dict
copy_keys [] source persisted = persisted
copy_keys (key ∷ keys) source persisted =
    copy_keys keys source (copy_key key (lookup key source) persisted)

abbrev pub with_key : String → Dict → Dict
with_key private_key persisted =
    if is_blank private_key then persisted else insert "jwt_private_key" (str private_key) persisted

module _ (env : Env) where
  abbrev pub read_file : String → Option File → Result String
  read_file path none = ok ""
  read_file path (some file) =
      if not env.windows && not (file.mode == owner_only)
      then raise (config_error (path <> " must have permissions 0600"))
      else ok file.content

  -- `_read_secure_text`
  unfoldable pub read_secure_text : String → Result String
  read_secure_text path = read_file path (env.files path)

  -- `str(data.get("jwt_private_key_path") or PERSISTED_PRIVATE_KEY_PATH)`
  abbrev pub key_path : Option Value → String
  key_path none = env.private_key_path
  key_path (some (str path)) = if is_blank path then env.private_key_path else path
  key_path (some value) = if is_true value then env.shown value else env.private_key_path

  unfoldable pub read_object : Option Dict → Result Dict
  read_object none = raise (config_error (env.config_path <> " must contain a JSON object"))
  read_object (some dict) =
      read_secure_text (key_path (lookup "jwt_private_key_path" dict)) >>= λ private_key.
      ok (with_key private_key (copy_keys persisted_keys dict []))

  unfoldable pub read_config : Option File → Result Dict
  read_config none = ok []
  read_config (some _) = read_secure_text env.config_path >>= λ raw_config.
      if is_blank (strip raw_config) then ok [] else (env.json_loads raw_config >>= read_object)

  -- `load_persisted_runtime_config`
  unfoldable pub load_persisted_runtime_config : Result Dict
  load_persisted_runtime_config = read_config (env.files env.config_path)

-- `key not in merged or current in ("", None, [])`
abbrev pub is_unset : Option Value → Bool
is_unset none = true
is_unset (some null) = true
is_unset (some (str s)) = is_blank s
is_unset (some (strings [])) = true
is_unset (some _) = false

unfoldable pub merge : Dict → Dict → Dict
merge merged [] = merged
merge merged ((key, value) ∷ persisted) =
    merge (if is_unset (lookup key merged) then insert key value merged else merged) persisted

abbrev pub has_token : Option Value → Bool
has_token none = false
has_token (some value) = is_true value

-- `merge_persisted_runtime_config`, for a dictionary
unfoldable pub merge_persisted_runtime_config : Env → Dict → Result Dict
merge_persisted_runtime_config env dict =
    if has_token (lookup "node_token" dict)
    then ok dict
    else (load_persisted_runtime_config env >>= λ persisted. ok (merge dict persisted))
