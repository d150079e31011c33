-- ===== src/Vpn/Guard/Permissions.antt =====
-- src/coda_node/vpn/guard.py, `validate_key_permissions`. The file system is the parameter `KeyFiles`.
use coda_self_service.Prelude.{
  ◌≡◌, refl, ℕ, ◌%◌, String, Bool, true, false, ◌||◌, ◌==◌, if◌then◌else◌,
}
use coda_self_service.Effects.{file_not_found, is_connection, Result, ok, raise}
use coda_self_service.Effects.Results.{◌>>=◌}

pub record KeyFiles : Type 0 where
  -- `platform.system() == "Windows"`, `is_file()`, `stat().st_mode`
  pub windows : Bool
  pub is_file : String → Result Bool
  pub mode : String → Result ℕ

-- `mode & 0o777 in (0o600, 0o400)`
abbrev pub restrictive : ℕ → Bool
restrictive mode = mode % 512 == 384 || mode % 512 == 256

-- `except OSError`
abbrev false_on_os_error : Result Bool → Result Bool
false_on_os_error (ok b) = ok b
false_on_os_error (raise e) = if is_connection e then ok false else raise e

unfoldable pub validate_key_permissions : KeyFiles → String → Result Bool
validate_key_permissions files path = false_on_os_error (
    if files.windows
    then files.is_file path
    else (files.mode path >>= λ mode. ok (restrictive mode)))

-- 0o100600 and 0o100644
restrictive_runs : (restrictive 33152 ≡ true) × (restrictive 33188 ≡ false)
restrictive_runs = (refl, refl)

missing :
    validate_key_permissions
      (record { windows = false; is_file = λ _. ok false; mode = λ _. raise file_not_found })
      "key"
    ≡ ok false
unfolding validate_key_permissions
missing = refl
