-- ===== src/Config/Device.antt =====
-- src/coda_node/server/config.py: the executor factory in the device configuration, and the validators of
-- Settings that run after its fields are read. The file system is the parameter `Site`. White space is
-- that of ASCII.
pub mod Factory
pub mod Credentials
mod Tests
use Prim.Native.Char.{Char, code}
use coda_self_service.Prelude.{
  ◌≡◌, refl, String, Bool, true, false, ◌&&◌, ◌||◌, not, Option, none, some, List, [], ◌∷◌, ◌==◌,
  if◌then◌else◌,
}
use coda_self_service.Prelude.Text.{
  chars, text, literal, drop_spaces, rstrip_chars, strip_chars, is_blank,
}
use coda_self_service.Prelude.Lines.{splitlines}
use coda_self_service.Config.{Settings}
use coda_self_service.Effects.{Exc, value_error, is_connection, Result, ok, raise}
use coda_self_service.Effects.Results.{◌>>=◌}

abbrev pub flip_if : Bool → Bool → Bool
flip_if b flag = if b then not flag else flag

abbrev pub prefixed : Char → Option (List Char) → Option (List Char)
prefixed c none = none
prefixed c (some cs) = some (c ∷ cs)

-- What stands before the comment, if there is one. The flags say that an apostrophe or a quotation mark
-- is open.
abbrev pub before_comment : Bool → Bool → List Char → Option (List Char)
before_comment in_single in_double [] = none
before_comment in_single in_double (c ∷ cs) =
    let rest =
      before_comment (flip_if (code c == 39 && not in_double) in_single)
        (flip_if (code c == 34 && not in_single) in_double) cs in
    if code c == 35 && not in_single && not in_double then some [] else prefixed c rest

abbrev stripped : List Char → Option (List Char) → List Char
stripped value none = strip_chars value
stripped value (some cs) = rstrip_chars cs

-- `_strip_inline_yaml_comment`
unfoldable pub strip_inline_yaml_comment : List Char → List Char
strip_inline_yaml_comment value = stripped value (before_comment false false value)

abbrev pub final_char : Char → List Char → Char
final_char c [] = c
final_char c (d ∷ cs) = final_char d cs

abbrev pub without_last : Char → List Char → List Char
without_last c [] = []
without_last c (d ∷ cs) = c ∷ without_last d cs

-- a value in quotes of one kind without them
abbrev pub unquote : List Char → List Char
unquote [] = []
unquote (c ∷ []) = c ∷ []
unquote (c ∷ d ∷ cs) =
    if code c == code (final_char d cs) && (code c == 39 || code c == 34)
    then without_last d cs
    else c ∷ d ∷ cs

abbrev pub nonblank : List Char → Option (List Char)
nonblank [] = none
nonblank (c ∷ cs) = some (c ∷ cs)

abbrev pub after_colon : Option (List Char) → Option (List Char)
after_colon none = none
after_colon (some cs) = nonblank (rstrip_chars (drop_spaces cs))

abbrev after_key : Option (List Char) → Option (List Char)
after_key none = none
after_key (some cs) = after_colon (literal (chars ":") (drop_spaces cs))

-- the group of `_EXECUTOR_FACTORY_RE.match`
abbrev pub factory_value : List Char → Option (List Char)
factory_value cs = after_key (literal (chars "executor_factory") cs)

abbrev pub starts_indented : List Char → Bool
starts_indented [] = false
starts_indented (c ∷ cs) = code c == 32 || code c == 9

-- the value of a line that sets the factory
abbrev pub chars_value : List Char → Option (List Char)
chars_value line = if starts_indented line then none else factory_value (strip_chars line)

abbrev pub line_value : String → Option (List Char)
line_value line = chars_value (chars line)

abbrev pub or_next : Option (List Char) → String → String
or_next none rest = rest
or_next (some value) rest = text (strip_chars (unquote (strip_inline_yaml_comment value)))

abbrev pub first_factory : List String → String
first_factory [] = ""
first_factory (line ∷ lines) = or_next (line_value line) (first_factory lines)

abbrev pub factory_in : Result String → Result String
factory_in (ok content) = ok (first_factory (splitlines content))
factory_in (raise e) = if is_connection e then ok "" else raise e

pub record Site : Type 0 where
  -- `Path(path).read_text()`, and `exists()` of the default device configuration
  pub read_text : String → Result String
  pub default_exists : Result Bool

abbrev pub default_path : String
default_path = "site/device.yaml"

module _ (site : Site) where
  -- `_load_executor_factory_from_device_config`
  unfoldable pub load_executor_factory : String → Result String
  load_executor_factory path = factory_in (site.read_text path)

  unfoldable pub apply_default_device_config : Settings → Result Settings
  apply_default_device_config s =
      if is_blank s.device_config
      then site.default_exists
        >>= (λ exists. ok (if exists then record s { device_config = default_path } else s))
      else ok s

  unfoldable pub apply_device_config_executor_factory : Settings → Result Settings
  apply_device_config_executor_factory s =
      if not (is_blank s.executor_factory) || is_blank s.device_config
      then ok s
      else load_executor_factory s.device_config >>= (λ resolved.
        ok (if is_blank resolved then s else record s { executor_factory = resolved }))

  unfoldable pub check_jwt_or_node_token : Settings → Result Settings
  check_jwt_or_node_token s =
      if not (is_blank s.node_token)
      then ok s
      else if is_blank s.jwt_private_key
      then raise (
          value_error
            "CODA_JWT_PRIVATE_KEY must be set (or provide CODA_NODE_TOKEN for auto-provisioning)")
      else if is_blank s.jwt_key_id
      then raise (
          value_error
            "CODA_JWT_KEY_ID must be set (or provide CODA_NODE_TOKEN for auto-provisioning)")
      else ok s

  -- the validators with `mode="after"`, in the order of the class
  unfoldable pub validate_settings : Settings → Result Settings
  validate_settings s =
      apply_default_device_config s
      >>= apply_device_config_executor_factory
      >>= check_jwt_or_node_token

first_factory_runs :
    first_factory (
      " executor_factory: no" ∷ "executor_factory : 'pkg#a:f' # mine" ∷ "executor_factory: late"
      ∷ [])
    ≡ "pkg#a:f"
unfolding strip_inline_yaml_comment
first_factory_runs = refl
