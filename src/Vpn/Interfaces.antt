-- ===== src/Vpn/Interfaces.antt =====
-- src/coda_node/vpn/guard.py: `detect_tun_interface` and its two parsers. What the commands print and
-- `json.loads` are parameters.
pub mod Views
use coda_self_service.Prelude.{
  ℕ, String, Bool, true, false, ◌&&◌, ◌||◌, not, Option, none, some, List, [], ◌∷◌, any, str_eq,
  lookup, starts_with, if◌then◌else◌,
}
use coda_self_service.Prelude.Int.{ℤ, pos, eq_int}
use coda_self_service.Prelude.Text.{chars, is_space, is_blank, strip}
use coda_self_service.Prelude.Lines.{has_text, splitlines, split_at, lower}
use coda_self_service.Effects.{
  Exc, file_not_found, timeout_expired, Result, Action, pure, throw, try, ◌>>=◌,
}

-- What `json.loads` gives, as deep as the code looks: a value of an object, an object or something else,
-- and the document.
pub data JsonField : Type 0 where
  string : String → JsonField
  other_field : JsonField

abbrev pub JsonObject : Type 0
JsonObject = List (String × JsonField)

pub data JsonItem : Type 0 where
  object : JsonObject → JsonItem
  other_item : JsonItem

pub data JsonDocument : Type 0 where
  one : JsonObject → JsonDocument
  many : List JsonItem → JsonDocument
  other_document : JsonDocument

pub data Platform : Type 0 where
  darwin windows other_platform : Platform

-- `ifconfig`, `ip link` and `Get-NetAdapter`, for one interface or for all
pub data Command : Type 0 where
  ifconfig ip_link : Option String → Command
  get_net_adapter : Command

pub record Output : Type 0 where
  pub returncode : ℤ
  pub stdout : String

-- whether a line of `ifconfig` begins an interface
abbrev pub is_header : String → Bool
is_header String.[] = false
is_header (String.◌∷◌ c s) = not (is_space c)

abbrev pub head_or : String → List String → String
head_or default [] = default
head_or default (x ∷ xs) = x

abbrev pub is_tun : Option String → Bool
is_tun none = false
is_tun (some name) = starts_with name "utun" || starts_with name "tun"

unfoldable pub scan_darwin : Option String → List String → Option String
scan_darwin current_iface [] = none
scan_darwin current_iface (line ∷ lines) = elim (is_header line) [
  | true ↦ scan_darwin (some (head_or "" (split_at ":" line))) lines
  | false ↦
      let rest = scan_darwin current_iface lines in
      if is_tun current_iface && starts_with (strip line) "inet " then current_iface else rest
]

unfoldable pub parse_darwin_tun_interfaces : String → Option String
parse_darwin_tun_interfaces ifconfig_output = scan_darwin none (splitlines ifconfig_output)

-- `adapter.get(key)`, when it is a text
abbrev pub text_field : String → JsonObject → Option String
text_field key adapter = elim (lookup key adapter) [
  | none ↦ none
  | some value ↦ elim value [ string s ↦ some s | _ ↦ none ]
]

abbrev pub markers : List String
markers = "tap-windows" ∷ "wintun" ∷ "openvpn" ∷ "tap adapter" ∷ []

-- whether the hint, if it is no empty text, occurs in neither
abbrev pub misses_hint : Option String → String → String → Bool
misses_hint none name description = false
misses_hint (some hint) name description =
    not (is_blank hint)
    && not (has_text (lower name) (lower hint))
    && not (has_text (lower description) (lower hint))

unfoldable pub is_vpn_adapter : Option String → String → String → String → Bool
is_vpn_adapter hint name description status =
    str_eq (lower status) "up"
    && not (misses_hint hint name description)
    && any (λ marker. has_text (lower description) marker) markers

-- the name of an adapter that matches
unfoldable pub match_fields :
    Option String → Option String → Option String → Option String → Option String
match_fields hint (some name) (some description) (some status) =
    if is_vpn_adapter hint name description status then some name else none
match_fields hint _ _ _ = none

unfoldable pub match_adapter : Option String → JsonItem → Option String
match_adapter hint (object adapter) =
    match_fields hint (text_field "Name" adapter) (text_field "InterfaceDescription" adapter)
      (text_field "Status" adapter)
match_adapter hint other_item = none

abbrev pub or_else : Option String → Option String → Option String
or_else none rest = rest
or_else (some name) rest = some name

unfoldable pub scan_adapters : Option String → List JsonItem → Option String
scan_adapters hint [] = none
scan_adapters hint (adapter ∷ adapters) =
    or_else (match_adapter hint adapter) (scan_adapters hint adapters)

-- after `json.loads`, whose JSONDecodeError is `none`
unfoldable pub scan_json : Option String → Option JsonDocument → Option String
scan_json hint (some (one adapter)) = match_adapter hint (object adapter)
scan_json hint (some (many adapters)) = scan_adapters hint adapters
scan_json hint _ = none

unfoldable pub parse_windows_tun_interfaces :
    (String → Option JsonDocument) → String → Option String → Option String
parse_windows_tun_interfaces json_loads adapter_json hint = scan_json hint (json_loads adapter_json)

-- `ip -o link show type tun`: the second field of the first line that has one
unfoldable pub scan_links : List String → Option String
scan_links [] = none
scan_links (line ∷ lines) = elim (split_at ":" line) [
  | [] ↦ scan_links lines
  | index ∷ parts ↦ elim parts [ [] ↦ scan_links lines | name ∷ _ ↦ some (strip name) ]
]

-- `except (FileNotFoundError, subprocess.TimeoutExpired): return None`
abbrev pub no_interface : {S : Type 0} → Exc → Action S (Option String)
no_interface file_not_found = pure none
no_interface timeout_expired = pure none
no_interface e = throw e

-- the answer for a hint, unless the platform is Windows
abbrev pub hinted : String → Output → Option String
hinted hint result =
    if eq_int result.returncode (pos 0)
      && (has_text result.stdout "UP" || has_text result.stdout "up")
    then some hint
    else none

module _ {S : Type 0} (system : Platform) (json_loads : String → Option JsonDocument)
    (run : Command → Action S Output) where
  unfoldable pub detect_hinted : String → Action S (Option String)
  detect_hinted hint = elim system [
    | darwin ↦ (do result ← run (ifconfig (some hint)); pure (hinted hint result))
    | windows ↦ (do
      result ← run get_net_adapter
      pure (parse_windows_tun_interfaces json_loads result.stdout (some hint)))
    | other_platform ↦ (do result ← run (ip_link (some hint)); pure (hinted hint result))
  ]

  unfoldable pub detect_any : Action S (Option String)
  detect_any = elim system [
    | darwin ↦ (do result ← run (ifconfig none); pure (parse_darwin_tun_interfaces result.stdout))
    | windows ↦ (do
      result ← run get_net_adapter
      pure (parse_windows_tun_interfaces json_loads result.stdout none))
    | other_platform ↦ (do
      result ← run (ip_link none)
      pure (scan_links (splitlines result.stdout)))
  ]

  abbrev pub detect_with : Option String → Action S (Option String)
  detect_with none = detect_any
  detect_with (some hint) = if is_blank hint then detect_any else detect_hinted hint

  -- `detect_tun_interface`
  unfoldable pub detect_tun_interface : Option String → Action S (Option String)
  detect_tun_interface hint = try (detect_with hint) no_interface
