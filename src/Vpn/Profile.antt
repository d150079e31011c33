-- ===== src/Vpn/Profile.antt =====
-- src/coda_node/vpn/service.py: `_validate_vpn_profile`, and the text that `_write_vpn_profile` writes.
pub mod Refusal
use coda_self_service.Prelude.{
  ℕ, ◌+◌, String, ◌<>◌, Bool, true, false, List, [], ◌∷◌, contains, if◌then◌else◌,
}
use coda_self_service.Prelude.Text.{strip, rstrip, str_nat}
use coda_self_service.Prelude.Lines.{has_text, splitlines, split, lower}
use coda_self_service.Effects.{node_error, Result, ok, raise}

-- `_DANGEROUS_OVPN_DIRECTIVES`
abbrev pub dangerous_directives : List String
dangerous_directives =
    "script-security" ∷ "up" ∷ "down" ∷ "client-connect" ∷ "client-disconnect" ∷ "learn-address"
    ∷ "auth-user-pass-verify" ∷ "tls-verify" ∷ "ipchange" ∷ "route-up" ∷ "route-pre-down" ∷ "plugin"
    ∷ []

abbrev pub first_word : List String → String
first_word [] = ""
first_word (word ∷ words) = word

unfoldable pub directive_of : String → String
directive_of line = lower (first_word (split (strip line)))

-- the loop over `enumerate(profile.splitlines(), 1)`
unfoldable pub check_lines : ℕ → List String → Result (Unit {0})
check_lines lineno [] = ok tt
check_lines lineno (line ∷ lines) =
    if contains dangerous_directives (directive_of line)
    then raise (
        node_error (
          "Refusing OpenVPN profile: forbidden directive '"
          <> directive_of line
          <> "' on line "
          <> str_nat lineno))
    else check_lines (lineno + 1) lines

-- `_validate_vpn_profile`
unfoldable pub validate_vpn_profile : String → Result (Unit {0})
validate_vpn_profile profile = check_lines 1 (splitlines profile)

-- the profile with renegotiation by time switched off, unless it says something of it
unfoldable pub with_reneg : String → String
with_reneg profile =
    if has_text profile "reneg-sec" then profile else rstrip profile <> "\nreneg-sec 0\n"
