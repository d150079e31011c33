-- ===== src/Tokens.antt =====
-- src/coda_node/server/auth.py. PyJWT and cryptography are the parameter `Jwt`. Times are in seconds, as
-- PyJWT writes them.
pub mod RoundTrip
mod Tests
use coda_self_service.Prelude.{
  ℕ, ◌+◌, String, ◌<>◌, Bool, true, false, Option, none, some, if◌then◌else◌,
}
use coda_self_service.Prelude.Text.{is_blank}
use coda_self_service.Effects.{Exc, other_error, Result, ok, raise}
use coda_self_service.Effects.Results.{◌>>=◌}

pub record Claims : Type 0 where
  pub sub : String
  pub iss : String
  pub iat : ℕ
  pub exp : ℕ

-- what `jwt.get_unverified_header` gives: its `kid`, if it has one, or the text of a DecodeError
pub data Header : Type 0 where
  header : Option String → Header
  malformed : String → Header
  failed : Exc → Header

pub record Jwt : Type 0 where
  -- a private key of the size with its public key, in PEM
  pub generate_private_key : ℕ → Result (String × String)
  -- `jwt.encode` of a payload with a private key and a `kid`
  pub encode : Claims → String → String → Result String
  pub get_unverified_header : String → Header
  -- `jwt.decode` at a time, of a token with a public key, for an issuer
  pub decode : ℕ → String → String → String → Result Claims

abbrev pub default_issuer : String
default_issuer = "coda"

abbrev pub default_ttl : ℕ
default_ttl = 3600

abbrev pub key_size : ℕ
key_size = 2048

pub record KeyPair : Type 0 where
  pub private_key_pem : String
  pub public_key_pem : String
  pub key_id : String

-- InvalidTokenError
abbrev pub invalid_token : String → Exc
invalid_token = other_error

-- `key_id or subject`
abbrev pub kid_of : Option String → String → String
kid_of none subject = subject
kid_of (some key_id) subject = if is_blank key_id then subject else key_id

module _ (jwt : Jwt) where
  unfoldable pub generate_keypair : String → Result KeyPair
  generate_keypair key_id = jwt.generate_private_key key_size >>= λ pems.
      ok (record { private_key_pem = pems.0; public_key_pem = pems.1; key_id = key_id })

  unfoldable pub sign_token : ℕ → String → String → String → ℕ → Option String → Result String
  sign_token now subject private_key_pem issuer ttl key_id =
      jwt.encode (record { sub = subject; iss = issuer; iat = now; exp = now + ttl })
        private_key_pem (kid_of key_id subject)

  unfoldable pub verify_token_with_key : ℕ → String → String → String → Result Claims
  verify_token_with_key now token public_key_pem issuer = jwt.decode now token public_key_pem issuer

  abbrev pub verify_with : ℕ → String → String → String → Option String → Result Claims
  verify_with now token issuer kid none = raise (invalid_token ("Unknown key_id: " <> kid))
  verify_with now token issuer kid (some key) =
      if is_blank key
      then raise (invalid_token ("Unknown key_id: " <> kid))
      else jwt.decode now token key issuer

  abbrev pub verify_kid :
      ℕ → String → (String → Result (Option String)) → String → Option String → Result Claims
  verify_kid now token get_public_key issuer none =
      raise (invalid_token "Token missing 'kid' header")
  verify_kid now token get_public_key issuer (some kid) =
      if is_blank kid
      then raise (invalid_token "Token missing 'kid' header")
      else (get_public_key kid >>= verify_with now token issuer kid)

  abbrev pub verify_header :
      ℕ → String → (String → Result (Option String)) → String → Header → Result Claims
  verify_header now token get_public_key issuer (header kid) =
      verify_kid now token get_public_key issuer kid
  verify_header now token get_public_key issuer (malformed message) =
      raise (invalid_token ("Malformed token header: " <> message))
  verify_header now token get_public_key issuer (failed e) = raise e

  unfoldable pub verify_token :
      ℕ → String → (String → Result (Option String)) → String → Result Claims
  verify_token now token get_public_key issuer =
      verify_header now token get_public_key issuer (jwt.get_unverified_header token)
