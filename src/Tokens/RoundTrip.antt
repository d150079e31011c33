-- ===== src/Tokens/RoundTrip.antt =====
-- src/coda_node/server/auth.py: a token that was signed is verified.
use coda_self_service.Prelude.{
  ◌≡◌, ap, ◌∙◌, ℕ, ◌+◌, ◌<◌, ◌≤◌, String, false, Bool-cases, inl, inr, Option, none, some,
}
use coda_self_service.Prelude.Text.{is_blank}
use coda_self_service.Effects.{Result, ok}
use coda_self_service.Tokens.{Claims, header, Jwt, kid_of, sign_token, verify_token, verify_header}

-- A token tells its `kid` to everyone.
abbrev pub TellsKid : Jwt → Type 0
TellsKid jwt =
    (claims : Claims) (key kid token : String)
    → jwt.encode claims key kid ≡ ok token
    → jwt.get_unverified_header token ≡ header (some kid)

-- What is signed with the private key is decoded with the public one, for its issuer, from the time of its
-- issue until it expires.
abbrev pub IsPair : Jwt → String → String → Type 0
IsPair jwt private_key public_key =
    (claims : Claims) (kid token : String) (now : ℕ)
    → jwt.encode claims private_key kid ≡ ok token
    → claims.iat ≤ now
    → now < claims.exp
    → jwt.decode now token public_key claims.iss ≡ ok claims

kid_of_given :
    (key_id : Option String) (subject : String)
    → is_blank subject ≡ false
    → is_blank (kid_of key_id subject) ≡ false
kid_of_given none subject h = h
kid_of_given (some key_id) subject h = elim (Bool-cases (is_blank key_id)) [
  | inl blank ↦ rw blank h
  | inr given ↦ rw given given
]

-- A token signed for a subject is verified, with the public key that is known under its key id or else
-- under the subject, from the time of its issue until it expires, and gives the claims it was signed with.
pub verify_token-sign_token :
    (jwt : Jwt) (private_key public_key subject issuer token : String) (key_id : Option String)
    (issued ttl now : ℕ) (get_public_key : String → Result (Option String))
    → TellsKid jwt
    → IsPair jwt private_key public_key
    → get_public_key (kid_of key_id subject) ≡ ok (some public_key)
    → is_blank public_key ≡ false
    → is_blank subject ≡ false
    → sign_token jwt issued subject private_key issuer ttl key_id ≡ ok token
    → issued ≤ now
    → now < issued + ttl
    → verify_token jwt now token get_public_key issuer
      ≡ ok (record { sub = subject; iss = issuer; iat = issued; exp = issued + ttl })
unfolding sign_token verify_token
verify_token-sign_token jwt private_key public_key subject issuer token key_id issued ttl now
      get_public_key tells pair known key given signed begun valid =
    let claims : Claims = record {
      sub = subject;
      iss = issuer;
      iat = issued;
      exp = issued + ttl;
    } in
    ap (verify_header jwt now token get_public_key issuer)
      (tells claims private_key (kid_of key_id subject) token signed)
    ∙ rw (kid_of_given key_id subject given, known, key)
        (pair claims (kid_of key_id subject) token now signed begun valid)
