-- ===== src/Tokens/Tests.antt =====
-- A library that signs one payload, and the theorem applied to it.
use coda_self_service.Prelude.{
  ◌≡◌, refl, ap, Bool, true, ◌&&◌, ◌==◌, arith, str_eq, str_eq_iff, some, none, Bool-cases, inl,
  inr, if◌then◌else◌,
}
use coda_self_service.Effects.{other_error, ok, raise}
use coda_self_service.Tokens.{
  Claims, header, Jwt, default_issuer, default_ttl, sign_token, verify_token,
}
use coda_self_service.Tokens.RoundTrip.{TellsKid, IsPair, verify_token-sign_token}

abbrev claims : Claims
claims = record { sub = "q1"; iss = default_issuer; iat = 100; exp = 3700 }

abbrev is_known : Claims → Bool
is_known c = str_eq c.sub "q1" && (str_eq c.iss default_issuer && (c.iat == 100 && c.exp == 3700))

-- the token is the key id
abbrev library : Jwt
library = record {
  generate_private_key = λ _. ok ("private", "public");
  encode = λ c key kid. if is_known c then ok kid else raise (other_error "unknown");
  get_unverified_header = λ token. header (some token);
  decode = λ now token key issuer. ok claims;
}

known-claims : (c : Claims) → is_known c ≡ true → claims ≡ c
known-claims c h =
    let sub : str_eq c.sub "q1" ≡ true = ground arith in
    let iss : str_eq c.iss default_issuer ≡ true = ground arith in
    let iat : c.iat ≡ 100 = ground arith in
    let exp : c.exp ≡ 3700 = ground arith in
    rw ((str_eq_iff c.sub "q1").0 sub, (str_eq_iff c.iss default_issuer).0 iss, iat, exp) refl

tells : TellsKid library
tells c key kid token h = elim (Bool-cases (is_known c)) [
  | inl same ↦ cc (rw same at h)
  | inr differs ↦ cc (rw differs at h)
]

pair : IsPair library "private" "public"
pair c kid token now h begun valid = elim (Bool-cases (is_known c)) [
  | inl same ↦ ap ok (known-claims c same)
  | inr differs ↦ cc (rw differs at h)
]

verify_token-sign_token_example :
    verify_token library 200 "q1" (λ _. ok (some "public")) default_issuer ≡ ok claims
unfolding sign_token
verify_token-sign_token_example =
    verify_token-sign_token library "private" "public" "q1" default_issuer "q1" none 100 default_ttl
      200 (λ _. ok (some "public")) tells pair refl refl refl refl (omega arith) (omega arith)
