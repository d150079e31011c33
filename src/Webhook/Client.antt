-- ===== src/Webhook/Client.antt =====
-- src/coda_node/server/webhook.py, WebhookClient: `_post_with_retry`, `send_result`, `send_error`.
-- What the HTTP library does at each attempt is a parameter.
use coda_self_service.Prelude.{
  ℕ, zero, suc, ◌+◌, ◌-◌, String, Bool, true, false, Option, none, some, List, ◌∷◌, ltb,
  if◌then◌else◌,
}
use coda_self_service.Effects.{
  Exc, http_status, transport_error, Result, ok, raise, Action, pure, throw, lift, try, ◌>>=◌, ◌>>◌,
  float_pow_two,
}
use coda_self_service.Effects.Results
use coda_self_service.Webhook.Payload.{WebhookPayload, Body, to_dict, error_payload}

-- What the client does to the outside: a signed POST of a body, and a wait of some seconds.
pub data Event : Type 0 where
  posted : String → String → Body → Event
  slept : ℕ → Event

pub record World : Type 0 where
  pub now : ℕ
  pub trace : List Event

pub record Env : Type 0 where
  -- `sign_token`: the token, or what signing raises
  pub token : ℕ → Result String
  -- the status code of the response, or the exception of the transport
  pub post : ℕ → String → Body → Result ℕ
  -- `asyncio.sleep`
  pub sleep : ℕ → Result (Unit {0})

-- `response.raise_for_status()`: every status that is no success
abbrev pub raise_for_status : ℕ → Result (Unit {0})
raise_for_status code =
    if ltb code 200
    then raise (http_status code)
    else if ltb code 300
    then ok tt
    else raise (http_status code)

-- whether the `except` clause raises the exception again: no retry for a status below 500
abbrev pub is_final : Exc → Bool
is_final (http_status code) = ltb code 500
is_final transport_error = false
is_final _ = true

module _ (env : Env) where
  -- `sign_token` stands before the `try`
  unfoldable pub sign : Action World String
  sign s = (env.token s.now, s)

  unfoldable pub post : String → String → Body → Action World (Unit {0})
  post url token body s = (
    Results.◌>>=◌ (env.post s.now url body) raise_for_status,
    record s { now = s.now + 1; trace = posted url token body ∷ s.trace },
  )

  unfoldable pub sleep : ℕ → Action World (Unit {0})
  sleep seconds s = (env.sleep s.now, record s { now = s.now + 1; trace = slept seconds ∷ s.trace })

  -- The `for` loop: `left` attempts are left, `attempt` is the number of the next, and `last_exc` is
  -- the exception of the last.
  unfoldable pub post_attempts : ℕ → ℕ → Option Exc → String → Body → Action World (Unit {0})
  post_attempts zero attempt none url body = pure tt
  post_attempts zero attempt (some e) url body = throw e
  post_attempts (suc left) attempt last_exc url body = do
    token ← sign
    try (post url token body) λ e. if is_final e then throw e else do
      delay ← lift (float_pow_two (attempt - 1))
      sleep delay
      post_attempts left (attempt + 1) (some e) url body

  -- `_post_with_retry`
  unfoldable pub post_with_retry : ℕ → String → Body → Action World (Unit {0})
  post_with_retry max_retries url body = post_attempts max_retries 1 none url body

  unfoldable pub send_result : ℕ → String → WebhookPayload → Action World (Unit {0})
  send_result max_retries callback_url payload =
      post_with_retry max_retries callback_url (to_dict payload)

  unfoldable pub send_error : ℕ → String → String → String → Action World (Unit {0})
  send_error max_retries callback_url job_id error =
      send_result max_retries callback_url (error_payload job_id error)
