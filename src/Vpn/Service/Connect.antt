-- ===== src/Vpn/Service/Connect.antt =====
-- src/coda_node/vpn/service.py: `_post_connect`, `fetch_node_bundle` and `fetch_reconnect_bundle`. The
-- JSON body and the additional headers are left out.
pub mod Retry
pub mod Course
use coda_self_service.Prelude.{
  ℕ, zero, suc, ◌+◌, ◌-◌, ◌<◌, String, ◌<>◌, Bool, true, false, Option, none, some, List, ◌∷◌, ltb,
  if◌then◌else◌,
}
use coda_self_service.Prelude.Int.{ℤ, pos, negsuc}
use coda_self_service.Prelude.Text.{clip, is_blank, str_nat, str_int}
use coda_self_service.Config.{Settings, connect_url}
use coda_self_service.Effects.{
  Exc, http_status, transport_error, node_error, Result, ok, raise, Action, pure, throw, lift, gets,
  ◌>>=◌, ◌>>◌, when, float_pow_two,
}
use coda_self_service.Webhook.Client.{raise_for_status}
use coda_self_service.Vpn.Service.State.{
  NodeBundle, Reply, Event, posted, slept, World, Env, call, update,
}

-- what one attempt comes to: an end, or an exception after which another may follow
pub data Attempt : Type 0 where
  ended : Result NodeBundle → Attempt
  failed : Exc → Attempt

abbrev pub refusal : ℕ → String → Exc
refusal code text = node_error ("Node request failed (" <> str_nat code <> "): " <> clip 400 text)

abbrev pub judge_status : Reply → Result (Unit {0}) → Attempt
judge_status reply (ok _) = ended reply.json
judge_status reply (raise e) =
    if ltb reply.status_code 500
    then ended (raise (refusal reply.status_code reply.text))
    else failed e

-- the `try` of an attempt
unfoldable pub judge : Result Reply → Attempt
judge (ok reply) = judge_status reply (raise_for_status reply.status_code)
judge (raise transport_error) = failed transport_error
judge (raise e) = ended (raise e)

abbrev pub shown : (Exc → String) → Option Exc → String
shown message none = "None"
shown message (some e) = message e

-- the number of attempts that `range(1, max_retries + 1)` allows
abbrev pub attempts : ℤ → ℕ
attempts (pos n) = n
attempts (negsuc n) = 0

module _ (env : Env) where
  unfoldable pub post : String → String → Action World Attempt
  post url auth_header s = (
    ok (judge (env.post s.now url auth_header)),
    record s { now = suc s.now; trace = posted url auth_header ∷ s.trace },
  )

  unfoldable pub sleep : ℕ → Action World (Unit {0})
  sleep seconds = call env.sleep (slept seconds)

  -- The `for` loop; `attempt` is the number of the next attempt.
  unfoldable pub connect_attempts :
      ℤ → ℕ → ℕ → Option Exc → String → String → Action World NodeBundle
  connect_attempts max_retries zero attempt last_exc url auth_header = throw (
      node_error (
        "Node connect failed after "
        <> str_int max_retries
        <> " attempts: "
        <> shown env.message last_exc))
  connect_attempts max_retries (suc left) attempt last_exc url auth_header = do
    outcome ← post url auth_header
    elim outcome [
      | ended result ↦ lift result
      | failed e ↦ (do
        when (ltb 0 left) (do delay ← lift (float_pow_two (attempt - 1)); sleep delay)
        connect_attempts max_retries left (attempt + 1) (some e) url auth_header)
    ]

  -- `_post_connect`
  unfoldable pub post_connect : String → ℤ → Action World NodeBundle
  post_connect auth_header max_retries = do
    url ← gets (λ s. connect_url s.settings)
    connect_attempts max_retries (attempts max_retries) 1 none url auth_header

  abbrev pub fingerprint_or : String → String
  fingerprint_or fingerprint = if is_blank fingerprint then env.machine_fingerprint else fingerprint

  -- `_resolve_machine_fingerprint`
  unfoldable pub resolve_machine_fingerprint : Action World (Unit {0})
  resolve_machine_fingerprint =
      update
        (λ c. record c { node_machine_fingerprint = fingerprint_or c.node_machine_fingerprint })

  -- `fetch_node_bundle`
  unfoldable pub fetch_node_bundle : Action World NodeBundle
  fetch_node_bundle = do
    settings ← gets (λ s. s.settings)
    when (is_blank settings.node_token) (throw (node_error "node token is empty"))
    resolve_machine_fingerprint
    post_connect ("Bearer " <> settings.node_token) settings.node_connect_retries

  -- `fetch_reconnect_bundle`
  unfoldable pub fetch_reconnect_bundle : Action World NodeBundle
  fetch_reconnect_bundle = do
    resolve_machine_fingerprint
    token ← (λ s. (env.token s.now, s))
    retries ← gets (λ s. s.settings.node_connect_retries)
    post_connect ("Bearer " <> token) retries
