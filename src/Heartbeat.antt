-- ===== src/Heartbeat.antt =====
-- src/coda_node/server/heartbeat.py: HeartbeatClient. HTTP, the signing of tokens, `asyncio.sleep` and the consumer
-- whose state is reported are the parameter `Env`.
pub mod Rounds
pub mod Tests
use coda_self_service.Prelude.{
  ℕ, zero, suc, String, ◌<>◌, Bool, true, false, not, Option, none, some, List, [], ◌∷◌, lookup,
  insert, if◌then◌else◌,
}
use coda_self_service.Prelude.Int.{ℤ}
use coda_self_service.Prelude.Text.{clip, is_blank, strip, str_nat}
use coda_self_service.Values.{Value, Dict}
use coda_self_service.Effects.{
  Exc, heartbeat_rejected, is_exception, Result, ok, raise, Action, pure, throw, lift, gets, modify,
  try, ◌>>=◌, ◌>>◌,
}
use coda_self_service.Consumer.State as Consumer

pub record Response : Type 0 where
  pub is_success : Bool
  pub status_code : ℕ
  -- `response.json()`: an object, or a value of another type
  pub json : Result (Option Dict)
  pub text : String
  pub reason_phrase : String

pub record Body : Type 0 where
  pub current_job : Option String
  pub last_job_at : Option String
  pub redis_healthy : Bool
  pub connectivity : Option (List (List ℤ))

pub data Event : Type 0 where
  signed : Event
  posted : String → List (String × String) → Body → Event
  slept : ℤ → Event
  closed : Event

pub record World : Type 0 where
  pub now : ℕ
  -- newest first
  pub trace : List Event
  pub running : Bool

pub record Env : Type 0 where
  -- the arguments of the constructor
  pub url : String
  pub interval : ℤ
  pub connectivity : Option (List (List ℤ))
  pub extra_headers : List (String × String)
  -- the state of the consumer by then, and whether `stop` has been called by then
  pub consumer : ℕ → Consumer.World
  pub stopped : ℕ → Bool
  -- `sign_token`, the POST, `str()` of the value in the error body, `asyncio.sleep`
  pub token : ℕ → Result String
  pub post : ℕ → Body → Result Response
  pub show : Value → Result String
  pub sleep : ℕ → Result (Unit {0})
  -- `AsyncClient.aclose`
  pub aclose : ℕ → Result (Unit {0})

unfoldable pub call : {A : Type 0} → (ℕ → Result A) → Event → Action World A
call ask note s = (ask s.now, record s { now = suc s.now; trace = note ∷ s.trace })

-- `{**headers, **more}`
abbrev pub updated : List (String × String) → List (String × String) → List (String × String)
updated headers [] = headers
updated headers ((key, value) ∷ more) = updated (insert key value headers) more

abbrev pub body_of : Option (List (List ℤ)) → Consumer.World → Body
body_of connectivity consumer = record {
  current_job = consumer.current_job_id;
  last_job_at = consumer.last_job_at;
  redis_healthy = consumer.redis_healthy;
  connectivity = connectivity;
}

-- what stands in the response when its JSON has no error
abbrev pub plain_detail : Response → String
plain_detail response =
    if not (is_blank (strip response.text))
    then clip 800 (strip response.text)
    else if not (is_blank response.reason_phrase)
    then response.reason_phrase
    else "unknown error"

module _ (env : Env) where
  abbrev shown_error : Response → Option Value → Result String
  shown_error response none = ok (plain_detail response)
  shown_error response (some value) = env.show value

  abbrev error_in : Response → Option Dict → Result String
  error_in response none = ok (plain_detail response)
  error_in response (some dict) = shown_error response (lookup "error" dict)

  abbrev json_detail : Response → Result (Option Dict) → Result String
  json_detail response (ok data_in) = error_in response data_in
  json_detail response (raise e) = raise e

  abbrev or_plain : Response → Result String → Result String
  or_plain response (ok detail) = ok detail
  or_plain response (raise e) = if is_exception e then ok (plain_detail response) else raise e

  -- `_format_heartbeat_error_response`
  unfoldable pub format_heartbeat_error_response : Response → Result String
  format_heartbeat_error_response response = or_plain response (json_detail response response.json)

  unfoldable pub judge : Response → Action World (Unit {0})
  judge response = if response.is_success then pure tt else (do
    detail ← lift (format_heartbeat_error_response response)
    throw (
        heartbeat_rejected
          ("HTTP " <> str_nat response.status_code <> " from heartbeat endpoint: " <> detail)))

  -- `_send`
  unfoldable pub send_heartbeat : Action World (Unit {0})
  send_heartbeat = do
    token ← call env.token signed
    body ← gets (λ s. body_of env.connectivity (env.consumer s.now))
    response ←
        call (λ t. env.post t body)
          (posted env.url (updated (("Authorization", "Bearer " <> token) ∷ []) env.extra_headers)
            body)
    judge response

  -- the body of the loop
  unfoldable pub beat : Action World (Unit {0})
  beat = do
    try send_heartbeat (λ e. if is_exception e then pure tt else throw e)
    call env.sleep (slept env.interval)

  -- the first `rounds` rounds of the loop; `stop` may be called from outside before each
  unfoldable pub beat_rounds : ℕ → Action World (Unit {0})
  beat_rounds zero = pure tt
  beat_rounds (suc rounds) = do
    halted ← gets (λ s. env.stopped s.now)
    (if halted then modify (λ s. record s { running = false }) else pure tt)
    going ← gets (λ s. s.running)
    if going then (do beat; beat_rounds rounds) else pure tt

  -- `run`
  unfoldable pub run : ℕ → Action World (Unit {0})
  run rounds = do modify (λ s. record s { running = true }); beat_rounds rounds

-- `stop`
unfoldable pub stop : Action World (Unit {0})
stop = modify (λ s. record s { running = false })

-- `close`
unfoldable pub close : Env → Action World (Unit {0})
close env = do stop; call env.aclose closed
