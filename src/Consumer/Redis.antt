-- ===== src/Consumer/Redis.antt =====
-- src/coda_node/server/consumer.py: the Redis helpers of the consumer, from `_decode_fields` to
-- `_request_runner_cancel`. `_await_if_needed` is the identity here.
pub mod Views
use coda_self_service.Prelude.{
  ℕ, String, ◌<>◌, Bool, true, false, Option, none, some, List, [], ◌∷◌, insert, is_some,
  if◌then◌else◌,
}
use coda_self_service.Effects.{
  is_connection, is_exception, Result, ok, raise, Action, pure, throw, lift, gets, try, ◌>>=◌, ◌>>◌,
}
use coda_self_service.Effects.Results
use coda_self_service.Consumer.State.{
  Raw, bytes, text, Fields, Event, cancel_read, cancel_unread, status_read, hset, xack, cancel_hook,
  World, Env, call,
}

abbrev pub status_key : String → String
status_key job_id = "qpu:job:" <> job_id <> ":status"

abbrev pub flag_note : String → Result (Option Raw) → Event
flag_note job_id (ok found) = cancel_read job_id (is_some found)
flag_note job_id (raise _) = cancel_unread job_id

-- the hook of the executor, if it has one; its exceptions are logged
unfoldable pub request_hook : Option (ℕ → Result (Unit {0})) → Action World (Unit {0})
request_hook none = pure tt
request_hook (some hook) =
    try (call hook (λ _. cancel_hook)) λ e. if is_exception e then pure tt else throw e

module _ (env : Env) where
  unfoldable pub decode_raw : Raw → Result String
  decode_raw (bytes b) = env.decode_bytes b
  decode_raw (text s) = ok s

  unfoldable pub decode_into : List (String × String) → Fields → Result (List (String × String))
  decode_into d [] = ok d
  decode_into d ((k, v) ∷ fields) =
      Results.◌>>=◌ (decode_raw k)
        λ key. Results.◌>>=◌ (decode_raw v) λ value. decode_into (insert key value d) fields

  -- `_decode_fields`
  unfoldable pub decode_fields : Fields → Result (List (String × String))
  decode_fields fields = decode_into [] fields

  -- `_safe_hset`
  unfoldable pub safe_hset : String → List (String × String) → Action World Bool
  safe_hset key mapping =
      try (do call (λ t. env.hset_reply t key) (λ _. hset key mapping); pure true)
        λ e. if is_connection e then pure false else throw e

  -- `_safe_xack`
  unfoldable pub safe_xack : String → Action World Bool
  safe_xack message_id =
      try (do call (λ t. env.xack_reply t message_id) (λ _. xack message_id); pure true)
        λ e. if is_connection e then pure false else throw e

  -- `_has_cancel_signal`
  unfoldable pub has_cancel_signal : String → Action World Bool
  has_cancel_signal job_id = do
    found ← call (λ t. env.get t ("qpu:job:cancelled:" <> job_id)) (flag_note job_id)
    pure (is_some found)

  unfoldable pub status_text : Option Raw → Result (Option String)
  status_text none = ok none
  status_text (some r) = Results.◌>>=◌ (decode_raw r) λ s. ok (some s)

  -- `_get_job_status`
  unfoldable pub get_job_status : String → Action World (Option String)
  get_job_status job_id = do
    found ← call (λ t. env.hget t (status_key job_id)) (λ _. status_read job_id)
    lift (status_text found)

  -- `_mark_job_cancelled`
  unfoldable pub mark_job_cancelled : String → String → Action World (Unit {0})
  mark_job_cancelled job_id message_id = do
    at ← gets (λ s. env.iso s.now)
    safe_hset (status_key job_id) (
        ("state", "cancelled")
        ∷ ("cancelled_at", at)
        ∷ ("message_id", message_id)
        ∷ ("qpu_id", env.qpu_id)
        ∷ [])
    pure tt

  -- `_request_runner_cancel`
  unfoldable pub request_runner_cancel : Action World (Unit {0})
  request_runner_cancel = request_hook env.cancel_current_job
