-- ===== src/Consumer/State.antt =====
-- src/coda_node/server/consumer.py: the consumer's fields, what it does to the outside, and what the
-- outside answers. Redis, the executor, the event loop and the clock are the parameter `Env`: at each
-- call it gives any result or raises anything, `asyncio.CancelledError` included. `now` counts the
-- calls made, so an environment may answer the same question differently each time.
use coda_self_service.Prelude.{ℕ, suc, String, Bool, Option, List, ◌∷◌}
use coda_self_service.Prelude.Int.{ℤ}
use coda_self_service.Ir.{NativeGateIr, Float}
use coda_self_service.Webhook.{WebhookPayload}
use coda_self_service.Effects.{Exc, Result, Action}

-- executor.py, ExecutionResult
pub record ExecutionResult : Type 0 where
  pub counts : List (String × ℤ)
  pub execution_time_ms : Float
  pub shots_completed : ℤ

-- A key or value of a stream message: bytes when `decode_responses` is off, else a text.
pub data Raw : Type 0 where
  bytes : List ℕ → Raw
  text : String → Raw

abbrev pub Fields : Type 0
Fields = List (Raw × Raw)

abbrev pub Message : Type 0
Message = String × Fields

-- a task that runs the executor: it is done after `polls` waits, with `outcome`
pub record Run : Type 0 where
  pub polls : ℕ
  pub outcome : Result ExecutionResult

-- a job of a batch that passed the checks
pub record Parsed : Type 0 where
  pub message_id : String
  pub job_id : String
  pub callback_url : String
  pub ir : NativeGateIr
  pub shots : ℤ

-- The background task of a batch: it is awaited later, and once it has ended every further `await`
-- gives its outcome again.
pub data Delivery : Type 0 where
  scheduled : List Parsed → List ExecutionResult → Delivery
  finished : Result (Unit {0}) → Delivery

-- Every call to the outside, in the order newest first. `cancel_read` has the answer.
pub data Event : Type 0 where
  group_created pending_listed : Event
  stream_read : ℕ → Event
  message_read : String → Event
  status_read : String → Event
  cancel_read : String → Bool → Event
  cancel_unread : String → Event
  hset : String → List (String × String) → Event
  xack : String → Event
  run_started : NativeGateIr → ℤ → Event
  run_waited run_settled run_cancelled cancel_hook : Event
  batch_started : ℕ → Event
  webhook : String → WebhookPayload → Event
  slept : ℕ → Event
  waited : Event

pub record World : Type 0 where
  pub now : ℕ
  pub trace : List Event
  -- `_running`, `_idle_event`, `_pending_batch_delivery` and the public attributes
  pub running : Bool
  pub idle : Bool
  pub pending_batch_delivery : Option Delivery
  pub current_job_id : Option String
  pub last_job_at : Option String
  pub redis_healthy : Bool
  -- whether the task of the executor is not done
  pub run_task_live : Bool

pub record Env : Type 0 where
  -- the arguments of the constructor that the code reads later; `can_batch` is what it computed
  pub qpu_id : String
  pub can_batch : Bool
  -- `bytes.decode()`, pydantic's `model_validate_json`, and `str(exc)`
  pub decode_bytes : List ℕ → Result String
  pub decode_json : String → Result NativeGateIr
  pub message : Exc → String
  -- `datetime.now(UTC).isoformat()`, and `time.monotonic()` in ns
  pub iso : ℕ → String
  pub monotonic : ℕ → ℕ
  -- Redis
  pub xgroup_create : ℕ → Result (Unit {0})
  pub xpending_range : ℕ → Result (List String)
  pub xrange : ℕ → String → Result (List Message)
  pub xreadgroup : ℕ → ℕ → Result (List (List Message))
  pub hget : ℕ → String → Result (Option Raw)
  pub get : ℕ → String → Result (Option Raw)
  pub hset_reply : ℕ → String → Result (Unit {0})
  pub xack_reply : ℕ → String → Result (Unit {0})
  -- the executor, and `asyncio.wait` and `await` on its task
  pub run : ℕ → NativeGateIr → ℤ → Run
  pub wait : ℕ → Result (Unit {0})
  pub settle : ℕ → Result (Unit {0})
  pub cancel_current_job : Option (ℕ → Result (Unit {0}))
  pub batch_run : ℕ → Option (List (NativeGateIr × ℤ) → Result (List ExecutionResult))
  -- WebhookClient.send_result
  pub send_result : ℕ → String → WebhookPayload → Result (Unit {0})
  -- `asyncio.sleep`; whether the event, or the delivery, came before the timeout of `drain`
  pub sleep : ℕ → Result (Unit {0})
  pub idle_in_time : ℕ → Bool
  pub delivery_in_time : ℕ → Bool
  -- what the loop and the tasks beside `drain` have done by the end of a wait of it
  pub meanwhile : ℕ → World → World
  -- whether `stop` has been called from outside by then
  pub stopped : ℕ → Bool

-- A call to the outside, with its entry in the trace.
unfoldable pub call : {A : Type 0} → (ℕ → Result A) → (Result A → Event) → Action World A
call ask note s =
    let answer = ask s.now in (answer, record s { now = suc s.now; trace = note answer ∷ s.trace })
