-- ===== src/Consumer/Job.antt =====
-- src/coda_node/server/consumer.py: `_run_job_with_cancellation` and `_process_message`.
pub mod Views
pub mod Ledger
pub mod Acknowledgement
pub mod Flag
pub mod Cancellation
pub mod TaskEnd
pub mod Calm
pub mod Posting
pub mod Reported
pub mod Circuits
pub mod Validity
use coda_self_service.Prelude.{
  ℕ, zero, suc, String, ◌<>◌, Bool, true, false, Option, none, some, List, [], ◌∷◌, ◌||◌, lookup,
  str_eq, if◌then◌else◌,
}
use coda_self_service.Prelude.Int.{ℤ}
use coda_self_service.Prelude.Text.{clip, int_of}
use coda_self_service.Ir.{NativeGateIr, from_json}
use coda_self_service.Webhook.{WebhookPayload, error_payload}
use coda_self_service.Effects.{
  Exc, job_cancelled, other_error, value_error, is_exception, Result, ok, raise, Action, pure,
  throw, lift, gets, try, finally, ◌>>=◌, ◌>>◌, modify, when,
}
use coda_self_service.Consumer.State.{
  Fields, ExecutionResult, Run, run_started, run_waited, run_settled, run_cancelled, webhook, World,
  Env, call,
}
use coda_self_service.Consumer.Redis.{
  decode_fields, status_key, safe_hset, safe_xack, has_cancel_signal, get_job_status,
  mark_job_cancelled, request_runner_cancel,
}

-- `status in {"completed", "cancelled"}`
abbrev pub is_settled : Option String → Bool
is_settled none = false
is_settled (some s) = str_eq s "completed" || str_eq s "cancelled"

-- `d[key]`; the KeyError of a missing key
abbrev pub item : String → List (String × String) → Result String
item key d = elim (lookup key d) [ none ↦ raise (other_error ("'" <> key <> "'")) | some v ↦ ok v ]

-- `int(text)`
abbrev pub int_item : String → Result ℤ
int_item text = elim (int_of text) [
  | none ↦ raise (value_error ("invalid literal for int() with base 10: '" <> text <> "'"))
  | some n ↦ ok n
]

unfoldable pub completed_payload : String → ExecutionResult → WebhookPayload
completed_payload job_id result = record {
  job_id = job_id;
  status = "completed";
  counts = some result.counts;
  execution_time_ms = some result.execution_time_ms;
  shots_completed = some result.shots_completed;
  error = none;
}

-- a message with the keys that every message must have
abbrev pub required : List (String × String) → Option (String × String)
required decoded = elim (lookup "job_id" decoded) [
  | none ↦ none
  | some job_id ↦ elim (lookup "callback_url" decoded) [
    | none ↦ none
    | some callback_url ↦ some (job_id, callback_url)
  ]
]

-- whether the executor's task is running, which `run_task.done()` tells
unfoldable pub set_live : Bool → Action World (Unit {0})
set_live b = modify (λ s. record s { run_task_live = b })

unfoldable pub reset_in_flight : Action World (Unit {0})
reset_in_flight = modify (λ s. record s { current_job_id = none; idle = true })

unfoldable pub set_in_flight : String → Action World (Unit {0})
set_in_flight job_id = modify (λ s. record s { idle = false; current_job_id = some job_id })

unfoldable pub set_last_job : String → Action World (Unit {0})
set_last_job at = modify (λ s. record s { last_job_at = some at })

module _ (env : Env) where
  -- `run_task = asyncio.create_task(self._runner.run(ir, shots))`
  unfoldable pub start_run : NativeGateIr → ℤ → Action World Run
  start_run ir shots = do
    set_live true
    call (λ t. ok (env.run t ir shots)) (λ _. run_started ir shots)

  unfoldable pub await_wait : Action World (Unit {0})
  await_wait = call env.wait (λ _. run_waited)

  -- `run_task.cancel()`
  unfoldable pub cancel_run : Action World (Unit {0})
  cancel_run = call (λ _. ok tt) (λ _. run_cancelled)

  -- `run_task.cancel()` and then `await run_task`, whose exceptions are dropped
  unfoldable pub cancel_and_settle : Action World (Unit {0})
  cancel_and_settle = do
    cancel_run
    set_live false
    try (call env.settle (λ _. run_settled)) (λ _. pure tt)

  -- The `while True` loop. The first number is how many more waits time out before the task is done.
  unfoldable pub poll : ℕ → Result ExecutionResult → String → Action World ExecutionResult
  poll zero outcome job_id = do
    await_wait
    set_live false
    result ← lift outcome
    flagged ← has_cancel_signal env job_id
    if flagged then throw job_cancelled else pure result
  poll (suc polls) outcome job_id = do
    await_wait
    flagged ← has_cancel_signal env job_id
    if flagged
        then (do request_runner_cancel env; cancel_and_settle; throw job_cancelled)
        else poll polls outcome job_id

  -- the `finally` clause
  unfoldable pub cancel_if_live : Action World (Unit {0})
  cancel_if_live = do live ← gets (λ s. s.run_task_live); if live then cancel_run else pure tt

  -- `_run_job_with_cancellation`
  unfoldable pub run_job : String → NativeGateIr → ℤ → Action World ExecutionResult
  run_job job_id ir shots = do
    task ← start_run ir shots
    finally (poll task.polls task.outcome job_id) cancel_if_live

  -- `if await self._has_cancel_signal(job_id): raise _JobCancelledWhileExecuting`
  unfoldable pub raise_if_cancelled : String → Action World (Unit {0})
  raise_if_cancelled job_id = do
    flagged ← has_cancel_signal env job_id
    when flagged (throw job_cancelled)

  unfoldable pub send : String → WebhookPayload → Action World (Unit {0})
  send callback_url payload =
      call (λ t. env.send_result t callback_url payload) (λ _. webhook callback_url payload)

  -- `HSET` of the state of a job with the time at which it came about
  abbrev pub set_state : String → String → String → List (String × String) → Action World Bool
  set_state job_id state stamp more = do
    at ← gets (λ s. env.iso s.now)
    safe_hset env (status_key job_id) (("state", state) ∷ (stamp, at) ∷ more)

  -- the body of the `try` in `_process_message`
  unfoldable pub execute : String → String → List (String × String) → Action World (Unit {0})
  execute job_id callback_url decoded = do
    ir_json ← lift (item "ir_json" decoded)
    ir ← lift (from_json env.decode_json ir_json)
    shots_text ← lift (item "shots" decoded)
    shots ← lift (int_item shots_text)
    result ← run_job job_id ir shots
    raise_if_cancelled job_id
    set_state job_id "completed" "completed_at" []
    raise_if_cancelled job_id
    send callback_url (completed_payload job_id result)
    at ← gets (λ s. env.iso s.now)
    set_last_job at

  -- the part of `except Exception` that reports the failure
  unfoldable pub report_failure : String → String → String → Action World (Unit {0})
  report_failure job_id callback_url error = do
    at ← gets (λ s. env.iso s.now)
    safe_hset env (status_key job_id)
        (("state", "failed") ∷ ("error", error) ∷ ("failed_at", at) ∷ [])
    try (send callback_url (error_payload job_id error))
        λ e. if is_exception e then pure tt else throw e

  -- `except Exception`; what is no Exception passes
  unfoldable pub handle_exception : String → String → String → Exc → Action World (Unit {0})
  handle_exception message_id job_id callback_url e =
      if is_exception e
      then (do
        flagged ← has_cancel_signal env job_id
        if flagged
            then mark_job_cancelled env job_id message_id
            else report_failure job_id callback_url (clip 500 (env.message e)))
      else throw e

  -- the `except` clauses
  unfoldable pub handle : String → String → String → Exc → Action World (Unit {0})
  handle message_id job_id callback_url job_cancelled = mark_job_cancelled env job_id message_id
  handle message_id job_id callback_url e = handle_exception message_id job_id callback_url e

  -- the `finally` clause
  unfoldable pub finish : String → Action World (Unit {0})
  finish message_id = do safe_xack env message_id; reset_in_flight

  -- from `self._idle_event.clear()` on
  unfoldable pub run_message :
      String → String → String → List (String × String) → Action World (Unit {0})
  run_message message_id job_id callback_url decoded = do
    set_in_flight job_id
    set_state job_id "executing" "started_at"
        (("message_id", message_id) ∷ ("qpu_id", env.qpu_id) ∷ [])
    finally (try (execute job_id callback_url decoded) (handle message_id job_id callback_url))
        (finish message_id)

  -- the acknowledgement of a message that is not executed
  abbrev pub skip : String → Action World (Unit {0})
  skip message_id = do safe_xack env message_id; pure tt

  -- the checks before a job is executed
  unfoldable pub admit_message :
      String → String → String → List (String × String) → Action World (Unit {0})
  admit_message message_id job_id callback_url decoded = do
    status ← get_job_status env job_id
    if is_settled status then skip message_id else do
      flagged ← has_cancel_signal env job_id
      if flagged
          then (do mark_job_cancelled env job_id message_id; skip message_id)
          else run_message message_id job_id callback_url decoded

  abbrev pub dispatch :
      String → List (String × String) → Option (String × String) → Action World (Unit {0})
  dispatch message_id decoded none = skip message_id
  dispatch message_id decoded (some (job_id, callback_url)) =
      admit_message message_id job_id callback_url decoded

  -- `_process_message`
  unfoldable pub process_message : String → Fields → Action World (Unit {0})
  process_message message_id fields = do
    decoded ← lift (decode_fields env fields)
    dispatch message_id decoded (required decoded)
