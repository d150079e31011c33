-- ===== src/Consumer/Batch.antt =====
-- src/coda_node/server/consumer.py: `_process_batch`. The deliveries that `asyncio.gather` runs side by
-- side are run one after the other here, all of them; the first exception is raised at the end.
pub mod Single
pub mod Checked
pub mod Settled
pub mod Foreign
use coda_self_service.Prelude.{
  String, true, false, Option, none, some, List, [], ◌∷◌, is_empty, length, map, if◌then◌else◌,
}
use coda_self_service.Prelude.Int.{ℤ}
use coda_self_service.Ir.{NativeGateIr, from_json}
use coda_self_service.Effects.{
  value_error, is_exception, Result, ok, raise, Action, pure, throw, lift, gets, try, finally,
  ◌>>=◌, ◌>>◌, modify,
}
use coda_self_service.Effects.Results
use coda_self_service.Consumer.State.{
  Message, ExecutionResult, Parsed, Delivery, scheduled, batch_started, World, Env, call,
}
use coda_self_service.Consumer.Redis.{
  decode_fields, has_cancel_signal, get_job_status, mark_job_cancelled, safe_xack, safe_hset,
  status_key,
}
use coda_self_service.Consumer.Job.{
  is_settled, item, int_item, required, skip, set_state, send, completed_payload, process_message,
}

-- `zip(…, strict=True)`: `none` is the ValueError of unequal lengths
unfoldable pub zip_strict {ℓ κ} :
    {A : Type ℓ} {B : Type κ} → List A → List B → Option (List (A × B))
zip_strict [] [] = some []
zip_strict [] (y ∷ ys) = none
zip_strict (x ∷ xs) [] = none
zip_strict (x ∷ xs) (y ∷ ys) = elim (zip_strict xs ys) [
  | none ↦ none
  | some zs ↦ some ((x, y) ∷ zs)
]

-- the exception that `asyncio.gather` raises: the first
abbrev pub first_failure : Result (Unit {0}) → Result (Unit {0}) → Result (Unit {0})
first_failure (ok _) rest = rest
first_failure (raise e) rest = raise e

module _ (env : Env) where
  -- `NativeGateIR.from_json(decoded["ir_json"])` and `int(decoded["shots"])`
  unfoldable pub parse_job : String → String → String → List (String × String) → Result Parsed
  parse_job message_id job_id callback_url decoded =
      Results.◌>>=◌ (item "ir_json" decoded) λ ir_json.
        Results.◌>>=◌ (from_json env.decode_json ir_json) λ ir.
          Results.◌>>=◌ (item "shots" decoded) λ shots_text.
            Results.◌>>=◌ (int_item shots_text) λ shots. ok (record {
              message_id = message_id;
              job_id = job_id;
              callback_url = callback_url;
              ir = ir;
              shots = shots;
            })

  abbrev pub drop_message : String → Action World (Option Parsed)
  drop_message message_id = do safe_xack env message_id; pure none

  -- `except Exception`
  unfoldable pub keep_parsed : String → Result Parsed → Action World (Option Parsed)
  keep_parsed message_id (ok job) = pure (some job)
  keep_parsed message_id (raise e) = if is_exception e then drop_message message_id else throw e

  unfoldable pub check_job :
      String → List (String × String) → Option (String × String) → Action World (Option Parsed)
  check_job message_id decoded none = drop_message message_id
  check_job message_id decoded (some (job_id, callback_url)) = do
    status ← get_job_status env job_id
    if is_settled status then drop_message message_id else do
      flagged ← has_cancel_signal env job_id
      if flagged
          then (do mark_job_cancelled env job_id message_id; drop_message message_id)
          else keep_parsed message_id (parse_job message_id job_id callback_url decoded)

  -- one round of the first loop: the job, if the message passes the checks
  unfoldable pub check_message : Message → Action World (Option Parsed)
  check_message (message_id, fields) = do
    decoded ← lift (decode_fields env fields)
    check_job message_id decoded (required decoded)

  abbrev pub add_job : Option Parsed → List Parsed → List Parsed
  add_job none jobs = jobs
  add_job (some job) jobs = job ∷ jobs

  unfoldable pub check_messages : List Message → Action World (List Parsed)
  check_messages [] = pure []
  check_messages (m ∷ messages) = do
    job ← check_message m
    jobs ← check_messages messages
    pure (add_job job jobs)

  unfoldable pub mark_executing : List Parsed → Action World (Unit {0})
  mark_executing [] = pure tt
  mark_executing (job ∷ jobs) = do
    set_state env job.job_id "executing" "started_at" (("qpu_id", env.qpu_id) ∷ [])
    mark_executing jobs

  -- the fallback, over all messages that were read
  unfoldable pub process_each : List Message → Action World (Unit {0})
  process_each [] = pure tt
  process_each ((message_id, fields) ∷ messages) = do
    process_message env message_id fields
    process_each messages

  unfoldable pub fall_back : List Message → Action World (Option Delivery)
  fall_back messages = do process_each messages; pure none

  -- the call of `batch_run`, if the executor has it at dispatch time
  unfoldable pub run_batch :
      List Message
      → List Parsed
      → Option (List (NativeGateIr × ℤ) → Result (List ExecutionResult))
      → Action World (Option Delivery)
  run_batch messages jobs none = fall_back messages
  run_batch messages jobs (some batch_run) =
      try
        (do
          results ←
              call (λ _. batch_run (map (λ job. (job.ir, job.shots)) jobs))
                (λ _. batch_started (length jobs))
          pure (some (scheduled jobs results)))
        λ e. if is_exception e then fall_back messages else throw e

  -- `_process_batch`
  unfoldable pub process_batch : List Message → Action World (Option Delivery)
  process_batch messages = do
    jobs ← check_messages messages
    if is_empty jobs then pure none else do
      modify (λ s. record s { idle = false })
      mark_executing jobs
      found ← gets (λ s. env.batch_run s.now)
      run_batch messages jobs found

  -- `await self._mark_job_cancelled(…)` and `await self._safe_xack(…)`
  unfoldable pub withdraw : Parsed → Action World (Unit {0})
  withdraw job = do mark_job_cancelled env job.job_id job.message_id; skip env job.message_id

  -- `_deliver_single_batch_result`
  unfoldable pub deliver_one : Parsed → ExecutionResult → String → Action World (Unit {0})
  deliver_one job result completed_at = do
    flagged ← has_cancel_signal env job.job_id
    if flagged then withdraw job else do
      safe_hset env (status_key job.job_id)
          (("state", "completed") ∷ ("completed_at", completed_at) ∷ [])
      again ← has_cancel_signal env job.job_id
      if again then withdraw job else do
        try (send env job.callback_url (completed_payload job.job_id result))
            λ e. if is_exception e then pure tt else throw e
        skip env job.message_id

  -- every delivery is run, whether or not others raise
  unfoldable pub deliver_each :
      List (Parsed × ExecutionResult) → String → Action World (Result (Unit {0}))
  deliver_each [] completed_at s = (ok (ok tt), s)
  deliver_each ((job, result) ∷ rest) completed_at s =
      let (r, s') = deliver_one job result completed_at s in
      let (others, s'') = deliver_each rest completed_at s' in
      (elim others [ ok o ↦ ok (first_failure r o) | raise e ↦ raise e ], s'')

  unfoldable pub deliver_pairs :
      Option (List (Parsed × ExecutionResult)) → String → Action World (Unit {0})
  deliver_pairs none at = throw (value_error "zip() arguments have unequal lengths")
  deliver_pairs (some pairs) at = do
    outcome ← deliver_each pairs at
    lift outcome
    modify (λ s. record s { last_job_at = some at })

  -- `_deliver_batch_results`
  unfoldable pub deliver_batch : List Parsed → List ExecutionResult → Action World (Unit {0})
  deliver_batch jobs results = do
    at ← gets (λ s. env.iso s.now)
    finally (deliver_pairs (zip_strict jobs results) at) (modify (λ s. record s { idle = true }))
