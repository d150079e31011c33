-- ===== src/Consumer/Tests.antt =====
-- Runs of the consumer on concrete inputs, and the theorems applied to them.
use coda_self_service.Prelude.{
  String, List, map, str_eq, if◌then◌else◌, All, not, ◌||◌, ◌≡◌, refl, true, false, none, some, [],
  ◌∷◌, lookup, insert,
}
use coda_self_service.Prelude.Int.{ℤ, pos}
use coda_self_service.Prelude.Text.{int_of}
use coda_self_service.Ir.{
  NativeGateIr, cz, from_json, validate, validate_target, check_shapes, validate_gate_shape,
  check_shape, check_params, gate_specs, legal_gates, validate_consistency, check_gates,
  check_qubits, check_measurements,
}
use coda_self_service.Effects.{connection_error, other_error, Result, ok, raise, ◌>>=◌}
use coda_self_service.Effects.Rules.{Post}
use coda_self_service.Consumer.State.{
  ExecutionResult, Message, text, Fields, Parsed, scheduled, finished, World, Env, call,
}
use coda_self_service.Consumer.Trace.{late_posts}
use coda_self_service.Consumer.Redis.{
  safe_hset, safe_xack, status_text, decode_fields, decode_into, decode_raw, has_cancel_signal,
}
use coda_self_service.Consumer.Batch.{
  process_batch, zip_strict, deliver_one, deliver_each, deliver_pairs, deliver_batch,
}
use coda_self_service.Consumer.Job.{send, send, run_job, process_message}
use coda_self_service.Consumer.Job.Acknowledgement.{Closed, Sent, AtMostOnce, process_message-acks}
use coda_self_service.Consumer.Job.Calm.{Undisturbed}
use coda_self_service.Consumer.Job.Posting.{report, job_outcome}
use coda_self_service.Consumer.Job.Reported.{Reports, process_message-Reports}
use coda_self_service.Consumer.Job.Cancellation.{process_message-late}
use coda_self_service.Consumer.Batch.Foreign.{message_ids, foreign_acks}
use coda_self_service.Consumer.Batch.Settled.{Settles, process_batch-Settles}
use coda_self_service.Consumer.Batch.Single.{deliver_one-acks}
use coda_self_service.Ir.Validity.{IsValid}
use coda_self_service.Consumer.Job.Circuits.{executed}
use coda_self_service.Consumer.Job.Validity.{process_message-AllValid}
use coda_self_service.Consumer.Job.TaskEnd.{just_cancelled, run_job-ends}
use coda_self_service.Consumer.Loop.Recovery.{Recovers, recover_pending-Recovers}
use coda_self_service.Consumer.Loop.{
  drain, stop, wait_idle, wait_beside, drain_delivery, recover_pending, Locals, await_delivery,
  settle_delivery, consume,
}
use coda_self_service.Consumer.Loop.FailedDelivery.{served, consume-served}
use coda_self_service.Consumer.Loop.Backoff.{failed, waits_of, consume-lost_connection}

abbrev bell : NativeGateIr
bell = record {
  version = "1.0";
  target = "cz";
  num_qubits = pos 2;
  gates = record { gate = cz; qubits = pos 0 ∷ pos 1 ∷ []; params = [] } ∷ [];
  measurements = pos 0 ∷ pos 1 ∷ [];
  metadata = record {
    source_hash = "abc";
    compiled_at = "2026-01-01";
    compiler_version = "0.1.0";
    optimization_level = pos 2;
  };
}

abbrev counted : ExecutionResult
counted = record {
  counts = ("00", pos 4) ∷ [];
  execution_time_ms = record { bits = 0 };
  shots_completed = pos 4;
}

-- an outside in which every call succeeds; the executor is done after one wait
abbrev pub calm : Env
calm = record {
  qpu_id = "qpu-1";
  can_batch = false;
  decode_bytes = λ _. ok "";
  decode_json = λ _. ok bell;
  message = λ _. "boom";
  iso = λ _. "now";
  monotonic = λ n. n;
  xgroup_create = λ _. ok tt;
  xpending_range = λ _. ok [];
  xrange = λ _ _. ok [];
  xreadgroup = λ _ _. ok [];
  hget = λ _ _. ok none;
  get = λ _ _. ok none;
  hset_reply = λ _ _. ok tt;
  xack_reply = λ _ _. ok tt;
  run = λ _ _ _. record { polls = 1; outcome = ok counted };
  wait = λ _. ok tt;
  settle = λ _. ok tt;
  cancel_current_job = none;
  batch_run = λ _. none;
  send_result = λ _ _ _. ok tt;
  sleep = λ _. ok tt;
  idle_in_time = λ _. true;
  delivery_in_time = λ _. true;
  meanwhile = λ _ s. record s { idle = true };
  stopped = λ _. false;
}

abbrev pub start : World
start = record {
  now = 0;
  trace = [];
  running = true;
  idle = true;
  pending_batch_delivery = none;
  current_job_id = none;
  last_job_at = none;
  redis_healthy = true;
  run_task_live = false;
}

abbrev fields : Fields
fields =
    (text "job_id", text "j1")
    ∷ (text "callback_url", text "http://cb")
    ∷ (text "ir_json", text "{}")
    ∷ (text "shots", text "4")
    ∷ []

process_message-acks_example :
    Post
      (λ _ s'. Closed "1-0" start s')
      (λ _ s'. AtMostOnce "1-0" start s')
      (process_message calm "1-0" fields start)
process_message-acks_example = process_message-acks calm "1-0" start (refl, refl) fields

process_message-late_example : late_posts "j1" (process_message calm "1-0" fields start).1.trace ≡ 0
unfolding decode_fields decode_into decode_raw lookup insert
process_message-late_example = process_message-late calm "1-0" fields start refl refl refl refl

-- XREADGROUP loses the connection
abbrev outage : Env
outage = record calm { xreadgroup = λ _ _. raise connection_error }

abbrev third : Locals
third = record { consecutive_failures = 2; last_pending_check = 0 }

-- three rounds, with the waits 1, 2 and 4
consume-lost_connection_example :
    ((consume outage 3 (failed third 0) start).0 ≡ ok (failed third 3))
    × (waits_of (consume outage 3 (failed third 0) start).1.trace ≡ 4 ∷ 2 ∷ 1 ∷ [])
consume-lost_connection_example =
    consume-lost_connection outage third connection_error (λ t. refl) refl (λ t. refl) (λ t. refl) 3
      start refl

-- the delivery of a batch cannot read the cancel flag
abbrev unreadable : Env
unreadable = record calm { get = λ _ _. raise (other_error "decode") }

abbrev job : Parsed
job = record {
  message_id = "1-0";
  job_id = "j1";
  callback_url = "http://cb";
  ir = bell;
  shots = pos 4;
}

deliver_one-acks_example :
    Post
      (λ _ t. Sent "1-0" start tt t)
      (λ _ t. AtMostOnce "1-0" start t)
      (deliver_one calm job counted "now" start)
deliver_one-acks_example = deliver_one-acks calm job counted "now" start

-- the task of a delivery that has raised stays where it is
abbrev raised : World
raised = (settle_delivery unreadable (some (scheduled (job ∷ []) (counted ∷ []))) start).1

raised_kept : raised.pending_batch_delivery ≡ some (finished (raise (other_error "decode")))
unfolding settle_delivery await_delivery deliver_batch deliver_pairs zip_strict deliver_each
    deliver_one has_cancel_signal call ◌>>=◌
raised_kept = refl

consume-served_example : served (consume unreadable 5 third raised).1 ≡ served raised
consume-served_example = consume-served unreadable raised raised_kept 5 third

run_job-ends_example :
    let t = (run_job calm "j1" bell (pos 4) start).1 in
    (not t.run_task_live || just_cancelled t.trace) ≡ true
run_job-ends_example = run_job-ends calm "j1" bell (pos 4) start

process_message-AllValid_example :
    All IsValid (executed (process_message calm "1-0" fields start).1.trace)
process_message-AllValid_example = process_message-AllValid calm "1-0" fields start tt

-- an executor that runs batches, and a flag that says that the second job was cancelled
abbrev batching : Env
batching = record calm {
  batch_run = λ _. some (λ jobs. ok (map (λ _. counted) jobs));
  get = λ _ key. if str_eq key "qpu:job:cancelled:j2" then ok (some (text "1")) else ok none;
}

abbrev second : Fields
second = (text "job_id", text "j2") ∷ (text "callback_url", text "http://cb") ∷ []

abbrev batch : List Message
batch = ("1-0", fields) ∷ ("1-1", second) ∷ []

process_batch-Settles_example :
    Post
      (Settles batching batch start)
      (λ _ t. foreign_acks (message_ids batch) t ≡ foreign_acks (message_ids batch) start)
      (process_batch batching batch start)
process_batch-Settles_example = process_batch-Settles batching batch start

abbrev decoded : List (String × String)
decoded = ("job_id", "j1") ∷ ("callback_url", "http://cb") ∷ ("ir_json", "{}") ∷ ("shots", "4") ∷ []

abbrev counts_of : NativeGateIr → ℤ → Result ExecutionResult
counts_of _ _ = ok counted

calm-Undisturbed : Undisturbed calm "j1"
unfolding status_text
calm-Undisturbed = record {
  unsettled = λ _. (none, (refl, refl));
  unflagged = λ _. refl;
  written = λ _ _. tt;
  sent = λ _ _. tt;
  waits = λ _. refl;
}

process_message-Reports_example :
    Post
      (λ _ t.
        Reports "1-0" "http://cb" (report calm "j1" (job_outcome calm counts_of decoded)) start t)
      (λ _ _. ⊥)
      (process_message calm "1-0" fields start)
unfolding decode_fields decode_into decode_raw lookup insert from_json validate validate_target
    check_shapes validate_gate_shape check_shape check_params gate_specs legal_gates
    validate_consistency check_gates check_qubits check_measurements int_of
process_message-Reports_example =
    process_message-Reports calm "j1" "http://cb" counts_of calm-Undisturbed (λ _ _ _. refl)
      (λ _ _. refl) "1-0" fields decoded start refl refl tt

-- two messages are pending, and the stream has only the first
abbrev backlog : Env
backlog = record calm {
  xpending_range = λ _. ok ("1-0" ∷ "1-1" ∷ []);
  xrange = λ _ id. if str_eq id "1-0" then ok (("1-0", fields) ∷ []) else ok [];
}

recover_pending-Recovers_example :
    Post
      (Recovers ("1-0" ∷ "1-1" ∷ []) start)
      (λ _ t. foreign_acks ("1-0" ∷ "1-1" ∷ []) t ≡ foreign_acks ("1-0" ∷ "1-1" ∷ []) start)
      (recover_pending backlog start)
recover_pending-Recovers_example = recover_pending-Recovers backlog ("1-0" ∷ "1-1" ∷ []) start refl

abbrev delivering : World
delivering = record start { pending_batch_delivery = some (scheduled (job ∷ []) (counted ∷ [])) }

-- a delivery is scheduled while `drain` waits for the job in flight
abbrev busy : Env
busy = record calm {
  meanwhile = λ _ s. record s {
    idle = true;
    pending_batch_delivery = some (scheduled (job ∷ []) (counted ∷ []));
  };
}

drained_runs : (drain calm delivering).0 ≡ ok true
unfolding drain stop wait_idle wait_beside drain_delivery await_delivery deliver_batch deliver_pairs
    zip_strict deliver_each deliver_one has_cancel_signal call ◌>>=◌ safe_hset send safe_xack
drained_runs = refl
