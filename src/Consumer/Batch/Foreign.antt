-- ===== src/Consumer/Batch/Foreign.antt =====
-- src/coda_node/server/consumer.py, `_process_batch`: it acknowledges no message of another batch.
use coda_self_service.Prelude.{
  ◌≡◌, refl, inl, inr, ap, String, true, false, Option, none, some, List, [], ◌∷◌, map, contains,
  All, length, arith, if◌then◌else◌,
}
use coda_self_service.Prelude.Int.{ℤ}
use coda_self_service.Ir.{NativeGateIr}
use coda_self_service.Effects.{Result, ok, raise, modify}
use coda_self_service.Effects.Rules.{Keeps, keeps_rules, Post_always, Post-weaken, Keeps-modify}
use coda_self_service.Consumer.State.{
  xack, Message, ExecutionResult, Parsed, batch_started, World, Env, call,
}
use coda_self_service.Consumer.Redis.{safe_xack}
use coda_self_service.Consumer.Redis.Views.{
  get_job_status-view, has_cancel_signal-view, mark_job_cancelled-view,
}
use coda_self_service.Consumer.Job.{required, process_message}
use coda_self_service.Consumer.Job.Views.{set_state-view}
use coda_self_service.Consumer.Job.Acknowledgement.{process_message-Handles}
use coda_self_service.Consumer.Trace.{acked, Blind}
use coda_self_service.Consumer.Batch.{
  drop_message, keep_parsed, parse_job, check_job, check_message, check_messages, mark_executing,
  process_each, fall_back, run_batch, process_batch,
}

abbrev pub message_ids : List Message → List String
message_ids messages = map (λ m. m.0) messages

-- those that are not among some identifiers
abbrev pub others : List String → List String → List String
others ids [] = []
others ids (x ∷ xs) = let rest = others ids xs in if contains ids x then rest else x ∷ rest

-- the acknowledgements of messages that are not among them
abbrev pub foreign_acks : List String → World → List String
foreign_acks ids s = others ids (acked s.trace)

module _ (ids : List String) where
  foreign_acks-Blind : Blind (foreign_acks ids)
  foreign_acks-Blind = record {
    deaf = record { event = λ e q s n. ground arith; live = λ s b. refl };
    read = λ job flag s n. refl;
    unread = λ job s n. refl;
  }

module _ (env : Env) (ids : List String) where
  safe_xack-foreign_acks :
      (id : String) → contains ids id ≡ true → Keeps (foreign_acks ids) (safe_xack env id)
  unfolding safe_xack call
  safe_xack-foreign_acks id own =
      let sent : Keeps (foreign_acks ids) (call (λ t. env.xack_reply t id) (λ _. xack id)) =
        record { at = λ s. rw own refl } in
      search keeps_rules depth 14

  drop_message-foreign_acks :
      (id : String) → contains ids id ≡ true → Keeps (foreign_acks ids) (drop_message env id)
  drop_message-foreign_acks id own = let sent = safe_xack-foreign_acks id own in search keeps_rules

  keep_parsed-foreign_acks :
      (id : String) (r : Result Parsed)
      → contains ids id ≡ true
      → Keeps (foreign_acks ids) (keep_parsed env id r)
  unfolding keep_parsed
  keep_parsed-foreign_acks id (ok job) own = search keeps_rules
  keep_parsed-foreign_acks id (raise e) own =
      let sent = drop_message-foreign_acks id own in search keeps_rules depth 14

  check_job-foreign_acks :
      (id : String) (d : List (String × String)) (keys : Option (String × String))
      → contains ids id ≡ true
      → Keeps (foreign_acks ids) (check_job env id d keys)
  unfolding check_job
  check_job-foreign_acks id d none own = drop_message-foreign_acks id own
  check_job-foreign_acks id d (some (job_id, url)) own =
      let sent = drop_message-foreign_acks id own in
      let blind = foreign_acks-Blind ids in
      let status = get_job_status-view env blind.deaf job_id in
      let flag = has_cancel_signal-view env blind job_id in
      let marked = mark_job_cancelled-view env blind.deaf job_id id in
      let parsed = keep_parsed-foreign_acks id (parse_job env id job_id url d) own in
      search keeps_rules depth 20

  check_message-foreign_acks :
      (m : Message) → contains ids m.0 ≡ true → Keeps (foreign_acks ids) (check_message env m)
  unfolding check_message
  check_message-foreign_acks (id, fields) own =
      let checked = λ (d : List (String × String)). check_job-foreign_acks id d (required d) own in
      search keeps_rules depth 14

  check_messages-foreign_acks :
      (messages : List Message)
      → All (λ m. contains ids m.0 ≡ true) messages
      → Keeps (foreign_acks ids) (check_messages env messages)
  unfolding check_messages
  check_messages-foreign_acks [] own = search keeps_rules
  check_messages-foreign_acks (m ∷ messages) (here, own) =
      let first = check_message-foreign_acks m here in
      let later = check_messages-foreign_acks messages own in search keeps_rules depth 14

  mark_executing-foreign_acks :
      (jobs : List Parsed) → Keeps (foreign_acks ids) (mark_executing env jobs)
  unfolding mark_executing
  mark_executing-foreign_acks [] = search keeps_rules
  mark_executing-foreign_acks (job ∷ jobs) =
      let later = mark_executing-foreign_acks jobs in
      let blind = foreign_acks-Blind ids in
      let marked =
        set_state-view env blind.deaf job.job_id "executing" "started_at"
          (("qpu_id", env.qpu_id) ∷ []) in
      search keeps_rules depth 14

  pub process_message-foreign_acks :
      (m : Message)
      → contains ids m.0 ≡ true
      → Keeps (foreign_acks ids) (process_message env m.0 m.1)
  process_message-foreign_acks m own = record {
    at = λ s. Post_always _ (
        Post-weaken _ (process_message-Handles env m.0 s m.1)
          (λ _ t h. elim h [
            | inl sent ↦ one s t (ap (λ l. l.acks) sent)
            | inr closed ↦ one s t (ap (λ l. l.acks) closed)
          ])
          (λ _ t h. elim h [ inl e ↦ ap (others ids) e | inr e ↦ one s t e ]));
  }
    where
      one :
          (s t : World)
          → acked t.trace ≡ m.0 ∷ acked s.trace
          → foreign_acks ids t ≡ foreign_acks ids s
      one s t e = rw (e, own) refl

  process_each-foreign_acks :
      (messages : List Message)
      → All (λ m. contains ids m.0 ≡ true) messages
      → Keeps (foreign_acks ids) (process_each env messages)
  unfolding process_each
  process_each-foreign_acks [] own = search keeps_rules
  process_each-foreign_acks (m ∷ messages) (here, own) =
      let first = process_message-foreign_acks m here in
      let later = process_each-foreign_acks messages own in search keeps_rules depth 14

  module _ (messages : List Message) (own : All (λ m. contains ids m.0 ≡ true) messages) where
    fall_back-foreign_acks : Keeps (foreign_acks ids) (fall_back env messages)
    unfolding fall_back
    fall_back-foreign_acks =
        let each = process_each-foreign_acks messages own in search keeps_rules depth 14

    run_batch-foreign_acks :
        (jobs : List Parsed)
        (found : Option (List (NativeGateIr × ℤ) → Result (List ExecutionResult)))
        → Keeps (foreign_acks ids) (run_batch env messages jobs found)
    unfolding run_batch call
    run_batch-foreign_acks jobs none = fall_back-foreign_acks
    run_batch-foreign_acks jobs (some batch_run) =
        let each = fall_back-foreign_acks in
        let started : Keeps (foreign_acks ids) (
            call (λ _. batch_run (map (λ job. (job.ir, job.shots)) jobs))
              (λ _. batch_started (length jobs))) =
          record { at = λ s. refl } in
        search keeps_rules depth 14

    pub process_batch-foreign_acks : Keeps (foreign_acks ids) (process_batch env messages)
    unfolding process_batch
    process_batch-foreign_acks =
        let checked = check_messages-foreign_acks messages own in
        let busy : Keeps (foreign_acks ids) (modify (λ s. record s { idle = false })) =
          Keeps-modify _ (λ s. refl) in
        search (keeps_rules, mark_executing-foreign_acks, run_batch-foreign_acks) depth 20
