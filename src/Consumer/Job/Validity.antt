-- ===== src/Consumer/Job/Validity.antt =====
-- src/coda_node/server/consumer.py, `_process_message`: the circuits that reach the executor.
use coda_self_service.Prelude.{
  ◌≡◌, refl, sym, subst, String, true, false, Option, none, some, List, All,
}
use coda_self_service.Prelude.Int.{ℤ}
use coda_self_service.Prelude.Text.{clip}
use coda_self_service.Ir.{NativeGateIr, from_json}
use coda_self_service.Ir.Validity.{IsValid}
use coda_self_service.Ir.Decoding.{from_json_sound}
use coda_self_service.Webhook.{error_payload}
use coda_self_service.Effects.{
  Exc, job_cancelled, Result, ok, raise, Action, lift, ◌>>=◌, finally, modify,
}
use coda_self_service.Effects.Rules.{
  Post, Keeps, Keeps-lift, Keeps-gets, Keeps-bind, Keeps-modify, Keeps-finally, keeps_rules,
  Post-bind, Post-if, Post-Keeps, Post-weaken, Post-try, Post-finally, Outcome-both, Post_always,
}
use coda_self_service.Consumer.State.{Fields, World, Env, call}
use coda_self_service.Consumer.Redis.{decode_fields}
use coda_self_service.Consumer.Job.{
  is_settled, set_live, reset_in_flight, set_in_flight, set_last_job, required, start_run, run_job,
  raise_if_cancelled, set_state, execute, report_failure, handle_exception, handle, finish,
  run_message, skip, admit_message, dispatch, process_message,
}
use coda_self_service.Consumer.Job.Circuits.{
  executed, circuits, safe_hset-circuits, safe_xack-circuits, has_cancel_signal-circuits,
  get_job_status-circuits, mark_job_cancelled-circuits, poll-circuits, cancel_if_live-circuits,
  send-circuits,
}

abbrev pub AllValid : World → Type 0
AllValid s = All IsValid (executed s.trace)

abbrev Safe : {A : Type 0} → Result A × World → Type 0
Safe = Post (λ _ t. AllValid t) (λ _ t. AllValid t)

Keeps-Safe :
    {A : Type 0} (m : Action World A) (t : World) → Keeps circuits m → AllValid t → Safe (m t)
Keeps-Safe m t k h =
    Post-weaken _ (Post-Keeps m t k) (λ _ u e. subst (All IsValid) (sym e) h)
      (λ _ u e. subst (All IsValid) (sym e) h)

-- what is decoded is valid, or raises
decoded-Safe :
    (decode : String → Result NativeGateIr) (text : String) (s : World)
    → AllValid s
    → Post (λ ir t. IsValid ir × AllValid t) (λ _ t. AllValid t) (lift (from_json decode text) s)
unfolding lift
decoded-Safe decode text s h =
    by_result (from_json decode text) (λ ir e. (from_json_sound decode text e).1)
  where
    by_result :
        (r : Result NativeGateIr)
        → ((ir : NativeGateIr) → r ≡ ok ir → IsValid ir)
        → Post (λ ir t. IsValid ir × AllValid t) (λ _ t. AllValid t) (r, s)
    by_result (ok ir) sound = record { holds = (sound ir refl, h) }
    by_result (raise e) sound = record { holds = h }

module _ (env : Env) where
  start_run-Safe :
      (ir : NativeGateIr) (shots : ℤ) (s : World)
      → IsValid ir
      → AllValid s
      → Safe (start_run env ir shots s)
  unfolding start_run set_live modify call ◌>>=◌
  start_run-Safe ir shots s valid h = record { holds = (valid, h) }

  run_job-Safe :
      (job : String) (ir : NativeGateIr) (shots : ℤ) (s : World)
      → IsValid ir
      → AllValid s
      → Safe (run_job env job ir shots s)
  unfolding run_job
  run_job-Safe job ir shots s valid h =
      Post-bind _ _ s (start_run-Safe ir shots s valid h) λ task t k.
        Keeps-Safe _ t (Keeps-finally _ _ (poll-circuits env _ _ job) (cancel_if_live-circuits env))
          k

  raise_if_cancelled-circuits : (job : String) → Keeps circuits (raise_if_cancelled env job)
  unfolding raise_if_cancelled
  raise_if_cancelled-circuits job = search (keeps_rules, has_cancel_signal-circuits env) depth 14

  set_last_job-circuits : (at : String) → Keeps circuits (set_last_job at)
  unfolding set_last_job
  set_last_job-circuits at = Keeps-modify (λ s. record s { last_job_at = some at }) (λ s. refl)

  set_state-circuits :
      (job state stamp : String) (more : List (String × String))
      → Keeps circuits (set_state env job state stamp more)
  set_state-circuits job state stamp more = search (keeps_rules, safe_hset-circuits env) depth 14

  execute-Safe :
      (job url : String) (d : List (String × String)) (s : World)
      → AllValid s
      → Safe (execute env job url d s)
  unfolding execute
  execute-Safe job url d s h = Post-bind _ _ s (Keeps-Safe _ s (Keeps-lift _) h) λ ir_json t k.
      Post-bind _ _ t (decoded-Safe env.decode_json ir_json t k) λ ir u (valid, l).
        Post-bind _ _ u (Keeps-Safe _ u (Keeps-lift _) l) λ shots_text v m.
          Post-bind _ _ v (Keeps-Safe _ v (Keeps-lift _) m) λ shots w n.
            Post-bind _ _ w (run_job-Safe job ir shots w valid n) λ result x o.
              let flag = raise_if_cancelled-circuits job in
              Keeps-Safe _ x
                (Keeps-bind _ _ flag λ _. Keeps-bind _ _ (set_state-circuits job _ _ _) λ _.
                  Keeps-bind _ _ flag λ _.
                    Keeps-bind _ _ (send-circuits env _ _)
                      λ _. Keeps-bind _ _ (Keeps-gets _) λ at. set_last_job-circuits at)
                o

  report_failure-circuits :
      (job url error : String) → Keeps circuits (report_failure env job url error)
  unfolding report_failure
  report_failure-circuits job url error =
      let sent = send-circuits env url (error_payload job error) in
      search (keeps_rules, safe_hset-circuits env) depth 14

  handle_exception-circuits :
      (id job url : String) (e : Exc) → Keeps circuits (handle_exception env id job url e)
  unfolding handle_exception
  handle_exception-circuits id job url e =
      let marked = mark_job_cancelled-circuits env job id in
      let reported = report_failure-circuits job url (clip 500 (env.message e)) in
      search (keeps_rules, has_cancel_signal-circuits env) depth 14

  handle-circuits : (id job url : String) (e : Exc) → Keeps circuits (handle env id job url e)
  unfolding handle
  handle-circuits id job url job_cancelled = mark_job_cancelled-circuits env job id
  handle-circuits id job url e = handle_exception-circuits id job url e

  reset_in_flight-circuits : Keeps circuits reset_in_flight
  unfolding reset_in_flight
  reset_in_flight-circuits =
      Keeps-modify (λ s. record s { current_job_id = none; idle = true }) (λ s. refl)

  set_in_flight-circuits : (job : String) → Keeps circuits (set_in_flight job)
  unfolding set_in_flight
  set_in_flight-circuits job =
      Keeps-modify (λ s. record s { idle = false; current_job_id = some job }) (λ s. refl)

  finish-circuits : (id : String) → Keeps circuits (finish env id)
  unfolding finish
  finish-circuits id =
      search (keeps_rules, safe_xack-circuits env, reset_in_flight-circuits) depth 14

  finally-Safe :
      (m : Action World (Unit {0})) (id : String) (s : World)
      → Safe (m s)
      → Safe (finally m (finish env id) s)
  finally-Safe m id s h = Post-finally m (finish env id) s (
      Post-weaken _ (Keeps-Safe _ (m s).1 (finish-circuits id) (Post_always _ h))
        (λ _ t k. Outcome-both (λ _ u. AllValid u) (λ _ u. AllValid u) (m s).0 t (λ _. k) (λ _. k))
        (λ _ _ k. k))

  run_message-Safe :
      (id job url : String) (d : List (String × String)) (s : World)
      → AllValid s
      → Safe (run_message env id job url d s)
  unfolding run_message
  run_message-Safe id job url d s h =
      Post-bind _ _ s (Keeps-Safe _ s (set_in_flight-circuits job) h) λ _ t k.
        Post-bind _ _ t (Keeps-Safe _ t (set_state-circuits job _ _ _) k) λ _ u l.
          finally-Safe _ id u (
            Post-try _ _ u (execute-Safe job url d u l)
              λ e v m. Keeps-Safe _ v (handle-circuits id job url e) m)

  skip-circuits : (id : String) → Keeps circuits (skip env id)
  skip-circuits id = search (keeps_rules, safe_xack-circuits env) depth 14

  admit_message-Safe :
      (id job url : String) (d : List (String × String)) (s : World)
      → AllValid s
      → Safe (admit_message env id job url d s)
  unfolding admit_message
  admit_message-Safe id job url d s h =
      Post-bind _ _ s (Keeps-Safe _ s (get_job_status-circuits env job) h) λ status t k.
        Post-if (is_settled status) _ _ t (λ _. Keeps-Safe _ t (skip-circuits id) k)
          λ _.
            Post-bind _ _ t (Keeps-Safe _ t (has_cancel_signal-circuits env job) k) λ flagged u l.
              Post-if flagged _ _ u
                (λ _.
                  Keeps-Safe _ u
                    (Keeps-bind _ _ (mark_job_cancelled-circuits env job id)
                      (λ _. skip-circuits id))
                    l)
                (λ _. run_message-Safe id job url d u l)

  dispatch-Safe :
      (id : String) (d : List (String × String)) (keys : Option (String × String)) (s : World)
      → AllValid s
      → Safe (dispatch env id d keys s)
  dispatch-Safe id d none s h = Keeps-Safe _ s (skip-circuits id) h
  dispatch-Safe id d (some (job, url)) s h = admit_message-Safe id job url d s h

  -- If every circuit that the executor was started with is valid, that is so after `_process_message`
  -- too, whatever the message and the outside are and however the call ends.
  pub process_message-AllValid :
      (id : String) (fields : Fields) (s : World)
      → All IsValid (executed s.trace)
      → All IsValid (executed (process_message env id fields s).1.trace)
  unfolding process_message
  process_message-AllValid id fields s h = Post_always _ (
      Post-bind _ _ s (Keeps-Safe _ s (Keeps-lift (decode_fields env fields)) h)
        λ d t k. dispatch-Safe id d (required d) t k)
