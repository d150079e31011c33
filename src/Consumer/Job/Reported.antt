-- ===== src/Consumer/Job/Reported.antt =====
-- src/coda_node/server/consumer.py, `_process_message`: the result or the error of a job is posted.
use coda_self_service.Prelude.{◌≡◌, ap, ◌∙◌, ℕ, String, some, List, ◌∷◌, arith}
use coda_self_service.Prelude.Int.{ℤ}
use coda_self_service.Ir.{NativeGateIr}
use coda_self_service.Webhook.{WebhookPayload}
use coda_self_service.Effects.{Result, ok, raise, lift, ◌>>=◌}
use coda_self_service.Effects.Rules.{
  Post, Post-and, Post-bind, Post-weaken, Post-finally, Post-modify, Outcome,
}
use coda_self_service.Consumer.State.{Fields, ExecutionResult, World, Env, call}
use coda_self_service.Consumer.Redis.{decode_fields, safe_xack}
use coda_self_service.Consumer.Redis.Views.{has_cancel_signal-view, get_job_status-view}
use coda_self_service.Consumer.Trace.{posted, acked}
use coda_self_service.Consumer.Job.{
  required, set_in_flight, reset_in_flight, finish, run_message, admit_message, process_message,
}
use coda_self_service.Consumer.Job.Views.{set_state-view}
use coda_self_service.Consumer.Job.Calm.{
  Undisturbed, Never, safe_xack-returns, has_cancel_signal-returns, get_job_status-returns,
  set_state-returns,
}
use coda_self_service.Consumer.Job.Posting.{
  told, Told, told-Blind, calmly, Reportable, job_outcome, report, Posts, settle-Posts,
}

-- the webhook has been posted, and the message acknowledged
abbrev pub Reports : String → String → WebhookPayload → World → World → Type 0
Reports id url payload s t =
    told t ≡ record { posts = (url, payload) ∷ posted s.trace; acks = id ∷ acked s.trace }

module _ (env : Env) (job_id url : String) (ran : NativeGateIr → ℤ → Result ExecutionResult)
    (calm : Undisturbed env job_id)
    (runs : (n : ℕ) (ir : NativeGateIr) (shots : ℤ) → (env.run n ir shots).outcome ≡ ran ir shots)
    (sends : (n : ℕ) (payload : WebhookPayload) → env.send_result n url payload ≡ ok tt) where
  safe_xack-told :
      (id : String) (s : World)
      → told (safe_xack env id s).1 ≡ record (told s) { acks = id ∷ acked s.trace }
  unfolding safe_xack call ◌>>=◌
  safe_xack-told id s = ground arith

  finish-Reports :
      (id : String) (payload : WebhookPayload) (s t : World)
      → Posts url payload s t
      → Post (λ _ u. Reports id url payload s u) Never (finish env id t)
  unfolding finish reset_in_flight
  finish-Reports id payload s t h =
      Post-bind {R = λ _ u. Reports id url payload s u} _ _ t
        (Post-weaken _
          (Post-and {P = λ u. told u ≡ record (told t) { acks = id ∷ acked t.trace }} _
            (safe_xack-returns env job_id calm id t) (safe_xack-told id t))
          (λ _ u (_, k). k ∙ ap (λ (l : Told). record l { acks = id ∷ l.acks }) h)
          (λ _ _ h. absurd h.0))
        λ _ u k. Post-modify _ u k

  finish_after :
      (id : String) (payload : WebhookPayload) (s : World) (r : Result (Unit {0}) × World)
      → Post (λ _ u. Posts url payload s u) Never r
      → Post
          (λ _ u. Outcome (λ _ v. Reports id url payload s v) Never (r.0, u))
          Never
          (finish env id r.1)
  finish_after id payload s (ok _, u) h = finish-Reports id payload s u h.holds
  finish_after id payload s (raise x, u) h = absurd h.holds

  run_message-Reports :
      (id : String) (d : List (String × String)) (s t : World)
      → Reportable (job_outcome env ran d)
      → told t ≡ told s
      → Post
          (λ _ u. Reports id url (report env job_id (job_outcome env ran d)) s u)
          Never
          (run_message env id job_id url d t)
  unfolding run_message set_in_flight
  run_message-Reports id d s t reportable e =
      Post-bind {R = λ _ u. told u ≡ told s} _ _ t (Post-modify _ t e) λ _ u a.
        Post-bind _ _ u
          (calmly _ u (set_state-view env told-Blind.deaf job_id _ _ _)
            (set_state-returns env job_id calm _ _ _ u))
          λ _ v (_, b). Post-finally _ _ v (
            finish_after id (report env job_id (job_outcome env ran d)) s _
              (settle-Posts env job_id url ran calm runs sends id d s v reportable (b ∙ a)))

  admit_message-Reports :
      (id : String) (d : List (String × String)) (s : World)
      → Reportable (job_outcome env ran d)
      → Post
          (λ _ u. Reports id url (report env job_id (job_outcome env ran d)) s u)
          Never
          (admit_message env id job_id url d s)
  unfolding admit_message
  admit_message-Reports id d s reportable =
      Post-bind _ _ s
        (calmly _ s (get_job_status-view env told-Blind.deaf job_id)
          (get_job_status-returns env job_id calm s))
        λ status t (unsettled, a). rw unsettled (
          Post-bind _ _ t
            (calmly _ t (has_cancel_signal-view env told-Blind job_id)
              (has_cancel_signal-returns env job_id calm t))
            λ flagged u (clear, b). rw clear (run_message-Reports id d s u reportable (b ∙ a)))

  -- A message with the keys of a job that is not settled and whose cancel flag is not set, while Redis answers or
  -- loses the connection only in commands that are logged, the wait for the executor is not cut short, the
  -- outcome of the executor is a function of the circuit and the number of shots, and webhooks get through: if
  -- what the job comes to is a result or an exception that is an Exception, `_process_message` returns, has
  -- posted one webhook, with the result or else with the error, to the URL of the message, and has acknowledged
  -- the message once.
  pub process_message-Reports :
      (id : String) (fields : Fields) (d : List (String × String)) (s : World)
      → decode_fields env fields ≡ ok d
      → required d ≡ some (job_id, url)
      → Reportable (job_outcome env ran d)
      → Post
          (λ _ t. Reports id url (report env job_id (job_outcome env ran d)) s t)
          (λ _ _. ⊥)
          (process_message env id fields s)
  unfolding process_message lift ◌>>=◌
  process_message-Reports id fields d s decoded keys reportable =
      rw decoded (rw keys (admit_message-Reports id d s reportable))
