-- ===== src/Consumer/Job/Circuits.antt =====
-- src/coda_node/server/consumer.py: what does not start the executor.
use coda_self_service.Prelude.{
  ◌≡◌, refl, ℕ, zero, suc, String, Bool, Option, none, some, List, [], ◌∷◌,
}
use coda_self_service.Ir.{NativeGateIr}
use coda_self_service.Webhook.{WebhookPayload}
use coda_self_service.Effects.{Result, ok, raise}
use coda_self_service.Effects.Rules.{Keeps, Keeps-modify, keeps_rules}
use coda_self_service.Consumer.State.{
  Raw, ExecutionResult, Event, run_started, run_waited, run_cancelled, run_settled, cancel_hook,
  hset, xack, status_read, webhook, World, Env, call,
}
use coda_self_service.Consumer.Redis.{
  safe_hset, safe_xack, has_cancel_signal, get_job_status, mark_job_cancelled,
  request_runner_cancel, request_hook, flag_note,
}
use coda_self_service.Consumer.Job.{
  set_live, await_wait, cancel_run, cancel_and_settle, poll, cancel_if_live, send,
}

-- the circuits that the executor was started with
abbrev pub executed : List Event → List NativeGateIr
executed [] = []
executed (run_started ir shots ∷ t) = ir ∷ executed t
executed (_ ∷ t) = executed t

abbrev pub circuits : World → List NativeGateIr
circuits s = executed s.trace

Keeps-call :
    {A : Type 0} (ask : ℕ → Result A) (note : Result A → Event)
    → ((r : Result A) (t : List Event) → executed (note r ∷ t) ≡ executed t)
    → Keeps circuits (call ask note)
unfolding call
Keeps-call ask note h = record { at = λ s. h (ask s.now) s.trace }

flag_note-executed :
    (job : String) (r : Result (Option Raw)) (t : List Event)
    → executed (flag_note job r ∷ t) ≡ executed t
flag_note-executed job (ok found) t = refl
flag_note-executed job (raise e) t = refl

module _ (env : Env) where
  pub safe_hset-circuits :
      (key : String) (m : List (String × String)) → Keeps circuits (safe_hset env key m)
  unfolding safe_hset
  safe_hset-circuits key m =
      search (keeps_rules, Keeps-call _ (λ _. hset key m) (λ _ _. refl)) depth 14

  pub safe_xack-circuits : (id : String) → Keeps circuits (safe_xack env id)
  unfolding safe_xack
  safe_xack-circuits id = search (keeps_rules, Keeps-call _ (λ _. xack id) (λ _ _. refl)) depth 14

  pub has_cancel_signal-circuits : (job : String) → Keeps circuits (has_cancel_signal env job)
  unfolding has_cancel_signal
  has_cancel_signal-circuits job =
      search (keeps_rules, Keeps-call _ (flag_note job) (flag_note-executed job)) depth 14

  pub get_job_status-circuits : (job : String) → Keeps circuits (get_job_status env job)
  unfolding get_job_status
  get_job_status-circuits job =
      search (keeps_rules, Keeps-call _ (λ _. status_read job) (λ _ _. refl)) depth 14

  pub mark_job_cancelled-circuits :
      (job id : String) → Keeps circuits (mark_job_cancelled env job id)
  unfolding mark_job_cancelled
  mark_job_cancelled-circuits job id = search (keeps_rules, safe_hset-circuits) depth 14

  request_hook-circuits :
      (hook : Option (ℕ → Result (Unit {0}))) → Keeps circuits (request_hook hook)
  unfolding request_hook
  request_hook-circuits none = search keeps_rules
  request_hook-circuits (some hook) =
      let hooked = Keeps-call hook (λ _. cancel_hook) (λ _ _. refl) in search keeps_rules depth 14

  request_runner_cancel-circuits : Keeps circuits (request_runner_cancel env)
  unfolding request_runner_cancel
  request_runner_cancel-circuits = request_hook-circuits env.cancel_current_job

  pub set_live-circuits : (b : Bool) → Keeps circuits (set_live b)
  unfolding set_live
  set_live-circuits b = Keeps-modify (λ s. record s { run_task_live = b }) (λ s. refl)

  await_wait-circuits : Keeps circuits (await_wait env)
  unfolding await_wait
  await_wait-circuits = Keeps-call env.wait (λ _. run_waited) (λ _ _. refl)

  cancel_run-circuits : Keeps circuits (cancel_run env)
  unfolding cancel_run
  cancel_run-circuits = Keeps-call _ (λ _. run_cancelled) (λ _ _. refl)

  cancel_and_settle-circuits : Keeps circuits (cancel_and_settle env)
  unfolding cancel_and_settle
  cancel_and_settle-circuits =
      let settled = Keeps-call env.settle (λ _. run_settled) (λ _ _. refl) in
      search (keeps_rules, cancel_run-circuits, set_live-circuits) depth 14

  pub poll-circuits :
      (polls : ℕ) (outcome : Result ExecutionResult) (job : String)
      → Keeps circuits (poll env polls outcome job)
  unfolding poll
  poll-circuits zero outcome job =
      search (keeps_rules, await_wait-circuits, set_live-circuits, has_cancel_signal-circuits) depth
        20
  poll-circuits (suc polls) outcome job =
      let again = poll-circuits polls outcome job in
      let hook = request_runner_cancel-circuits in
      search
        (keeps_rules, await_wait-circuits, cancel_and_settle-circuits, has_cancel_signal-circuits)
        depth 20

  pub cancel_if_live-circuits : Keeps circuits (cancel_if_live env)
  unfolding cancel_if_live
  cancel_if_live-circuits = search (keeps_rules, cancel_run-circuits) depth 14

  pub send-circuits : (url : String) (p : WebhookPayload) → Keeps circuits (send env url p)
  unfolding send
  send-circuits url p = Keeps-call _ (λ _. webhook url p) (λ _ _. refl)
