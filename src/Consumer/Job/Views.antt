-- ===== src/Consumer/Job/Views.antt =====
-- src/coda_node/server/consumer.py: what the execution of a job leaves alone.
use coda_self_service.Prelude.{refl, ℕ, zero, suc, String, Bool, false, List}
use coda_self_service.Prelude.Int.{ℤ}
use coda_self_service.Ir.{NativeGateIr}
use coda_self_service.Effects.{Result}
use coda_self_service.Effects.Rules.{Keeps, keeps_rules, Keeps-modify}
use coda_self_service.Consumer.State.{
  ExecutionResult, run_started, run_waited, run_settled, run_cancelled, World, Env,
}
use coda_self_service.Consumer.Redis.Views.{
  call-view, safe_hset-view, has_cancel_signal-view, request_runner_cancel-view,
}
use coda_self_service.Consumer.Job.{
  set_live, start_run, await_wait, cancel_run, cancel_and_settle, cancel_if_live, poll, run_job,
  raise_if_cancelled, set_state,
}
use coda_self_service.Consumer.Trace.{Deaf, Blind}

module _ (env : Env) {V : Type 0} {view : World → V} (deaf : Deaf view) where
  pub set_live-view : (b : Bool) → Keeps view (set_live b)
  unfolding set_live
  set_live-view b = Keeps-modify (λ s. record s { run_task_live = b }) (λ s. deaf.live s b)

  pub start_run-view : (ir : NativeGateIr) (shots : ℤ) → Keeps view (start_run env ir shots)
  unfolding start_run
  start_run-view ir shots =
      search
        (keeps_rules, set_live-view, call-view env deaf _ (λ _. run_started ir shots) (λ _. refl))
        depth 14

  pub await_wait-view : Keeps view (await_wait env)
  unfolding await_wait
  await_wait-view = call-view env deaf env.wait (λ _. run_waited) (λ _. refl)

  pub cancel_run-view : Keeps view (cancel_run env)
  unfolding cancel_run
  cancel_run-view = call-view env deaf _ (λ _. run_cancelled) (λ _. refl)

  pub cancel_and_settle-view : Keeps view (cancel_and_settle env)
  unfolding cancel_and_settle
  cancel_and_settle-view =
      let settled = call-view env deaf env.settle (λ _. run_settled) (λ _. refl) in
      let dead = set_live-view false in search (keeps_rules, cancel_run-view) depth 14

  pub cancel_if_live-view : Keeps view (cancel_if_live env)
  unfolding cancel_if_live
  cancel_if_live-view = search (keeps_rules, cancel_run-view) depth 14

  pub set_state-view :
      (job_id state stamp : String) (more : List (String × String))
      → Keeps view (set_state env job_id state stamp more)
  set_state-view job_id state stamp more = search (keeps_rules, safe_hset-view env deaf) depth 14

module _ (env : Env) {V : Type 0} {view : World → V} (blind : Blind view) where
  poll-view :
      (polls : ℕ) (outcome : Result ExecutionResult) (job_id : String)
      → Keeps view (poll env polls outcome job_id)
  unfolding poll
  poll-view zero outcome job_id =
      let waited = await_wait-view env blind.deaf in
      let dead = set_live-view env blind.deaf false in
      search (keeps_rules, has_cancel_signal-view env blind) depth 14
  poll-view (suc polls) outcome job_id =
      let waited = await_wait-view env blind.deaf in
      let flag = has_cancel_signal-view env blind job_id in
      let hooked = request_runner_cancel-view env blind.deaf in
      let settled = cancel_and_settle-view env blind.deaf in
      let later = poll-view polls outcome job_id in search keeps_rules depth 14

  pub run_job-view :
      (job_id : String) (ir : NativeGateIr) (shots : ℤ) → Keeps view (run_job env job_id ir shots)
  unfolding run_job
  run_job-view job_id ir shots =
      let started = start_run-view env blind.deaf ir shots in
      let ended = cancel_if_live-view env blind.deaf in search (keeps_rules, poll-view) depth 14

  pub raise_if_cancelled-view : (job_id : String) → Keeps view (raise_if_cancelled env job_id)
  unfolding raise_if_cancelled
  raise_if_cancelled-view job_id = search (keeps_rules, has_cancel_signal-view env blind) depth 14
