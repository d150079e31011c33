-- ===== src/Consumer/Job/Ledger.antt =====
-- src/coda_node/server/consumer.py: executing a job and reporting its failure leave the acknowledgements
-- and the fields that say that a job is in flight alone.
use coda_self_service.Prelude.{refl, String, List}
use coda_self_service.Effects.{Exc, modify}
use coda_self_service.Effects.Rules.{Keeps, keeps_rules}
use coda_self_service.Consumer.State.{Env, call}
use coda_self_service.Prelude.Text.{clip}
use coda_self_service.Webhook.{WebhookPayload, error_payload}
use coda_self_service.Effects.{job_cancelled}
use coda_self_service.Consumer.Job.{
  set_last_job, send, execute, report_failure, handle_exception, handle,
}
use coda_self_service.Consumer.Redis.Views.{
  safe_hset-view, has_cancel_signal-view, mark_job_cancelled-view,
}
use coda_self_service.Consumer.Job.Views.{run_job-view, raise_if_cancelled-view, set_state-view}
use coda_self_service.Consumer.Trace.{ledger, ledger-Blind}

module _ (env : Env) where
  pub send-ledger : (url : String) (p : WebhookPayload) → Keeps ledger (send env url p)
  unfolding send call
  send-ledger url p = record { at = λ s. refl }

  set_last_job-ledger : (at : String) → Keeps ledger (set_last_job at)
  unfolding set_last_job modify
  set_last_job-ledger at = record { at = λ s. refl }

  pub execute-ledger :
      (job_id url : String) (d : List (String × String)) → Keeps ledger (execute env job_id url d)
  unfolding execute
  execute-ledger job_id url d =
      let flag = raise_if_cancelled-view env ledger-Blind job_id in
      search
        (
          keeps_rules,
          send-ledger,
          set_last_job-ledger,
          run_job-view env ledger-Blind,
          set_state-view env ledger-Blind.deaf,
        )
        depth 20

  report_failure-ledger :
      (job_id url error : String) → Keeps ledger (report_failure env job_id url error)
  unfolding report_failure
  report_failure-ledger job_id url error =
      let sent = send-ledger url (error_payload job_id error) in
      search (keeps_rules, safe_hset-view env ledger-Blind.deaf) depth 14

  handle_exception-ledger :
      (id job_id url : String) (e : Exc) → Keeps ledger (handle_exception env id job_id url e)
  unfolding handle_exception
  handle_exception-ledger id job_id url e =
      let marked = mark_job_cancelled-view env ledger-Blind.deaf job_id id in
      let reported = report_failure-ledger job_id url (clip 500 (env.message e)) in
      search (keeps_rules, has_cancel_signal-view env ledger-Blind) depth 14

  pub handle-ledger : (id job_id url : String) (e : Exc) → Keeps ledger (handle env id job_id url e)
  unfolding handle
  handle-ledger id job_id url job_cancelled =
      mark_job_cancelled-view env ledger-Blind.deaf job_id id
  handle-ledger id job_id url e = handle_exception-ledger id job_id url e
