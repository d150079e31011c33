-- ===== src/Consumer/Job/Cancellation.antt =====
-- src/coda_node/server/consumer.py, `_process_message`: once the cancel flag of the job has been seen,
-- no webhook is posted for the message.
use coda_self_service.Prelude.{◌≡◌, refl, ◌∙◌, ap, String, false, some, List, arith, if◌then◌else◌}
use coda_self_service.Effects.{
  Exc, job_cancelled, is_exception, ok, Action, pure, throw, lift, modify, continue, finally, ◌>>=◌,
}
use coda_self_service.Effects.Rules.{
  Post, Keeps, Keeps-throw, Keeps-gets, Keeps-pure_tt, Keeps-bind, Post_always, Outcome-both,
  Post-bind, Post-try, Post-Keeps, Post-if, Post-weaken, Post-finally,
}
use coda_self_service.Consumer.State.{Fields, World, Env, call}
use coda_self_service.Consumer.Redis.{safe_xack, decode_fields}
use coda_self_service.Consumer.Redis.Views.{
  safe_hset-view, get_job_status-view, mark_job_cancelled-view,
}
use coda_self_service.Consumer.Job.{
  report_failure, handle_exception, handle, finish, run_message, admit_message, dispatch,
  process_message, set_in_flight, reset_in_flight, skip, is_settled, required,
}
use coda_self_service.Consumer.Job.Views.{set_state-view}
use coda_self_service.Consumer.Job.Flag.{
  reports, Unseen, Quiet, Raised, Keeps-Unseen, has_cancel_signal-Read, execute-Unseen, send-Unseen,
}
use coda_self_service.Consumer.Trace.{seen, late_posts, watch, watch-Deaf}

module _ (env : Env) (job : String) where
  -- whatever the outcome, no webhook came after the flag was seen
  abbrev Silent : {A : Type 0} → Action World A → World → Type 0
  Silent m s = Post (λ _ t. Quiet env job t) (λ _ t. Quiet env job t) (m s)

  Keeps-Silent :
      {A : Type 0} (m : Action World A) (s : World)
      → Keeps (watch job) m
      → Quiet env job s
      → Silent m s
  Keeps-Silent m s k h =
      Post-weaken _ (Post-Keeps m s k) (λ _ t e. ap (λ w. w.late) e ∙ h)
        (λ _ t e. ap (λ w. w.late) e ∙ h)

  -- `except Exception` with a body that only logs
  drop-Silent :
      (e : Exc) (s : World)
      → Quiet env job s
      → Silent (if is_exception e then pure tt else throw e) s
  drop-Silent e s h =
      Post-if (is_exception e) _ _ s (λ _. Keeps-Silent _ s Keeps-pure_tt h)
        (λ _. Keeps-Silent _ s (Keeps-throw e) h)

  report_failure-Silent :
      (url error : String) (s : World)
      → Unseen env job s
      → Silent (report_failure env job url error) s
  unfolding report_failure
  report_failure-Silent url error s h =
      Post-bind _ _ s
        (Post-weaken _ (Keeps-Unseen env job _ s (Keeps-gets _) h) (λ _ _ k. k) (λ _ _ k. k.0))
        λ at t k.
          Post-bind _ _ t
            (Post-weaken _ (Keeps-Unseen env job _ t (safe_hset-view env (watch-Deaf job) _ _) k)
              (λ _ _ k'. k') (λ _ _ k'. k'.0))
            λ _ u l.
              Post-try _ _ u
                (Post-weaken _ (send-Unseen env job url _ u l) (λ _ _ k'. ap (λ w. w.late) k')
                  (λ _ _ k'. k'.0))
                drop-Silent

  handle_exception-Silent :
      (id url : String) (e : Exc) (s : World)
      → Raised env job e s
      → reports e ≡ is_exception e
      → Silent (handle_exception env id job url e) s
  unfolding handle_exception
  handle_exception-Silent id url e s (q, r) same =
      Post-if (is_exception e) _ _ s
        (λ caught.
          Post-bind _ _ s
            (Post-weaken _
              (has_cancel_signal-Read env job s
                (λ i. record { flagged = r (same ∙ caught) i; late = q i }))
              (λ _ _ k. k) (λ _ _ k. ap (λ w. w.late) k))
            λ flagged t k.
              Post-if flagged _ _ t
                (λ _.
                  Keeps-Silent _ t (mark_job_cancelled-view env (watch-Deaf job) job id)
                    (ap (λ w. w.late) k))
                (λ unflagged.
                  report_failure-Silent url _ t
                    (k ∙ λ i. record { flagged = unflagged i; late = 0 })))
        (λ _. Keeps-Silent _ s (Keeps-throw e) q)

  handle-Silent :
      (id url : String) (e : Exc) (s : World)
      → Raised env job e s
      → Silent (handle env id job url e) s
  unfolding handle
  handle-Silent id url job_cancelled s h =
      Keeps-Silent _ s (mark_job_cancelled-view env (watch-Deaf job) job id) h.0
  handle-Silent id url e s h = handle_exception-Silent id url e s h refl

  safe_xack-watch : (id : String) → Keeps (watch job) (safe_xack env id)
  unfolding safe_xack call ◌>>=◌
  safe_xack-watch id = record { at = λ s. ground arith }

  reset-watch : Keeps (watch job) reset_in_flight
  unfolding reset_in_flight modify
  reset-watch = record { at = λ s. refl }

  finish-watch : (id : String) → Keeps (watch job) (finish env id)
  unfolding finish
  finish-watch id = Keeps-bind _ _ (safe_xack-watch id) (λ _. reset-watch)

  set_in_flight-watch : Keeps (watch job) (set_in_flight job)
  unfolding set_in_flight modify
  set_in_flight-watch = record { at = λ s. refl }

  skip-watch : (id : String) → Keeps (watch job) (skip env id)
  skip-watch id = Keeps-bind _ _ (safe_xack-watch id) (λ _. Keeps-pure_tt)

  -- the `finally` clause posts nothing
  finally-Silent :
      (id : String) (m : Action World (Unit {0})) (s : World)
      → Silent m s
      → Silent (finally m (finish env id)) s
  finally-Silent id m s h =
      let quiet : Quiet env job (m s).1 = Post_always (m s) h in
      Post-finally m _ s (
        Post-weaken _ (Post-Keeps _ (m s).1 (finish-watch id))
          (λ _ u e.
            let q : Quiet env job u = ap (λ w. w.late) e ∙ quiet in
            Outcome-both (λ _ t. Quiet env job t) (λ _ t. Quiet env job t) (m s).0 u (λ _. q)
              (λ _. q))
          (λ _ u e. ap (λ w. w.late) e ∙ quiet))

  Unseen-Silent :
      {A B : Type 0} (m : Action World A) (f : A → Action World B) (s : World)
      → Keeps (watch job) m
      → Unseen env job s
      → ((a : A) (t : World) → Unseen env job t → Silent (f a) t)
      → Silent (m >>= f) s
  Unseen-Silent m f s k h rest =
      Post-bind m f s (Post-weaken _ (Keeps-Unseen env job m s k h) (λ _ _ u. u) (λ _ _ r. r.0))
        rest

  run_message-Silent :
      (id url : String) (d : List (String × String)) (s : World)
      → Unseen env job s
      → Silent (run_message env id job url d) s
  unfolding run_message
  run_message-Silent id url d s h = Unseen-Silent _ _ s set_in_flight-watch h λ _ t k.
      Unseen-Silent _ _ t (set_state-view env (watch-Deaf job) job _ _ _) k λ _ u l.
        finally-Silent id _ u (
          Post-try _ _ u
            (Post-weaken _ (execute-Unseen env job url d u l) (λ _ _ p. ap (λ w. w.late) p)
              (λ _ _ r. r))
            (handle-Silent id url))

  admit_message-Silent :
      (id url : String) (d : List (String × String)) (s : World)
      → Unseen env job s
      → Silent (admit_message env id job url d) s
  unfolding admit_message
  admit_message-Silent id url d s h =
      Unseen-Silent _ _ s (get_job_status-view env (watch-Deaf job) job) h λ status t k.
        Post-if (is_settled status) _ _ t
          (λ _. Keeps-Silent _ t (skip-watch id) (ap (λ w. w.late) k))
          (λ _.
            Post-bind _ _ t
              (Post-weaken _ (has_cancel_signal-Read env job t k) (λ _ _ r. r)
                (λ _ _ r. ap (λ w. w.late) r))
              λ flagged u r.
                Post-if flagged _ _ u
                  (λ _.
                    Keeps-Silent _ u
                      (Keeps-bind _ _ (mark_job_cancelled-view env (watch-Deaf job) job id)
                        (λ _. skip-watch id))
                      (ap (λ w. w.late) r))
                  (λ unflagged.
                    run_message-Silent id url d u
                      (r ∙ λ i. record { flagged = unflagged i; late = 0 })))

-- While `_process_message` handles a message of `job`, no webhook is posted once it has seen the
-- cancel flag of the job, whatever the outside does: if the flag had not been seen and no such webhook
-- had been posted before, none is afterwards, whether the call returns or raises.
pub process_message-late :
    (env : Env) (id : String) (fields : Fields) (s : World) {d : List (String × String)}
    {job url : String}
    → decode_fields env fields ≡ ok d
    → required d ≡ some (job, url)
    → seen job s.trace ≡ false
    → late_posts job s.trace ≡ 0
    → late_posts job (process_message env id fields s).1.trace ≡ 0
unfolding process_message lift ◌>>=◌
process_message-late env id fields s {d} {job} {url} p q unseen none_late =
    rw (p, continue)
      (rw (q, dispatch)
        (Post_always (admit_message env id job url d s) (
          admit_message-Silent env job id url d s
            λ i. record { flagged = unseen i; late = none_late i })))
