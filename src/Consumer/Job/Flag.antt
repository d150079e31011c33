-- ===== src/Consumer/Job/Flag.antt =====
-- src/coda_node/server/consumer.py, `_process_message`: whether the cancel flag of the job has been seen
-- while it is executed.
use coda_self_service.Prelude.{
  ◌≡◌, refl, ◌∙◌, ap, ℕ, zero, suc, String, Bool, true, false, Option, none, some, List, [], arith,
  str_eq_refl,
}
use coda_self_service.Prelude.Int.{ℤ}
use coda_self_service.Ir.{NativeGateIr}
use coda_self_service.Webhook.{WebhookPayload}
use coda_self_service.Effects.{
  Exc, job_cancelled, is_exception, Result, ok, raise, Action, pure, throw, modify, ◌>>=◌,
}
use coda_self_service.Effects.Rules.{
  Post, Keeps, Keeps-lift, Keeps-gets, Post-bind, Post-Keeps, Post-weaken, Post-finally, Outcome,
}
use coda_self_service.Consumer.State.{ExecutionResult, World, Env, call}
use coda_self_service.Consumer.Redis.{has_cancel_signal, request_hook, request_runner_cancel}
use coda_self_service.Consumer.Job.{
  poll, run_job, cancel_if_live, cancel_and_settle, cancel_run, set_live, raise_if_cancelled,
  execute, send, set_last_job,
}
use coda_self_service.Consumer.Job.Views.{
  set_live-view, start_run-view, await_wait-view, set_state-view,
}
use coda_self_service.Consumer.Trace.{seen, late_posts, watch, watch-Deaf}

-- whether `_process_message` may report the exception by a webhook
abbrev pub reports : Exc → Bool
reports job_cancelled = false
reports e = is_exception e

module _ (env : Env) (job : String) where
  -- the flag has not been seen
  abbrev pub Unseen : World → Type 0
  Unseen s = watch job s ≡ record { flagged = false; late = 0 }

  -- no webhook has been posted after the flag was seen
  abbrev pub Quiet : World → Type 0
  Quiet s = late_posts job s.trace ≡ 0

  -- where an exception that is reported comes, the flag has not been seen
  abbrev pub Raised : Exc → World → Type 0
  Raised e s = Quiet s × (reports e ≡ true → seen job s.trace ≡ false)

  pub Unseen-Raised : (e : Exc) (s : World) → Unseen s → Raised e s
  Unseen-Raised e s h = (ap (λ w. w.late) h, λ _. ap (λ w. w.flagged) h)

  pub Keeps-Unseen :
      {A : Type 0} (m : Action World A) (s : World)
      → Keeps (watch job) m
      → Unseen s
      → Post (λ _ t. Unseen t) Raised (m s)
  Keeps-Unseen m s k h =
      Post-weaken _ (Post-Keeps m s k) (λ _ t e. e ∙ h) (λ e t p. Unseen-Raised e t (p ∙ h))

  -- the flag has been read, with the answer `b`
  abbrev pub Read : Bool → World → Type 0
  Read b t = watch job t ≡ record { flagged = b; late = 0 }

  pub has_cancel_signal-Read :
      (s : World) → Unseen s → Post Read (λ e t. Unseen t) (has_cancel_signal env job s)
  unfolding has_cancel_signal call ◌>>=◌
  has_cancel_signal-Read s h = record { holds = ground (arith, str_eq_refl job) }

  -- a read of the flag and the two ways to go on
  Read-then :
      {B : Type 0} (f : Bool → Action World B) (s : World) (Q : B → World → Type 0)
      → Unseen s
      → ((t : World) → Read true t → Post Q Raised (f true t))
      → ((t : World) → Read false t → Post Q Raised (f false t))
      → Post Q Raised ((has_cancel_signal env job >>= f) s)
  Read-then f s Q h yes_flag no_flag =
      Post-bind _ f s (Post-weaken _ (has_cancel_signal-Read s h) (λ _ _ r. r) Unseen-Raised)
        λ b t r. go b t r
    where
      go : (b : Bool) (t : World) → Read b t → Post Q Raised (f b t)
      go true t r = yes_flag t r
      go false t r = no_flag t r

  throw-Raised :
      {B : Type 0} (Q : B → World → Type 0) (t : World)
      → Quiet t
      → Post Q Raised (throw {A = B} job_cancelled t)
  unfolding throw
  throw-Raised Q t h = record { holds = (h, λ p. cc p) }

  -- what the cancellation of the executor's task may raise is never reported
  request_hook-Quiet :
      (hook : Option (ℕ → Result (Unit {0}))) (s : World)
      → Quiet s
      → Post (λ _ t. Quiet t) Raised (request_hook hook s)
  unfolding request_hook call ◌>>=◌
  request_hook-Quiet none s h = record { holds = h }
  request_hook-Quiet (some hook) s h = record { holds = ground arith }

  cancel_and_settle-Quiet :
      (s : World) → Quiet s → Post (λ _ t. Quiet t) Raised (cancel_and_settle env s)
  unfolding cancel_and_settle cancel_run set_live call ◌>>=◌
  cancel_and_settle-Quiet s h = record { holds = ground arith }

  pure-Unseen :
      {A : Type 0} (a : A) (t : World) → Unseen t → Post (λ _ w. Unseen w) Raised (pure a t)
  unfolding pure
  pure-Unseen a t h = record { holds = h }

  poll-Unseen :
      (polls : ℕ) (outcome : Result ExecutionResult) (s : World)
      → Unseen s
      → Post (λ _ t. Unseen t) Raised (poll env polls outcome job s)
  unfolding poll request_runner_cancel
  poll-Unseen zero outcome s h =
      Post-bind _ _ s (Keeps-Unseen _ s (await_wait-view env (watch-Deaf job)) h) λ _ t a.
        Post-bind _ _ t (Keeps-Unseen _ t (set_live-view env (watch-Deaf job) false) a) λ _ u b.
          Post-bind _ _ u (Keeps-Unseen _ u (Keeps-lift outcome) b) λ result v c.
            Read-then _ v _ c (λ w r. throw-Raised _ w (ap (λ x. x.late) r))
              (λ w r. pure-Unseen result w r)
  poll-Unseen (suc polls) outcome s h =
      Post-bind _ _ s (Keeps-Unseen _ s (await_wait-view env (watch-Deaf job)) h) λ _ t a.
        Read-then _ t _ a
          (λ u r.
            Post-bind _ _ u (request_hook-Quiet _ u (ap (λ x. x.late) r))
              λ _ v q. Post-bind _ _ v (cancel_and_settle-Quiet v q) λ _ w q'. throw-Raised _ w q')
          (λ u r. poll-Unseen polls outcome u r)

  cancel_if_live-total :
      (s : World) → Post (λ _ t. watch job t ≡ watch job s) (λ _ _. ⊥) (cancel_if_live env s)
  unfolding cancel_if_live cancel_run call ◌>>=◌
  cancel_if_live-total s = record { holds = ground arith }

  same-watch :
      {A : Type 0} (r : Result A) (t u : World)
      → Post (λ _ w. Unseen w) Raised (r, t)
      → watch job u ≡ watch job t
      → Outcome (λ _ w. Unseen w) Raised (r, u)
  same-watch (ok a) t u h e = e ∙ h.holds
  same-watch (raise x) t u h e =
      (ap (λ w. w.late) e ∙ h.holds.0, λ p. ap (λ w. w.flagged) e ∙ h.holds.1 p)

  run_job-Unseen :
      (ir : NativeGateIr) (shots : ℤ) (s : World)
      → Unseen s
      → Post (λ _ t. Unseen t) Raised (run_job env job ir shots s)
  unfolding run_job
  run_job-Unseen ir shots s h =
      Post-bind _ _ s (Keeps-Unseen _ s (start_run-view env (watch-Deaf job) ir shots) h)
        λ task t a.
          let polled = poll env task.polls task.outcome job in
          Post-finally polled _ t (
            Post-weaken _ (cancel_if_live-total (polled t).1)
              (λ _ u e.
                same-watch (polled t).0 (polled t).1 u (poll-Unseen task.polls task.outcome t a) e)
              (λ _ _ b. absurd b))

  raise_if_cancelled-Unseen :
      (s : World) → Unseen s → Post (λ _ t. Unseen t) Raised (raise_if_cancelled env job s)
  unfolding raise_if_cancelled
  raise_if_cancelled-Unseen s h =
      Read-then _ s _ h (λ t r. throw-Raised _ t (ap (λ x. x.late) r)) (λ t r. pure-Unseen tt t r)

  pub send-Unseen :
      (url : String) (p : WebhookPayload) (s : World)
      → Unseen s
      → Post (λ _ t. Unseen t) Raised (send env url p s)
  unfolding send call
  send-Unseen url p s h = record { holds = ground arith }

  set_last_job-Unseen : (at : String) → Keeps (watch job) (set_last_job at)
  unfolding set_last_job modify
  set_last_job-Unseen at = record { at = λ s. refl }

  pub execute-Unseen :
      (url : String) (d : List (String × String)) (s : World)
      → Unseen s
      → Post (λ _ t. Unseen t) Raised (execute env job url d s)
  unfolding execute
  execute-Unseen url d s h =
      let state =
        λ (state stamp : String). set_state-view env (watch-Deaf job) job state stamp [] in
      Post-bind _ _ s (Keeps-Unseen _ s (Keeps-lift _) h) λ _ s₁ h₁.
        Post-bind _ _ s₁ (Keeps-Unseen _ s₁ (Keeps-lift _) h₁) λ _ s₂ h₂.
          Post-bind _ _ s₂ (Keeps-Unseen _ s₂ (Keeps-lift _) h₂) λ _ s₃ h₃.
            Post-bind _ _ s₃ (Keeps-Unseen _ s₃ (Keeps-lift _) h₃) λ shots s₄ h₄.
              Post-bind _ _ s₄ (run_job-Unseen _ shots s₄ h₄) λ _ s₅ h₅.
                Post-bind _ _ s₅ (raise_if_cancelled-Unseen s₅ h₅) λ _ s₆ h₆.
                  Post-bind _ _ s₆ (Keeps-Unseen _ s₆ (state _ _) h₆) λ _ s₇ h₇.
                    Post-bind _ _ s₇ (raise_if_cancelled-Unseen s₇ h₇) λ _ s₈ h₈.
                      Post-bind _ _ s₈ (send-Unseen url _ s₈ h₈) λ _ s₉ h₉.
                        Post-bind _ _ s₉ (Keeps-Unseen _ s₉ (Keeps-gets _) h₉)
                          λ at t k. Keeps-Unseen _ t (set_last_job-Unseen at) k
