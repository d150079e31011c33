-- ===== src/Consumer/Job/Posting.antt =====
-- src/coda_node/server/consumer.py, `_process_message`: the execution of a job and its webhook.
use coda_self_service.Prelude.{◌≡◌, refl, ap, ◌∙◌, ℕ, String, true, List, [], ◌∷◌, arith}
use coda_self_service.Prelude.Int.{ℤ}
use coda_self_service.Prelude.Text.{clip}
use coda_self_service.Ir.{NativeGateIr, from_json}
use coda_self_service.Webhook.{WebhookPayload, error_payload}
use coda_self_service.Effects.{
  Exc, job_cancelled, is_exception, Result, ok, raise, Action, lift, gets, try, ◌>>=◌, ◌>>◌,
}
use coda_self_service.Effects.Results
use coda_self_service.Effects.Rules.{
  Keeps, Post, Post-and, Post-bind, Post-try, Post-gets, Post-weaken, Post-modify,
}
use coda_self_service.Consumer.State.{ExecutionResult, World, Env, call}
use coda_self_service.Consumer.Redis.Views.{safe_hset-view, has_cancel_signal-view}
use coda_self_service.Consumer.Trace.{posted, acked, Blind}
use coda_self_service.Consumer.Job.{
  item, int_item, completed_payload, set_last_job, raise_if_cancelled, send, set_state, execute,
  report_failure, handle_exception, handle,
}
use coda_self_service.Consumer.Job.Views.{run_job-view, raise_if_cancelled-view, set_state-view}
use coda_self_service.Consumer.Job.Calm.{
  Undisturbed, Never, safe_hset-returns, has_cancel_signal-returns, set_state-returns,
  raise_if_cancelled-returns, run_job-Yields,
}

-- what the cloud and the stream are told
pub record Told : Type 0 where
  pub posts : List (String × WebhookPayload)
  pub acks : List String

abbrev pub told : World → Told
told s = record { posts = posted s.trace; acks = acked s.trace }

pub told-Blind : Blind told
told-Blind = record {
  deaf = record { event = λ e q s n. ground arith; live = λ s b. refl };
  read = λ job flag s n. refl;
  unread = λ job s n. refl;
}

-- an exception that is reported as a failure of the job
abbrev pub IsReported : Exc → Type 0
IsReported job_cancelled = ⊥
IsReported e = is_exception e ≡ true

abbrev pub Reportable : {A : Type 0} → Result A → Type 0
Reportable (ok a) = Unit
Reportable (raise e) = IsReported e

-- a step that tells nothing
pub calmly :
    {A : Type 0} {Q : A → World → Type 0} {E : Exc → World → Type 0} (m : Action World A)
    (s : World)
    → Keeps told m
    → Post Q Never (m s)
    → Post (λ a t. Q a t × (told t ≡ told s)) E (m s)
calmly m s keeps returns =
    Post-weaken _ (Post-and {P = λ t. told t ≡ told s} _ returns (keeps.at s)) (λ _ _ h. h)
      (λ _ _ h. absurd h.0)

-- what a job comes to, where the executor gives `ran`
abbrev pub job_outcome :
    Env
    → (NativeGateIr → ℤ → Result ExecutionResult)
    → List (String × String)
    → Result ExecutionResult
job_outcome env ran decoded = Results.◌>>=◌ (item "ir_json" decoded) λ ir_json.
    Results.◌>>=◌ (from_json env.decode_json ir_json) λ ir.
      Results.◌>>=◌ (item "shots" decoded)
        λ shots_text. Results.◌>>=◌ (int_item shots_text) λ shots. ran ir shots

-- the webhook of a job
abbrev pub report : Env → String → Result ExecutionResult → WebhookPayload
report env job_id (ok result) = completed_payload job_id result
report env job_id (raise e) = error_payload job_id (clip 500 (env.message e))

-- the webhook has been posted
abbrev pub Posts : String → WebhookPayload → World → World → Type 0
Posts url payload s t = told t ≡ record (told s) { posts = (url, payload) ∷ posted s.trace }

module _ (env : Env) (job_id url : String) (ran : NativeGateIr → ℤ → Result ExecutionResult) where
  abbrev Executed : World → Result ExecutionResult → Unit {0} → World → Type 0
  Executed s outcome _ t =
      (result : ExecutionResult) × ((outcome ≡ ok result)
        × Posts url (completed_payload job_id result) s t)

  abbrev Failed : World → Result ExecutionResult → Exc → World → Type 0
  Failed s outcome e t = (outcome ≡ raise e) × (told t ≡ told s)

  lift-Executed :
      {A : Type 0} (r : Result A) (f : A → Action World (Unit {0})) (g : A → Result ExecutionResult)
      (s t : World)
      → told t ≡ told s
      → ((a : A) → Post (Executed s (g a)) (Failed s (g a)) (f a t))
      → Post (Executed s (Results.◌>>=◌ r g)) (Failed s (Results.◌>>=◌ r g)) ((lift r >>= f) t)
  unfolding lift ◌>>=◌
  lift-Executed (ok a) f g s t e h = h a
  lift-Executed (raise x) f g s t e h = record { holds = (refl, e) }

  module _ (calm : Undisturbed env job_id)
      (runs : (n : ℕ) (ir : NativeGateIr) (shots : ℤ) → (env.run n ir shots).outcome ≡ ran ir shots)
      (sends : (n : ℕ) (payload : WebhookPayload) → env.send_result n url payload ≡ ok tt) where
    send-Posts :
        {E : Exc → World → Type 0} (payload : WebhookPayload) (s t : World)
        → told t ≡ told s
        → Post (λ _ u. Posts url payload s u) E (send env url payload t)
    unfolding send call
    send-Posts payload s t e =
        rw (sends t.now payload)
          (record { holds = ap (λ (l : Told). record l { posts = (url, payload) ∷ l.posts }) e })

    -- from the result on
    conclude :
        (result : ExecutionResult) (s t : World)
        → told t ≡ told s
        → Post
            (λ _ u. Posts url (completed_payload job_id result) s u)
            Never
            ((do
              raise_if_cancelled env job_id
              set_state env job_id "completed" "completed_at" []
              raise_if_cancelled env job_id
              send env url (completed_payload job_id result)
              at ← gets (λ s. env.iso s.now)
              set_last_job at)
              t)
    unfolding set_last_job
    conclude result s t e =
        let flag = raise_if_cancelled-view env told-Blind job_id in
        Post-bind _ _ t (calmly _ t flag (raise_if_cancelled-returns env job_id calm t))
          λ _ u (_, a).
            Post-bind _ _ u
              (calmly _ u (set_state-view env told-Blind.deaf job_id _ _ _)
                (set_state-returns env job_id calm _ _ _ u))
              λ _ v (_, b).
                Post-bind _ _ v (calmly _ v flag (raise_if_cancelled-returns env job_id calm v))
                  λ _ w (_, c).
                    Post-bind _ _ w
                      (send-Posts (completed_payload job_id result) s w (c ∙ b ∙ a ∙ e))
                      λ _ x h.
                        Post-bind {R = λ _ y. Posts url (completed_payload job_id result) s y} _ _ x
                          (Post-gets _ x h) λ at y k. Post-modify _ y k

    execute-Executed :
        (d : List (String × String)) (s t : World)
        → told t ≡ told s
        → Post
            (Executed s (job_outcome env ran d))
            (Failed s (job_outcome env ran d))
            (execute env job_id url d t)
    unfolding execute
    execute-Executed d s t e = lift-Executed (item "ir_json" d) _ _ s t e λ ir_json.
        lift-Executed (from_json env.decode_json ir_json) _ _ s t e λ ir.
          lift-Executed (item "shots" d) _ _ s t e λ shots_text.
            lift-Executed (int_item shots_text) _ _ s t e λ shots.
              Post-bind {R = λ result u. (ran ir shots ≡ ok result) × (told u ≡ told t)} _ _ t
                (Post-weaken _
                  (Post-and {P = λ u. told u ≡ told t} _
                    (run_job-Yields env job_id calm ir shots (ran ir shots) t
                      (λ n. runs n ir shots))
                    ((run_job-view env told-Blind job_id ir shots).at t))
                  (λ _ _ h. h) (λ _ _ (f, k). (f, k ∙ e)))
                λ result u (yields, k).
                  Post-weaken _ (conclude result s u (k ∙ e)) (λ _ v h. (result, (yields, h)))
                    (λ _ _ h. absurd h)

    handle_exception-Posts :
        (id : String) (x : Exc) (s t : World)
        → is_exception x ≡ true
        → told t ≡ told s
        → Post
            (λ _ u. Posts url (report env job_id (raise x)) s u)
            Never
            (handle_exception env id job_id url x t)
    unfolding handle_exception report_failure
    handle_exception-Posts id x s t reported e = rw reported (
        Post-bind _ _ t
          (calmly _ t (has_cancel_signal-view env told-Blind job_id)
            (has_cancel_signal-returns env job_id calm t))
          λ flagged u (clear, a). rw clear (
            Post-bind {R = λ _ v. told v ≡ told u} _ _ u (Post-gets _ u refl) λ at v b.
              Post-bind _ _ v
                (calmly _ v (safe_hset-view env told-Blind.deaf _ _)
                  (safe_hset-returns env job_id calm _ _ v))
                λ _ w (_, c).
                  Post-try {F = Never} _ _ w
                    (send-Posts (report env job_id (raise x)) s w (c ∙ b ∙ a ∙ e))
                    (λ _ _ h. absurd h)))

    handle-Posts :
        (id : String) (x : Exc) (s t : World)
        → IsReported x
        → told t ≡ told s
        → Post
            (λ _ u. Posts url (report env job_id (raise x)) s u)
            Never
            (handle env id job_id url x t)
    unfolding handle
    handle-Posts id job_cancelled s t reported e = absurd reported
    handle-Posts id _ s t reported e = handle_exception-Posts id _ s t reported e

    -- the webhook of what the job comes to
    pub settle-Posts :
        (id : String) (d : List (String × String)) (s t : World)
        → Reportable (job_outcome env ran d)
        → told t ≡ told s
        → Post
            (λ _ u. Posts url (report env job_id (job_outcome env ran d)) s u)
            Never
            (try (execute env job_id url d) (handle env id job_id url) t)
    settle-Posts id d s t reportable e =
        Post-try _ _ t
          (Post-weaken _ (execute-Executed d s t e) (λ _ u (result, (same, h)). rw same h)
            (λ _ _ h. h))
          λ x u (same, k). rw same (handle-Posts id x s u (rw same at reportable) k)
