-- ===== src/Consumer/Batch/Single.antt =====
-- src/coda_node/server/consumer.py, `_deliver_single_batch_result`: the message is acknowledged.
use coda_self_service.Prelude.{
  ◌≡◌, refl, inl, inr, ap, ◌∙◌, String, Bool, true, false, arith, if◌then◌else◌,
}
use coda_self_service.Effects.{Action, ◌>>=◌}
use coda_self_service.Effects.Rules.{Post, Keeps, keeps_rules, Post-bind, Post-Keeps, Post-weaken}
use coda_self_service.Consumer.State.{ExecutionResult, Parsed, World, Env}
use coda_self_service.Consumer.Redis.Views.{
  safe_hset-view, has_cancel_signal-view, mark_job_cancelled-view,
}
use coda_self_service.Consumer.Job.{skip, completed_payload}
use coda_self_service.Consumer.Job.Acknowledgement.{Sent, AtMostOnce, skip-Sent}
use coda_self_service.Consumer.Job.Ledger.{send-ledger}
use coda_self_service.Consumer.Trace.{ledger, ledger-Blind}
use coda_self_service.Consumer.Batch.{withdraw, deliver_one}

module _ (env : Env) (id : String) (s : World) where
  -- started with the ledger of `s`: the message is acknowledged once, or at most once if it raises
  abbrev Delivers : Action World (Unit {0}) → Type 0
  Delivers m =
      (t : World)
      → ledger t ≡ ledger s
      → Post (λ _ u. Sent id s tt u) (λ _ u. AtMostOnce id s u) (m t)

  skip-Delivers : Delivers (skip env id)
  skip-Delivers t e =
      Post-weaken _ (skip-Sent env id t) (λ _ u h. ground arith) (λ _ u h. inr (ground arith))

  then-Delivers :
      {A : Type 0} (m : Action World A) (f : A → Action World (Unit {0}))
      → Keeps ledger m
      → ((a : A) → Delivers (f a))
      → Delivers (m >>= f)
  then-Delivers m f k h t e =
      Post-bind m f t
        (Post-weaken _ (Post-Keeps m t k) (λ _ u p. p ∙ e)
          (λ _ u p. inl (ap (λ l. l.acks) (p ∙ e))))
        (λ a u p. h a u p)

  if-Delivers :
      (b : Bool) (m n : Action World (Unit {0}))
      → Delivers m
      → Delivers n
      → Delivers (if b then m else n)
  if-Delivers true m n h k = h
  if-Delivers false m n h k = k

module _ (env : Env) where
  withdraw-Delivers : (job : Parsed) (s : World) → Delivers env job.message_id s (withdraw env job)
  unfolding withdraw
  withdraw-Delivers job s =
      then-Delivers env _ s _ _
        (mark_job_cancelled-view env ledger-Blind.deaf job.job_id job.message_id)
        λ _. skip-Delivers env _ s

  deliver_one-Delivers :
      (job : Parsed) (result : ExecutionResult) (at : String) (s : World)
      → Delivers env job.message_id s (deliver_one env job result at)
  unfolding deliver_one
  deliver_one-Delivers job result at s =
      let flag = has_cancel_signal-view env ledger-Blind job.job_id in
      let sent = send-ledger env job.callback_url (completed_payload job.job_id result) in
      then-Delivers env _ s _ _ flag λ flagged.
        if-Delivers env _ s flagged _ _ (withdraw-Delivers job s) (
          then-Delivers env _ s _ _ (safe_hset-view env ledger-Blind.deaf _ _) λ _.
            then-Delivers env _ s _ _ flag λ again.
              if-Delivers env _ s again _ _ (withdraw-Delivers job s) (
                then-Delivers env _ s _ _ (search keeps_rules depth 14) λ _. skip-Delivers env _ s))

  -- Whatever the outside does, one delivery of a batch, run alone, that returns has acknowledged its message once and
  -- no other, and has left the job in flight as it was; one that raises has acknowledged it once or not at
  -- all, and no other.
  pub deliver_one-acks :
      (job : Parsed) (result : ExecutionResult) (at : String) (s : World)
      → Post
          (λ _ t. Sent job.message_id s tt t)
          (λ _ t. AtMostOnce job.message_id s t)
          (deliver_one env job result at s)
  deliver_one-acks job result at s = deliver_one-Delivers job result at s s refl
