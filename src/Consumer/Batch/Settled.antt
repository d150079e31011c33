-- ===== src/Consumer/Batch/Settled.antt =====
-- src/coda_node/server/consumer.py, `_process_batch`: where every message of the batch goes.
use coda_self_service.Prelude.{
  ◌≡◌, refl, inl, inr, ap, ◌∙◌, String, true, false, Option, none, some, List, [], ◌∷◌, str_eq_iff,
  contains, All, is_empty, length, ℕ, arith, if◌then◌else◌,
}
use coda_self_service.Prelude.Int.{ℤ}
use coda_self_service.Ir.{NativeGateIr}
use coda_self_service.Effects.{is_exception, Result, pure, gets, modify, ◌>>=◌, ◌>>◌}
use coda_self_service.Effects.Rules.{
  Keeps, keeps_rules, Post, Post-bind, Post-if, Post-try, Post-throw, Post-return, Post-Keeps,
  Post-weaken, Post-both,
}
use coda_self_service.Consumer.State.{
  Message, ExecutionResult, Parsed, Delivery, scheduled, batch_started, World, Env, call,
}
use coda_self_service.Consumer.Job.Views.{set_state-view}
use coda_self_service.Consumer.Job.Acknowledgement.{process_message-Handles}
use coda_self_service.Consumer.Trace.{ledger, acked, onto, ledger-Blind}
use coda_self_service.Consumer.Batch.{
  mark_executing, process_each, fall_back, run_batch, process_batch,
}
use coda_self_service.Consumer.Batch.Foreign.{message_ids, foreign_acks, process_batch-foreign_acks}
use coda_self_service.Consumer.Batch.Checked.{Parted, Acked, Checked, check_messages-Checked}

abbrev Anything {ℓ} : {A : Type ℓ} → A → World → Type 0
Anything _ _ = Unit

module _ (env : Env) where
  mark_executing-ledger : (jobs : List Parsed) → Keeps ledger (mark_executing env jobs)
  unfolding mark_executing
  mark_executing-ledger [] = search keeps_rules
  mark_executing-ledger (job ∷ jobs) =
      let later = mark_executing-ledger jobs in
      let marked =
        set_state-view env ledger-Blind.deaf job.job_id "executing" "started_at"
          (("qpu_id", env.qpu_id) ∷ []) in
      search keeps_rules depth 14

  process_each-Acked :
      (messages : List Message) (s : World)
      → Post (λ _ t. Acked (message_ids messages) s t) Anything (process_each env messages s)
  unfolding process_each
  process_each-Acked [] s = Post-return tt s refl
  process_each-Acked ((id, fields) ∷ messages) s =
      Post-bind {R = λ _ t. acked t.trace ≡ id ∷ acked s.trace} _ _ s
        (Post-weaken _ (process_message-Handles env id s fields)
          (λ _ t h. elim h [
            | inl sent ↦ ap (λ l. l.acks) sent
            | inr closed ↦ ap (λ l. l.acks) closed
          ])
          (λ _ _ _. tt))
        λ _ t h.
          Post-weaken _ (process_each-Acked messages t)
            (λ _ u k. k ∙ ap (onto (message_ids messages)) h) (λ _ _ _. tt)

  -- where the messages of a batch have gone: those that were dropped are acknowledged, and either none is left,
  -- or the others are in the delivery, or every message has been acknowledged after that
  pub data Settles (messages : List Message) (s : World) : Option Delivery → World → Type 0 where
    none_left :
        {ids : List String} {t : World}
        → Parted messages ids []
        → Acked ids s t
        → Settles messages s none t
    scheduled_rest :
        {ids : List String} {jobs : List Parsed} {t : World} (results : List ExecutionResult)
        → Parted messages ids jobs
        → Acked ids s t
        → Settles messages s (some (scheduled jobs results)) t
    fell_back :
        {ids : List String} {jobs : List Parsed} {t : World}
        → Parted messages ids jobs
        → acked t.trace ≡ onto (message_ids messages) (onto ids (acked s.trace))
        → Settles messages s none t

  fall_back-Settles :
      (messages : List Message) (jobs : List Parsed) (s t : World)
      → Checked env messages s jobs t
      → Post (Settles messages s) Anything (fall_back env messages t)
  unfolding fall_back
  fall_back-Settles messages jobs s t (ids, (parted, e)) =
      Post-bind _ _ t (process_each-Acked messages t)
        λ _ u k. Post-return none u (fell_back parted (k ∙ ap (onto (message_ids messages)) e))

  since :
      (messages : List Message) (jobs : List Parsed) (s t u : World)
      → ledger u ≡ ledger t
      → Checked env messages s jobs t
      → Checked env messages s jobs u
  since messages jobs s t u h (ids, (parted, e)) = (ids, (parted, ap (λ l. l.acks) h ∙ e))

  batch_started-ledger :
      {A : Type 0} (r : Result A) (n : ℕ) → Keeps ledger (call (λ _. r) (λ _. batch_started n))
  unfolding call
  batch_started-ledger r n = record { at = λ s. refl }

  run_batch-Settles :
      (messages : List Message) (jobs : List Parsed) (s t : World)
      → Checked env messages s jobs t
      → (found : Option (List (NativeGateIr × ℤ) → Result (List ExecutionResult)))
      → Post (Settles messages s) Anything (run_batch env messages jobs found t)
  unfolding run_batch
  run_batch-Settles messages jobs s t checked none = fall_back-Settles messages jobs s t checked
  run_batch-Settles messages jobs s t checked (some batch_run) =
      Post-try {F = λ _ u. Checked env messages s jobs u} _ _ t
        (Post-bind _ _ t
          (Post-weaken _ (Post-Keeps _ t (batch_started-ledger _ (length jobs)))
            (λ _ u h. since messages jobs s t u h checked)
            (λ _ u h. since messages jobs s t u h checked))
          λ results u (ids, (parted, e)). Post-return _ u (scheduled_rest results parted e))
        λ x u checked.
          Post-if (is_exception x) _ _ u (λ _. fall_back-Settles messages jobs s u checked)
            (λ _. Post-throw x u tt)

  returned-Settles :
      (messages : List Message) (s : World)
      → Post (Settles messages s) Anything (process_batch env messages s)
  unfolding process_batch modify gets
  returned-Settles messages s =
      Post-bind _ _ s (check_messages-Checked env messages s) λ jobs t checked. go jobs t checked
    where
      go :
          (jobs : List Parsed) (t : World)
          → Checked env messages s jobs t
          → Post (Settles messages s) Anything (
              (if is_empty jobs then pure none else do
                modify (λ s. record s { idle = false })
                mark_executing env jobs
                found ← gets (λ s. env.batch_run s.now)
                run_batch env messages jobs found)
                t)
      go [] t (ids, (parted, e)) = Post-return none t (none_left parted e)
      go (job ∷ jobs) t (ids, (parted, e)) =
          Post-bind {R = λ _ u. Checked env messages s (job ∷ jobs) u} _ _ t
            (record { holds = (ids, (parted, e)) })
            λ _ u checked.
              Post-bind {R = λ _ v. Checked env messages s (job ∷ jobs) v} _ _ u
                (Post-weaken _ (Post-Keeps _ u (mark_executing-ledger (job ∷ jobs)))
                  (λ _ v h. since messages (job ∷ jobs) s u v h checked) (λ _ _ _. tt))
                λ _ v checked.
                  Post-bind {R = λ _ w. Checked env messages s (job ∷ jobs) w} _ _ v
                    (record { holds = checked })
                    λ found w checked. run_batch-Settles messages (job ∷ jobs) s w checked found

members_more :
    (x : String) (ids : List String) (messages : List Message)
    → All (λ m. contains ids m.0 ≡ true) messages
    → All (λ m. contains (x ∷ ids) m.0 ≡ true) messages
members_more x ids [] h = h
members_more x ids (m ∷ messages) (here, h) = (ground arith, members_more x ids messages h)

members : (messages : List Message) → All (λ m. contains (message_ids messages) m.0 ≡ true) messages
members [] = tt
members (m ∷ messages) = (
  rw ((str_eq_iff m.0 m.0).1 refl) refl,
  members_more m.0 (message_ids messages) messages (members messages),
)

-- Whatever the outside does: a `_process_batch` that returns has acknowledged the messages that it drops, once
-- each and in their order. Then none is left, or the others make up, in their order, the delivery that it
-- returns, or it has gone on to acknowledge every message of the batch, once each. If it raises, it has
-- acknowledged no message that is not of the batch.
pub process_batch-Settles :
    (env : Env) (messages : List Message) (s : World)
    → Post
        (Settles env messages s)
        (λ _ t. foreign_acks (message_ids messages) t ≡ foreign_acks (message_ids messages) s)
        (process_batch env messages s)
process_batch-Settles env messages s = Post-both _ (returned-Settles env messages s) (
    Post-Keeps _ s
      (process_batch-foreign_acks env (message_ids messages) messages (members messages)))
