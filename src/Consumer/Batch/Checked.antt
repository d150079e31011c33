-- ===== src/Consumer/Batch/Checked.antt =====
-- src/coda_node/server/consumer.py, `_process_batch`: the checks of the messages, before a job is run.
use coda_self_service.Prelude.{◌≡◌, refl, ap, ◌∙◌, String, Option, none, some, List, [], ◌∷◌}
use coda_self_service.Ir.{from_json}
use coda_self_service.Effects.{is_exception, Result, ok, raise, Action}
use coda_self_service.Effects.Results
use coda_self_service.Effects.Rules.{
  Keeps, Keeps-lift, Post, Post-bind, Post-if, Post-throw, Post-return, Post-Keeps, Post-weaken,
}
use coda_self_service.Consumer.State.{Message, Parsed, World, Env}
use coda_self_service.Consumer.Redis.{decode_fields}
use coda_self_service.Consumer.Redis.Views.{
  get_job_status-view, has_cancel_signal-view, mark_job_cancelled-view,
}
use coda_self_service.Consumer.Job.{is_settled, item, int_item, required}
use coda_self_service.Consumer.Job.Acknowledgement.{safe_xack-Sent}
use coda_self_service.Consumer.Trace.{ledger, acked, onto, ledger-Blind}
use coda_self_service.Consumer.Batch.{
  drop_message, keep_parsed, parse_job, check_job, check_message, check_messages, add_job,
}

-- the messages of a batch, those that are dropped, and the jobs of the others, each in their order
pub data Parted : List Message → List String → List Parsed → Type 0 where
  nobody : Parted [] [] []
  dropped :
      (m : Message) {messages : List Message} {ids : List String} {jobs : List Parsed}
      → Parted messages ids jobs
      → Parted (m ∷ messages) (m.0 ∷ ids) jobs
  kept :
      (m : Message) (job : Parsed) {messages : List Message} {ids : List String}
      {jobs : List Parsed}
      → job.message_id ≡ m.0
      → Parted messages ids jobs
      → Parted (m ∷ messages) ids (job ∷ jobs)

-- what has been acknowledged since a state
abbrev pub Acked : List String → World → World → Type 0
Acked ids s t = acked t.trace ≡ onto ids (acked s.trace)

abbrev Anything {ℓ} : {A : Type ℓ} → A → World → Type 0
Anything _ _ = Unit

-- a message that has been looked at is acknowledged, or its job is kept
abbrev Looked : String → World → Option Parsed → World → Type 0
Looked id s none t = Acked (id ∷ []) s t
Looked id s (some job) t = Acked [] s t × (job.message_id ≡ id)

module _ (env : Env) where
  Keeps-Acked :
      {A : Type 0} (m : Action World A) (s t : World)
      → Keeps ledger m
      → Acked [] s t
      → Post (λ _ u. Acked [] s u) Anything (m t)
  Keeps-Acked m s t k e =
      Post-weaken _ (Post-Keeps m t k) (λ _ u h. ap (λ l. l.acks) h ∙ e) (λ _ _ _. tt)

  drop_message-Looked :
      (id : String) (s t : World)
      → Acked [] s t
      → Post (Looked id s) Anything (drop_message env id t)
  drop_message-Looked id s t e =
      Post-bind {R = λ _ u. Acked (id ∷ []) s u} _ _ t
        (Post-weaken _ (safe_xack-Sent env id t) (λ _ u h. ap (λ l. l.acks) h ∙ ap (λ l. id ∷ l) e)
          (λ _ _ _. tt))
        λ _ u h. Post-return none u h

  keep_parsed-Looked :
      (id : String) (r : Result Parsed) (s t : World)
      → ((job : Parsed) → r ≡ ok job → job.message_id ≡ id)
      → Acked [] s t
      → Post (Looked id s) Anything (keep_parsed env id r t)
  unfolding keep_parsed
  keep_parsed-Looked id (ok job) s t same e = Post-return (some job) t (e, same job refl)
  keep_parsed-Looked id (raise x) s t same e =
      Post-if (is_exception x) _ _ t (λ _. drop_message-Looked id s t e) (λ _. Post-throw x t tt)

  parse_job-id :
      (id job_id url : String) (d : List (String × String)) (job : Parsed)
      → parse_job env id job_id url d ≡ ok job
      → job.message_id ≡ id
  unfolding parse_job
  parse_job-id id job_id url d job h =
      let (text, (a, h)) = Results.>>=-eq-ok (item "ir_json" d) _ h in
      let (ir, (b, h)) = Results.>>=-eq-ok (from_json env.decode_json text) _ h in
      let (number, (c, h)) = Results.>>=-eq-ok (item "shots" d) _ h in
      let (shots, (e, h)) = Results.>>=-eq-ok (int_item number) _ h in cc h

  check_job-Looked :
      (id : String) (d : List (String × String)) (keys : Option (String × String)) (s t : World)
      → Acked [] s t
      → Post (Looked id s) Anything (check_job env id d keys t)
  unfolding check_job
  check_job-Looked id d none s t e = drop_message-Looked id s t e
  check_job-Looked id d (some (job_id, url)) s t e =
      Post-bind _ _ t (Keeps-Acked _ s t (get_job_status-view env ledger-Blind.deaf job_id) e)
        λ status u e.
          Post-if (is_settled status) _ _ u (λ _. drop_message-Looked id s u e)
            λ _.
              Post-bind _ _ u (Keeps-Acked _ s u (has_cancel_signal-view env ledger-Blind job_id) e)
                λ flagged v e.
                  Post-if flagged _ _ v
                    (λ _.
                      Post-bind _ _ v
                        (Keeps-Acked _ s v (mark_job_cancelled-view env ledger-Blind.deaf job_id id)
                          e)
                        λ _ w e. drop_message-Looked id s w e)
                    (λ _.
                      keep_parsed-Looked id _ s v (λ job h. parse_job-id id job_id url d job h) e)

  check_message-Looked :
      (m : Message) (s : World) → Post (Looked m.0 s) Anything (check_message env m s)
  unfolding check_message
  check_message-Looked (id, fields) s =
      Post-bind _ _ s (Keeps-Acked _ s s (Keeps-lift (decode_fields env fields)) refl)
        λ d t e. check_job-Looked id d (required d) s t e

  -- the messages that have been looked at
  abbrev pub Checked : List Message → World → List Parsed → World → Type 0
  Checked messages s jobs t = (ids : List String) × (Parted messages ids jobs × Acked ids s t)

  join-Checked :
      (m : Message) (messages : List Message) (found : Option Parsed) (jobs : List Parsed)
      (s t u : World)
      → Looked m.0 s found t
      → Checked messages t jobs u
      → Checked (m ∷ messages) s (add_job env found jobs) u
  join-Checked m messages none jobs s t u h (ids, (parted, k)) =
      (m.0 ∷ ids, (dropped m parted, k ∙ ap (onto ids) h))
  join-Checked m messages (some job) jobs s t u (h, same) (ids, (parted, k)) =
      (ids, (kept m job same parted, k ∙ ap (onto ids) h))

  pub check_messages-Checked :
      (messages : List Message) (s : World)
      → Post (Checked messages s) Anything (check_messages env messages s)
  unfolding check_messages
  check_messages-Checked [] s = Post-return [] s ([], (nobody, refl))
  check_messages-Checked (m ∷ messages) s = Post-bind _ _ s (check_message-Looked m s) λ found t h.
      Post-bind _ _ t (check_messages-Checked messages t)
        λ jobs u k. Post-return _ u (join-Checked m messages found jobs s t u h k)
