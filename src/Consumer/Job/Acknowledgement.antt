-- ===== src/Consumer/Job/Acknowledgement.antt =====
-- src/coda_node/server/consumer.py, `_process_message`: the message is acknowledged once, and the
-- consumer is idle again.
use coda_self_service.Prelude.{
  ◌≡◌, refl, ◌⊎◌, inl, inr, ap, ◌∙◌, String, Bool, true, false, Option, none, some, List, ◌∷◌,
  arith, if◌then◌else◌,
}
use coda_self_service.Effects.{Action, ◌>>=◌, finally, modify, pure}
use coda_self_service.Effects.Rules.{
  Keeps-try, Keeps-lift, Post, Keeps, Post-bind, Post-Keeps, Post-finally, Post-weaken,
  Outcome-both,
}
use coda_self_service.Consumer.State.{Fields, World, Env, call}
use coda_self_service.Consumer.Redis.{safe_xack, decode_fields}
use coda_self_service.Consumer.Job.{
  set_in_flight, run_message, admit_message, dispatch, process_message, is_settled, required,
  finish, skip, reset_in_flight,
}
use coda_self_service.Consumer.Redis.Views.{
  get_job_status-view, has_cancel_signal-view, mark_job_cancelled-view,
}
use coda_self_service.Consumer.Job.Views.{set_state-view}
use coda_self_service.Consumer.Trace.{ledger, acked, ledger-Blind}
use coda_self_service.Consumer.Job.Ledger.{execute-ledger, handle-ledger}

-- the outcome of an acknowledgement: sent, whatever the reply
abbrev pub Sent : {A : Type 0} → String → World → A → World → Type 0
Sent id s _ s' = ledger s' ≡ record (ledger s) { acks = id ∷ acked s.trace }

module _ (env : Env) (id : String) where
  pub safe_xack-Sent : (s : World) → Post (Sent id s) (Sent id s) (safe_xack env id s)
  unfolding safe_xack call ◌>>=◌
  safe_xack-Sent s = record { holds = ground arith }

  pure-Sent : (s s' : World) → Sent id s tt s' → Post (Sent id s) (Sent id s) (pure tt s')
  unfolding pure
  pure-Sent s s' h = record { holds = h }

  pub skip-Sent : (s : World) → Post (Sent id s) (Sent id s) (skip env id s)
  skip-Sent s = Post-bind _ _ s (safe_xack-Sent s) (λ b s' h. pure-Sent s s' h)

-- The message is acknowledged once more than before, and no job is in flight.
abbrev pub Closed : String → World → World → Type 0
Closed id s s' = ledger s' ≡ record { acks = id ∷ acked s.trace; idle = true; current = none }

-- After a raise: acknowledged once more than before, or not at all.
abbrev pub AtMostOnce : String → World → World → Type 0
AtMostOnce id s s' = (acked s'.trace ≡ acked s.trace) ⊎ (acked s'.trace ≡ id ∷ acked s.trace)

module _ (env : Env) (id : String) where
  reset-Closed :
      (s s' : World)
      → Sent id s tt s'
      → Post (λ _ t. Closed id s t) (λ _ t. AtMostOnce id s t) (reset_in_flight s')
  unfolding reset_in_flight modify
  reset-Closed s s' h = record { holds = cc h }

  finish-Closed :
      (s : World) → Post (λ _ s'. Closed id s s') (λ _ s'. AtMostOnce id s s') (finish env id s)
  unfolding finish
  finish-Closed s =
      Post-bind _ _ s
        (Post-weaken _ (safe_xack-Sent env id s) (λ b s' h. h) (λ e s' h. inr (ap (λ l. l.acks) h)))
        (λ b s' h. reset-Closed s s' h)

  -- an action that changes nothing of the ledger, and then `finish`, whatever its outcome
  finally-Closed :
      (m : Action World (Unit {0})) (s : World)
      → Keeps ledger m
      → Post (λ _ s'. Closed id s s') (λ _ s'. AtMostOnce id s s') (finally m (finish env id) s)
  finally-Closed m s k =
      let same : acked (m s).1.trace ≡ acked s.trace = ap (λ l. l.acks) (k.at s) in
      Post-finally m (finish env id) s (
        Post-weaken _ (finish-Closed (m s).1)
          (λ a s' h.
            Outcome-both (λ _ t. Closed id s t) (λ _ t. AtMostOnce id s t) (m s).0 s'
              (λ _. rw (← same) h) (λ _. inr (rw (← same) (ap (λ l. l.acks) h))))
          (λ e s' h. rw (← same) h))

-- Before the message no job is in flight.
abbrev pub AtRest : World → Type 0
AtRest s = (s.idle ≡ true) × (s.current_job_id ≡ none)

-- Acknowledged once more than before, and no job is in flight, or the consumer is as before.
abbrev pub Handles : String → World → World → Type 0
Handles id s s' = Sent id s tt s' ⊎ Closed id s s'

module _ (env : Env) (id : String) where
  abbrev Handled : World → Action World (Unit {0}) → Type 0
  Handled s m =
      (t : World)
      → ledger t ≡ ledger s
      → Post (λ _ s'. Handles id s s') (λ _ s'. AtMostOnce id s s') (m t)

  -- `AtMostOnce`, where nothing has been acknowledged yet
  abbrev Before : World → {A : Type 0} → A → World → Type 0
  Before s _ s' = acked s'.trace ≡ acked s.trace

  set_in_flight-Before :
      (s t : World) (job_id : String)
      → ledger t ≡ ledger s
      → Post (Before s) (λ _ s'. AtMostOnce id s s') (set_in_flight job_id t)
  unfolding set_in_flight modify
  set_in_flight-Before s t job_id e = record { holds = ap (λ l. l.acks) e }

  -- a step that keeps the ledger, before the acknowledgement
  Keeps-Before :
      {A : Type 0} (m : Action World A) (s t : World)
      → Keeps ledger m
      → acked t.trace ≡ acked s.trace
      → Post (Before s) (λ _ s'. AtMostOnce id s s') (m t)
  Keeps-Before m s t k e =
      Post-weaken _ (Post-Keeps m t k) (λ _ u h. ap (λ l. l.acks) h ∙ e)
        (λ _ u h. inl (ap (λ l. l.acks) h ∙ e))

  run_message-Handled :
      (s : World) (job_id url : String) (d : List (String × String))
      → Handled s (run_message env id job_id url d)
  unfolding run_message
  run_message-Handled s job_id url d t e =
      Post-bind _ _ t (set_in_flight-Before s t job_id e) λ _ t' a.
        Post-bind _ _ t' (Keeps-Before _ s t' (set_state-view env ledger-Blind.deaf job_id _ _ _) a)
          λ _ u b.
            Post-weaken _
              (finally-Closed env id _ u
                (Keeps-try _ _ (execute-ledger env job_id url d) (handle-ledger env id job_id url)))
              (λ _ w h. inr (rw (← b) h)) (λ _ w h. rw (← b) h)

  module _ (s : World) where
    skip-Handled : Handled s (skip env id)
    skip-Handled t e =
        Post-weaken _ (skip-Sent env id t) (λ _ s' h. inl (ground arith))
          (λ _ s' h. inr (ground arith))

    -- a step that keeps the ledger, and then the rest
    then-Handled :
        {A : Type 0} (m : Action World A) (f : A → Action World (Unit {0}))
        → Keeps ledger m
        → ((a : A) → Handled s (f a))
        → Handled s (m >>= f)
    then-Handled m f k h t e =
        Post-bind m f t
          (Post-weaken _ (Post-Keeps m t k) (λ _ u p. p ∙ e)
            (λ _ u p. inl (ap (λ l. l.acks) (p ∙ e))))
          (λ a u p. h a u p)

    if-Handled :
        (b : Bool) (m n : Action World (Unit {0}))
        → Handled s m
        → Handled s n
        → Handled s (if b then m else n)
    if-Handled true m n h k = h
    if-Handled false m n h k = k

    admit_message-Handled :
        (job_id url : String) (d : List (String × String))
        → Handled s (admit_message env id job_id url d)
    unfolding admit_message
    admit_message-Handled job_id url d =
        then-Handled _ _ (get_job_status-view env ledger-Blind.deaf job_id) λ status.
          if-Handled (is_settled status) _ _ skip-Handled (
            then-Handled _ _ (has_cancel_signal-view env ledger-Blind job_id) λ flagged.
              if-Handled flagged _ _
                (then-Handled _ _ (mark_job_cancelled-view env ledger-Blind.deaf job_id id)
                  λ _. skip-Handled)
                (run_message-Handled s job_id url d))

    dispatch-Handled :
        (d : List (String × String)) (keys : Option (String × String))
        → Handled s (dispatch env id d keys)
    dispatch-Handled d none = skip-Handled
    dispatch-Handled d (some (job_id, url)) = admit_message-Handled job_id url d

    pub process_message-Handles :
        (fields : Fields)
        → Post
            (λ _ s'. Handles id s s')
            (λ _ s'. AtMostOnce id s s')
            (process_message env id fields s)
    unfolding process_message
    process_message-Handles fields =
        then-Handled _ _ (Keeps-lift (decode_fields env fields))
          (λ d. dispatch-Handled d (required d)) s refl

    -- For a message that comes while no job is in flight, whatever the outside does: if
    -- `_process_message` returns, it has sent the acknowledgement of the message once, of no other
    -- message, and again no job is in flight. If it raises, it has sent it once or not at all.
    pub process_message-acks :
        AtRest s
        → (fields : Fields)
        → Post
            (λ _ s'. Closed id s s')
            (λ _ s'. AtMostOnce id s s')
            (process_message env id fields s)
    process_message-acks r fields =
        Post-weaken _ (process_message-Handles fields)
          (λ _ s' h. elim h [ inl sent ↦ ground arith | inr closed ↦ closed ]) (λ _ s' h. h)
