-- ===== src/Consumer/Loop/Recovery.antt =====
-- src/coda_node/server/consumer.py, `recover_pending`: which messages are acknowledged.
use coda_self_service.Prelude.{
  ◌⊎◌, ◌≡◌, refl, ap, ◌∙◌, inl, inr, ℕ, suc, ◌+◌, String, true, List, [], ◌∷◌, length, contains,
  All, str_eq_iff, arith,
}
use coda_self_service.Effects.{Result, ok, raise, ◌>>=◌}
use coda_self_service.Effects.Rules.{
  Keeps, Keeps-bind, keeps_rules, Post, Post-bind, Post-return, Post-both, Post-Keeps, Post-weaken,
}
use coda_self_service.Consumer.State.{Message, message_read, World, Env, call}
use coda_self_service.Consumer.Job.Acknowledgement.{process_message-Handles}
use coda_self_service.Consumer.Trace.{acked, onto}
use coda_self_service.Consumer.Batch.Foreign.{foreign_acks, process_message-foreign_acks}
use coda_self_service.Consumer.Loop.{recover_message, recover_each, recover_pending}

-- some of a list, in its order
pub data Part : List String → List String → Type 0 where
  none_of : Part [] []
  without : (id : String) {ids all : List String} → Part ids all → Part ids (id ∷ all)
  with_it : (id : String) {ids all : List String} → Part ids all → Part (id ∷ ids) (id ∷ all)

abbrev Anything {ℓ} : {A : Type ℓ} → A → World → Type 0
Anything _ _ = Unit

-- from a state on, so many messages of a list have been acknowledged, in its order and no other
abbrev pub Recovers : List String → World → ℕ → World → Type 0
Recovers pending s n t =
    (ids : List String) × ((length ids ≡ n)
      × (Part ids pending × (acked t.trace ≡ onto ids (acked s.trace))))

module _ (env : Env) where
  -- the message is acknowledged, if the stream still has it
  abbrev Found : String → World → ℕ → World → Type 0
  Found id s n t =
      ((n ≡ 0) × (acked t.trace ≡ acked s.trace)) ⊎ ((n ≡ 1) × (acked t.trace ≡ id ∷ acked s.trace))

  recover_message-Found :
      (id : String) (messages : List Message) (s : World)
      → Post (Found id s) Anything (recover_message env id messages s)
  unfolding recover_message
  recover_message-Found id [] s = Post-return 0 s (inl (refl, refl))
  recover_message-Found id (m ∷ messages) s =
      Post-bind {R = λ _ t. acked t.trace ≡ id ∷ acked s.trace} _ _ s
        (Post-weaken _ (process_message-Handles env id s m.1)
          (λ _ t h. elim h [
            | inl sent ↦ ap (λ l. l.acks) sent
            | inr closed ↦ ap (λ l. l.acks) closed
          ])
          (λ _ _ _. tt))
        λ _ t h. Post-return 1 t (inr (refl, h))

  -- the count goes up by the messages that are acknowledged
  abbrev Counts : List String → ℕ → World → ℕ → World → Type 0
  Counts entries before s n t = (more : ℕ) × ((n ≡ before + more) × Recovers entries s more t)

  next_entry :
      (id : String) (entries : List String) (before n total : ℕ) (s t u : World)
      → Found id s n t
      → Counts entries (before + n) t total u
      → Counts (id ∷ entries) before s total u
  next_entry id entries before n total s t u (inl (none, e))
        (more, (count, (ids, (size, (part, k))))) =
      (more, (omega (arith, none, count), (ids, (size, (without id part, k ∙ ap (onto ids) e)))))
  next_entry id entries before n total s t u (inr (one, e))
        (more, (count, (ids, (size, (part, k))))) =
      (
        suc more,
        (
          omega (arith, one, count),
          (id ∷ ids, (ap suc size, (with_it id part, k ∙ ap (onto ids) e))),
        ),
      )

  call-acked :
      (id : String) (s : World)
      → Post
          (λ _ t. acked t.trace ≡ acked s.trace)
          Anything
          (call (λ t. env.xrange t id) (λ _. message_read id) s)
  unfolding call
  call-acked id s = go (env.xrange s.now id)
    where
      go :
          (r : Result (List Message))
          → Post
              (λ _ t. acked t.trace ≡ acked s.trace)
              Anything
              (r, record s { now = suc s.now; trace = message_read id ∷ s.trace })
      go (ok messages) = record { holds = refl }
      go (raise e) = record { holds = tt }

  recover_each-Counts :
      (entries : List String) (before : ℕ) (s : World)
      → Post (Counts entries before s) Anything (recover_each env before entries s)
  unfolding recover_each
  recover_each-Counts [] before s =
      Post-return before s (0, (omega arith, ([], (refl, (none_of, refl)))))
  recover_each-Counts (id ∷ entries) before s = Post-bind _ _ s (call-acked id s) λ messages t same.
      Post-bind _ _ t (recover_message-Found id messages t) λ n u found.
        Post-weaken _ (recover_each-Counts entries (before + n) u)
          (λ total v counts.
            next_entry id entries before n total s u v
              (elim found [
                | inl (z, e) ↦ inl (z, e ∙ same)
                | inr (o, e) ↦ inr (o, e ∙ ap (λ l. id ∷ l) same)
              ])
              counts)
          (λ _ _ _. tt)

  module _ (ids : List String) where
    recover_message-foreign_acks :
        (id : String) (messages : List Message)
        → contains ids id ≡ true
        → Keeps (foreign_acks ids) (recover_message env id messages)
    unfolding recover_message
    recover_message-foreign_acks id [] own = search keeps_rules
    recover_message-foreign_acks id (m ∷ messages) own =
        let processed = process_message-foreign_acks env ids (id, m.1) own in
        search keeps_rules depth 14

    recover_each-foreign_acks :
        (entries : List String) (before : ℕ)
        → All (λ id. contains ids id ≡ true) entries
        → Keeps (foreign_acks ids) (recover_each env before entries)
    unfolding recover_each call
    recover_each-foreign_acks [] before own = search keeps_rules
    recover_each-foreign_acks (id ∷ entries) before (here, own) =
        let asked : Keeps (foreign_acks ids) (call (λ t. env.xrange t id) (λ _. message_read id)) =
          record { at = λ s. refl } in
        Keeps-bind _ _ asked λ messages.
          Keeps-bind _ _ (recover_message-foreign_acks id messages here)
            λ n. recover_each-foreign_acks entries (before + n) own

members_more :
    (x : String) (ids all : List String)
    → All (λ id. contains all id ≡ true) ids
    → All (λ id. contains (x ∷ all) id ≡ true) ids
members_more x [] all h = h
members_more x (id ∷ ids) all (here, h) = (ground arith, members_more x ids all h)

members : (ids : List String) → All (λ id. contains ids id ≡ true) ids
members [] = tt
members (id ∷ ids) = (rw ((str_eq_iff id id).1 refl) refl, members_more id ids ids (members ids))

-- Where Redis lists the pending messages: a `recover_pending` that returns has acknowledged, once each and in
-- their order, as many of them as it says, and no other message. If it raises, it has acknowledged no message that
-- is not listed.
pub recover_pending-Recovers :
    (env : Env) (pending : List String) (s : World)
    → env.xpending_range s.now ≡ ok pending
    → Post
        (Recovers pending s)
        (λ _ t. foreign_acks pending t ≡ foreign_acks pending s)
        (recover_pending env s)
unfolding recover_pending call ◌>>=◌
recover_pending-Recovers env pending s listed = rw listed (
    Post-both _
      (Post-weaken _ (recover_each-Counts env pending 0 _)
        (λ n t (more, (e, (ids, (size, rest)))). (ids, (omega (arith, size, e), rest)))
        (λ _ _ _. tt))
      (Post-Keeps _ _ (recover_each-foreign_acks env pending pending 0 (members pending))))
