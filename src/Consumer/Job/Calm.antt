-- ===== src/Consumer/Job/Calm.antt =====
-- src/coda_node/server/consumer.py: what the steps of a job return where Redis answers and no cancel flag is set.
use coda_self_service.Prelude.{
  ◌≡◌, refl, ℕ, zero, suc, String, ◌<>◌, true, false, Option, none, List, if◌then◌else◌,
}
use coda_self_service.Prelude.Int.{ℤ}
use coda_self_service.Ir.{NativeGateIr}
use coda_self_service.Effects.{
  Exc, is_connection, Result, ok, raise, pure, throw, lift, try, ◌>>=◌, ◌>>◌,
}
use coda_self_service.Effects.Results
use coda_self_service.Effects.Rules.{
  Post, Post-bind, Post-if, Post-return, Post-gets, Post-weaken, Post-finally, Outcome, Post-modify,
}
use coda_self_service.Consumer.State.{ExecutionResult, Event, World, Env, call}
use coda_self_service.Consumer.Redis.{
  status_key, status_text, safe_hset, safe_xack, has_cancel_signal, get_job_status,
}
use coda_self_service.Consumer.Job.{
  is_settled, set_live, start_run, await_wait, cancel_run, cancel_if_live, poll, run_job,
  raise_if_cancelled, set_state,
}

-- a command of Redis is answered, or the connection is lost, which is logged
abbrev pub Tolerable : Result (Unit {0}) → Type 0
Tolerable (ok answer) = Unit
Tolerable (raise e) = is_connection e ≡ true

-- Redis answers what a job needs to be executed, and the wait for the executor is not cut short.
pub record Undisturbed (env : Env) (job_id : String) : Type 0 where
  pub unsettled :
      (t : ℕ)
      → (status : Option String) × ((Results.◌>>=◌
              (env.hget t (status_key job_id))
              (status_text env)
            ≡ ok status)
          × (is_settled status ≡ false))
  pub unflagged : (t : ℕ) → env.get t ("qpu:job:cancelled:" <> job_id) ≡ ok none
  pub written : (t : ℕ) (key : String) → Tolerable (env.hset_reply t key)
  pub sent : (t : ℕ) (message_id : String) → Tolerable (env.xack_reply t message_id)
  pub waits : (t : ℕ) → env.wait t ≡ ok tt

abbrev pub Anything {ℓ} : {A : Type ℓ} → A → World → Type 0
Anything _ _ = Unit

abbrev pub Never : Exc → World → Type 0
Never _ _ = ⊥

-- a command whose lost connection is logged
tolerated :
    (ask : ℕ → Result (Unit {0})) (note : Result (Unit {0}) → Event) (s : World)
    → Tolerable (ask s.now)
    → Post Anything Never
        (try (do call ask note; pure true) (λ e. if is_connection e then pure false else throw e) s)
unfolding call ◌>>=◌ try pure
tolerated ask note s h = go (ask s.now) refl h
  where
    go :
        (r : Result (Unit {0}))
        → ask s.now ≡ r
        → Tolerable r
        → Post Anything Never (
            try
              (do call ask note; pure true)
              (λ e. if is_connection e then pure false else throw e)
              s)
    go (ok a) e h = rw e (record { holds = tt })
    go (raise x) e h = rw (e, h) (record { holds = tt })

-- the outcome of the task of the executor
abbrev pub Yields : {A : Type 0} → Result A → A → World → Type 0
Yields r result _ = r ≡ ok result

abbrev pub Fails : {A : Type 0} → Result A → Exc → World → Type 0
Fails r e _ = r ≡ raise e

moved :
    {A : Type 0} (r x : Result A) (t u : World)
    → Outcome (Yields r) (Fails r) (x, t)
    → Outcome (Yields r) (Fails r) (x, u)
moved r (ok result) t u h = h
moved r (raise e) t u h = h

pub lift-Yields : {A : Type 0} (r : Result A) (s : World) → Post (Yields r) (Fails r) (lift r s)
unfolding lift
lift-Yields (ok result) s = record { holds = refl }
lift-Yields (raise e) s = record { holds = refl }

module _ (env : Env) (job_id : String) (calm : Undisturbed env job_id) where
  pub safe_hset-returns :
      (key : String) (m : List (String × String)) (s : World)
      → Post Anything Never (safe_hset env key m s)
  unfolding safe_hset
  safe_hset-returns key m s = tolerated _ _ s (calm.written s.now key)

  pub safe_xack-returns : (id : String) (s : World) → Post Anything Never (safe_xack env id s)
  unfolding safe_xack
  safe_xack-returns id s = tolerated _ _ s (calm.sent s.now id)

  pub has_cancel_signal-returns :
      (s : World) → Post (λ flagged _. flagged ≡ false) Never (has_cancel_signal env job_id s)
  unfolding has_cancel_signal call ◌>>=◌ pure
  has_cancel_signal-returns s = rw (calm.unflagged s.now) (record { holds = refl })

  pub get_job_status-returns :
      (s : World) → Post (λ status _. is_settled status ≡ false) Never (get_job_status env job_id s)
  unfolding get_job_status call ◌>>=◌ lift
  get_job_status-returns s =
      let (status, (e, unsettled)) = calm.unsettled s.now in
      let (found, (a, b)) = Results.>>=-eq-ok (env.hget s.now (status_key job_id)) _ e in
      rw (a, b) (record { holds = unsettled })

  pub set_state-returns :
      (state stamp : String) (more : List (String × String)) (s : World)
      → Post Anything Never (set_state env job_id state stamp more s)
  set_state-returns state stamp more s =
      Post-bind {R = Anything} _ _ s (Post-gets _ s tt) λ at t _. safe_hset-returns _ _ t

  pub raise_if_cancelled-returns :
      (s : World) → Post Anything Never (raise_if_cancelled env job_id s)
  unfolding raise_if_cancelled
  raise_if_cancelled-returns s =
      Post-bind _ _ s (has_cancel_signal-returns s) λ flagged t e. rw e (Post-return tt t tt)

  await_wait-returns : (s : World) → Post Anything Never (await_wait env s)
  unfolding await_wait call
  await_wait-returns s = rw (calm.waits s.now) (record { holds = tt })

  poll-Yields :
      (polls : ℕ) (r : Result ExecutionResult) (s : World)
      → Post (Yields r) (Fails r) (poll env polls r job_id s)
  unfolding poll set_live
  poll-Yields zero r s =
      Post-bind {R = Anything} _ _ s
        (Post-weaken _ (await_wait-returns s) (λ _ _ _. tt) (λ e _ h. absurd h))
        λ _ t _. Post-bind {R = Anything} _ _ t (Post-modify _ t tt) λ _ u _.
          Post-bind _ _ u (lift-Yields r u) λ result v e.
            Post-bind _ _ v
              (Post-weaken _ (has_cancel_signal-returns v) (λ _ _ h. h) (λ e _ h. absurd h))
              λ flagged w clear. rw clear (Post-return result w e)
  poll-Yields (suc polls) r s =
      Post-bind {R = Anything} _ _ s
        (Post-weaken _ (await_wait-returns s) (λ _ _ _. tt) (λ e _ h. absurd h))
        λ _ t _.
          Post-bind _ _ t
            (Post-weaken _ (has_cancel_signal-returns t) (λ _ _ h. h) (λ e _ h. absurd h))
            λ flagged u clear. rw clear (poll-Yields polls r u)

  cancel_if_live-returns : (s : World) → Post Anything Never (cancel_if_live env s)
  unfolding cancel_if_live cancel_run call
  cancel_if_live-returns s =
      Post-bind {R = Anything} _ _ s (Post-gets _ s tt)
        λ live t _. Post-if live _ _ t (λ _. record { holds = tt }) (λ _. Post-return tt t tt)

  pub run_job-Yields :
      (ir : NativeGateIr) (shots : ℤ) (r : Result ExecutionResult) (s : World)
      → ((n : ℕ) → (env.run n ir shots).outcome ≡ r)
      → Post (Yields r) (Fails r) (run_job env job_id ir shots s)
  unfolding run_job start_run set_live call
  run_job-Yields ir shots r s runs =
      Post-bind {R = λ task _. task.outcome ≡ r} _ _ s
        (Post-bind {R = Anything} _ _ s (Post-modify _ s tt) λ _ u _. record { holds = runs u.now })
        λ task t e. rw e (
          Post-finally _ _ t (
            Post-weaken _ (cancel_if_live-returns _)
              (λ _ u _. moved r _ _ u (poll-Yields task.polls r t).holds) (λ x _ h. absurd h)))
