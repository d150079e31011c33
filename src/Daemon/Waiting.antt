-- ===== src/Daemon/Waiting.antt =====
-- src/coda_node/server/daemon.py, the loop of `stop_daemon`: it ends.
use coda_self_service.Prelude.{
  ◌≡◌, refl, ap, fun_ext, ℕ, zero, suc, ◌+◌, ◌-◌, ◌<◌, Bool, true, false, Option, none, some, arith,
  ltb, if◌then◌else◌,
}
use coda_self_service.Prelude.Int.{ℤ}
use coda_self_service.Effects.{
  is_connection, Result, ok, raise, Action, pure, throw, gets, continue, ◌>>=◌,
}
use coda_self_service.Effects.Rules.{Post, Post-try, Post-bind, Post-if, Post-return, Outcome-both}
use coda_self_service.Effects.Fuel.{continue-agree, if-agree}
use coda_self_service.Daemon.State.{
  Event, signalled, ran_taskkill, slept, sigterm, World, Env, call,
}
use coda_self_service.Daemon.{
  process_exists, wait_exit, terminate, stop_pid, stop_daemon, read_daemon_pid,
}

module _ (env : Env) (pid : ℤ) where
  abbrev Next : World → World → Type 0
  Next s t = t.now ≡ suc s.now

  call-Next :
      {A : Type 0} (ask : ℕ → Result A) (event : Event) (s : World)
      → Post (λ _ t. Next s t) (λ _ t. Next s t) (call ask event s)
  unfolding call
  call-Next ask event s = record {
    holds = Outcome-both (λ _ t. Next s t) (λ _ t. Next s t) (ask s.now) _ (λ _. refl) (λ _. refl);
  }

  process_exists-Next :
      (s : World) → Post (λ _ t. Next s t) (λ _ t. Next s t) (process_exists env pid s)
  unfolding process_exists throw
  process_exists-Next s =
      Post-try {F = λ _ t. Next s t} _ _ s
        (Post-bind {R = λ _ t. Next s t} _ _ s (call-Next _ _ s) (λ _ t h. Post-return true t h))
        λ e t h.
          Post-if (is_connection e) _ _ t (λ _. Post-return false t h) (λ _. record { holds = h })

  module _ (advances : (t : ℕ) → env.monotonic t < env.monotonic (suc t)) where
    -- a round that found the process, followed by two ways to go on that agree after the wait
    agree :
        (s : World) (f g : Action World (Unit {0}))
        → ((t : World) → t.now ≡ suc (suc s.now) → f t ≡ g t)
        → (x : Result Bool × World) → Post (λ _ t. Next s t) (λ _ t. Next s t) x
        → continue x (λ alive. if alive then (call env.sleep (slept 100) >>= λ _. f) else pure tt)
          ≡ continue x (λ alive. if alive then (call env.sleep (slept 100) >>= λ _. g) else pure tt)
    unfolding call ◌>>=◌
    agree s f g h (raise e, t) p = refl
    agree s f g h (ok false, t) p = refl
    agree s f g h (ok true, t) p = continue-agree (env.sleep t.now) _ f g (h _ (ap suc p.holds))

    wait_exit-enough :
        (rounds more deadline : ℕ) (s : World)
        → deadline - env.monotonic s.now < rounds
        → wait_exit env (rounds + more) deadline pid s ≡ wait_exit env rounds deadline pid s
    unfolding wait_exit gets ◌>>=◌
    wait_exit-enough zero more deadline s h = absurd (omega arith)
    wait_exit-enough (suc rounds) more deadline s h =
        let e : suc rounds + more ≡ suc (rounds + more) = omega arith in
        rw e (
          if-agree (ltb (env.monotonic s.now) deadline) _ _ _ s λ early.
            agree s _ _ (λ t now. wait_exit-enough rounds more deadline t (rw now (later early)))
              (process_exists env pid s) (process_exists-Next s))
      where
        later :
            ltb (env.monotonic s.now) deadline ≡ true
            → deadline - env.monotonic (suc (suc s.now)) < rounds
        later early =
            let before : env.monotonic s.now < deadline = ground arith in
            omega (arith, advances s.now, advances (suc s.now))

    -- the wait after SIGTERM
    waits : ℕ → ℕ → Action World (Unit {0})
    waits rounds timeout =
        gets (λ s. env.monotonic s.now) >>= λ now. wait_exit env rounds (now + timeout) pid

    waits-enough :
        (rounds more timeout : ℕ) (u : World)
        → timeout < rounds
        → waits (rounds + more) timeout u ≡ waits rounds timeout u
    unfolding waits gets ◌>>=◌
    waits-enough rounds more timeout u h =
        wait_exit-enough rounds more (env.monotonic u.now + timeout) u (omega arith)

    signalled-enough :
        (rounds more timeout : ℕ)
        → timeout < rounds
        → (call (λ t. env.kill t pid sigterm) (signalled pid sigterm) >>= λ _.
            waits (rounds + more) timeout)
          ≡ (call (λ t. env.kill t pid sigterm) (signalled pid sigterm) >>= λ _.
              waits rounds timeout)
    unfolding call ◌>>=◌
    signalled-enough rounds more timeout h = fun_ext λ s.
        continue-agree (env.kill s.now pid sigterm) _ (waits (rounds + more) timeout)
          (waits rounds timeout) (waits-enough rounds more timeout _ h)

    terminate-enough :
        (rounds more timeout : ℕ)
        → timeout < rounds
        → terminate env (rounds + more) timeout pid ≡ terminate env rounds timeout pid
    unfolding terminate waits
    terminate-enough rounds more timeout h =
        ap (λ m. if env.windows then call (λ t. env.taskkill t pid) (ran_taskkill pid) else m)
          (signalled-enough rounds more timeout h)

  stop_pid-enough :
      ((t : ℕ) → env.monotonic t < env.monotonic (suc t))
      → (rounds more timeout : ℕ) → timeout < rounds
      → stop_pid env (rounds + more) timeout (some pid) ≡ stop_pid env rounds timeout (some pid)
  unfolding stop_pid
  stop_pid-enough advances rounds more timeout h =
      rw (terminate-enough advances rounds more timeout h) refl

module _ (env : Env) (advances : (t : ℕ) → env.monotonic t < env.monotonic (suc t)) where
  either-enough :
      (rounds more timeout : ℕ) (pid : Option ℤ)
      → timeout < rounds
      → stop_pid env (rounds + more) timeout pid ≡ stop_pid env rounds timeout pid
  unfolding stop_pid
  either-enough rounds more timeout none h = refl
  either-enough rounds more timeout (some pid) h =
      stop_pid-enough env pid advances rounds more timeout h

  -- With a clock that advances from each call to the next, more rounds than the timeout has nanoseconds are
  -- enough for `stop_daemon`: a loop that may take any number of rounds more has the same outcome and
  -- leaves the same state.
  pub stop_daemon-ends :
      (rounds more timeout : ℕ)
      → timeout < rounds
      → stop_daemon env (rounds + more) timeout ≡ stop_daemon env rounds timeout
  unfolding stop_daemon
  stop_daemon-ends rounds more timeout h =
      ap (λ stop. read_daemon_pid env >>= stop)
        (fun_ext λ pid. either-enough rounds more timeout pid h)
