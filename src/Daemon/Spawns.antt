-- ===== src/Daemon/Spawns.antt =====
-- src/coda_node/server/daemon.py, `start_daemon`: which process it starts.
use coda_self_service.Prelude.{
  ◌≡◌, refl, ap, ◌∙◌, ℕ, suc, String, true, false, not, Option, none, some, ◌⊎◌, inl, inr, List, [],
  ◌∷◌,
}
use coda_self_service.Prelude.Int.{ℤ}
use coda_self_service.Effects.{is_connection, Result, ok, raise, Action, finally}
use coda_self_service.Effects.Rules.{
  Post, Post-bind, Post-if, Post-return, Post-throw, Post-Keeps, Post-weaken, Keeps, Keeps-bind,
  Keeps-try, Keeps-if, Keeps-gets, Keeps-pure, Keeps-throw, Keeps-lift, Keeps-pure_tt, Keeps-modify,
}
use coda_self_service.Daemon.State.{
  Event, Spawn, read_pid, opened_log, closed_log, wrote_pid, unlinked_pid, restricted, probed,
  spawned, World, Env, call,
}
use coda_self_service.Daemon.{
  pid_text, read_content, is_unreadable, read_daemon_pid, process_exists, exists_some,
  is_daemon_running, daemon_status, spawn_of, spawn, write_pid, start_daemon, unlink_pid,
}

-- the processes that have been started, the latest first
abbrev pub spawns : List Event → List Spawn
spawns [] = []
spawns (spawned what ∷ events) = what ∷ spawns events
spawns (event ∷ events) = spawns events

abbrev pub started : World → List Spawn
started s = spawns s.trace

module _ (env : Env) where
  call-read : {A : Type 0} (ask : ℕ → Result A) → Keeps started (call ask read_pid)
  unfolding call
  call-read ask = record { at = λ s. refl }

  call-probed : {A : Type 0} (ask : ℕ → Result A) (pid : ℤ) → Keeps started (call ask (probed pid))
  unfolding call
  call-probed ask pid = record { at = λ s. refl }

  call-opened : {A : Type 0} (ask : ℕ → Result A) → Keeps started (call ask opened_log)
  unfolding call
  call-opened ask = record { at = λ s. refl }

  call-closed : {A : Type 0} (ask : ℕ → Result A) → Keeps started (call ask closed_log)
  unfolding call
  call-closed ask = record { at = λ s. refl }

  read_daemon_pid-Keeps : Keeps started (read_daemon_pid env)
  unfolding read_daemon_pid read_content pid_text
  read_daemon_pid-Keeps = Keeps-bind _ _ (Keeps-gets _) λ content. kept content
    where
      kept : (content : Option String) → Keeps started (read_content env content)
      kept none = Keeps-pure none
      kept (some text) =
          Keeps-try _ _ (Keeps-bind _ _ (call-read env.readable) (λ _. Keeps-lift _))
            λ e. Keeps-if (is_unreadable e) _ _ (Keeps-pure none) (Keeps-throw e)

  exists_some-Keeps : (pid : Option ℤ) → Keeps started (exists_some env pid)
  unfolding process_exists
  exists_some-Keeps none = Keeps-pure false
  exists_some-Keeps (some pid) =
      Keeps-try _ _ (Keeps-bind _ _ (call-probed _ pid) (λ _. Keeps-pure true))
        λ e. Keeps-if (is_connection e) _ _ (Keeps-pure false) (Keeps-throw e)

  pub is_daemon_running-started : Keeps started (is_daemon_running env)
  unfolding is_daemon_running
  is_daemon_running-started = Keeps-bind _ _ read_daemon_pid-Keeps exists_some-Keeps

  pub daemon_status-started :
      (pid_path log_path : String) → Keeps started (daemon_status env pid_path log_path)
  unfolding daemon_status
  daemon_status-started pid_path log_path = Keeps-bind _ _ read_daemon_pid-Keeps λ pid.
      Keeps-bind _ _ (exists_some-Keeps pid)
        λ running. Keeps-bind _ _ (Keeps-gets _) (λ log_exists. Keeps-pure _)

  unlink_pid-started : Keeps started (unlink_pid env)
  unfolding unlink_pid call
  unlink_pid-started =
      Keeps-bind (call env.removable unlinked_pid) _ (record { at = λ s. refl })
        λ _. Keeps-modify _ (λ s. refl)

  write_pid-started : (pid : ℤ) → Keeps started (write_pid env pid)
  unfolding write_pid call
  write_pid-started pid =
      Keeps-bind (call env.writable wrote_pid) _ (record { at = λ s. refl })
        λ _. Keeps-bind _ _ (Keeps-modify _ (λ s. refl)) λ _.
          Keeps-if (not env.windows) (call env.chmod restricted) _ (record { at = λ s. refl })
            Keeps-pure_tt

  -- one more process
  abbrev pub Spawned {ℓ} : {A : Type ℓ} → Spawn → World → A → World → Type 0
  Spawned what s _ t = started t ≡ what ∷ started s

  -- none, or that process
  abbrev pub AtMost {ℓ} : {A : Type ℓ} → Spawn → World → A → World → Type 0
  AtMost what s _ t = (started t ≡ started s) ⊎ (started t ≡ what ∷ started s)

  -- a step that starts nothing
  before-spawn :
      {A : Type 0} {what : Spawn} (m : Action World A) (s t : World)
      → Keeps started m
      → started t ≡ started s
      → Post (λ _ u. started u ≡ started s) (AtMost what s) (m t)
  before-spawn m s t keeps h =
      Post-weaken _ (Post-Keeps m t keeps) (λ _ _ k. k ∙ h) (λ _ _ k. inl (k ∙ h))

  spawn-Spawned :
      (what : Spawn) (s t : World)
      → started t ≡ started s
      → Post (Spawned what s) (AtMost what s) (spawn env what t)
  unfolding spawn call finally
  spawn-Spawned what s t h =
      Post-bind {R = λ _ u. started u ≡ started s} _ _ t
        (before-spawn _ s t (call-opened env.open_log) h) λ _ u k. popen-Spawned what s u k
    where
      popen-Spawned :
          (what : Spawn) (s u : World)
          → started u ≡ started s
          → Post (Spawned what s) (AtMost what s) (
              finally
                (call (λ t. env.popen t what) (spawned what))
                (call (λ t. ok tt) closed_log)
                u)
      popen-Spawned what s u k = go (env.popen u.now what)
        where
          go :
              (r : Result ℤ)
              → Post (Spawned what s) (AtMost what s) (
                r,
                record u { now = suc (suc u.now); trace = closed_log ∷ spawned what ∷ u.trace },
              )
          go (ok pid) = record { holds = ap (λ rest. what ∷ rest) k }
          go (raise e) = record { holds = inr (ap (λ rest. what ∷ rest) k) }

  -- A start that returns has started one process, with the command and the environment of `spawn_of`; one that
  -- raises has started that one or none.
  pub start_daemon-Spawned :
      (host : String) (port : ℤ) (token : Option String) (s : World)
      → Post
          (Spawned (spawn_of env host port token) s)
          (AtMost (spawn_of env host port token) s)
          (start_daemon env host port token s)
  unfolding start_daemon
  start_daemon-Spawned host port token s =
      Post-bind {R = λ _ t. started t ≡ started s} _ _ s
        (before-spawn _ s s is_daemon_running-started refl)
        λ running t h.
          Post-if running _ _ t
            (λ _.
              Post-bind {R = λ _ u. started u ≡ started s} _ _ t
                (before-spawn _ s t read_daemon_pid-Keeps h) λ pid u k. Post-throw _ u (inl k))
            λ _.
              Post-bind {R = λ _ u. started u ≡ started s} _ _ t
                (before-spawn _ s t (Keeps-gets _) h)
                λ stale u k.
                  Post-bind {R = λ _ v. started v ≡ started s} _ _ u
                    (before-spawn _ s u (Keeps-if stale _ _ unlink_pid-started Keeps-pure_tt) k)
                    λ _ v l.
                      Post-bind {R = Spawned (spawn_of env host port token) s} _ _ v
                        (spawn-Spawned (spawn_of env host port token) s v l)
                        λ pid w m.
                          Post-bind {R = Spawned (spawn_of env host port token) s} _ _ w
                            (Post-weaken _ (Post-Keeps _ w (write_pid-started pid)) (λ _ _ n. n ∙ m)
                              (λ _ _ n. inr (n ∙ m)))
                            λ _ x n. Post-return pid x n
