-- ===== src/Cli/Launched.antt =====
-- src/coda_node/server/cli.py: which process `coda start --daemon` starts.
use coda_self_service.Prelude.{
  ◌≡◌, refl, sym, ap, ◌∙◌, ℕ, not, Bool-cases, ◌⊎◌, inl, inr, ◌∷◌, subst, ltb, ◌&&◌, contains,
}
use coda_self_service.Config.{Settings}
use coda_self_service.Effects.{Exc, runtime_error, Result, ok, raise, Action}
use coda_self_service.Effects.Rules.{
  Post, Outcome, Post-bind, Post-if, Post-try, Post-throw, Post-return, Post-modify, Post-gets,
  Post-weaken, Post-Keeps, Post-finally, Keeps,
}
use coda_self_service.Effects.Parts.{Post-within}
use coda_self_service.Daemon.State as Daemon
use coda_self_service.Daemon.State.{Spawn}
use coda_self_service.Daemon.{spawn_of, is_daemon_running, daemon_status, start_daemon}
use coda_self_service.Daemon.Spawns.{
  started, start_daemon-Spawned, is_daemon_running-started, daemon_status-started,
}
use coda_self_service.Cli.{
  token_of, closes, note_log, start_logged, start_failed, launch, launch_once, status_now,
}
use coda_self_service.Cli.State.{
  Exit, returned, system_exit, World, Env, daemon_pid_path, daemon_log_path,
}
use coda_self_service.Cli.Screen.{print_lines}
use coda_self_service.Cli.Reset.{in_daemon, daemon_env}

module _ (env : Env) where
  abbrev pub Kept : {A : Type 0} → World → A → World → Type 0
  Kept s _ t = (started t.daemon ≡ started s.daemon) × (t.environ ≡ s.environ)

  abbrev pub One : {A : Type 0} → Spawn → World → A → World → Type 0
  One what s _ t = started t.daemon ≡ what ∷ started s.daemon

  abbrev pub OneAtMost : {A : Type 0} → Spawn → World → A → World → Type 0
  OneAtMost what s _ t =
      (started t.daemon ≡ started s.daemon) ⊎ (started t.daemon ≡ what ∷ started s.daemon)

  abbrev pub asked_for : World → Settings → Spawn
  asked_for s c = spawn_of (daemon_env env s) c.host c.port (token_of c.node_token)

  in_daemon-Kept :
      {A : Type 0} (m : Daemon.Env → Action Daemon.World A) (s : World)
      → ((d : Daemon.Env) → Keeps started (m d))
      → Post (Kept s) (Kept s) (in_daemon env m s)
  unfolding in_daemon
  in_daemon-Kept m s keeps = Post-bind {R = λ _ t. t ≡ s} _ _ s (Post-gets _ s refl) λ given t same.
      Post-within _ _ (m given) t (Post-Keeps (m given) t.daemon (keeps given))
        (λ _ v h. (h ∙ ap (λ u. started u.daemon) same, ap World.environ same))
        (λ _ v h. (h ∙ ap (λ u. started u.daemon) same, ap World.environ same))

  in_daemon-Spawned :
      (c : Settings) (s : World)
      → Post
          (One (asked_for s c) s)
          (OneAtMost (asked_for s c) s)
          (in_daemon env (λ d. start_daemon d c.host c.port (token_of c.node_token)) s)
  unfolding in_daemon
  in_daemon-Spawned c s =
      Post-bind {R = λ given t. (given ≡ daemon_env env s) × (t ≡ s)} _ _ s
        (Post-gets _ s (refl, refl))
        λ given t (e, same).
          rw (e, same)
            (Post-within _ _ (start_daemon (daemon_env env s) c.host c.port (token_of c.node_token))
              s
              (start_daemon-Spawned (daemon_env env s) c.host c.port (token_of c.node_token)
                s.daemon)
              (λ _ v h. h) (λ _ v h. h))

  note_log-daemon : (before : ℕ) (s : World) → (note_log env before s).daemon ≡ s.daemon
  note_log-daemon before s =
      elim (Bool-cases
        (ltb before (closes s.daemon.trace) && not (contains s.files (daemon_log_path env)))) [
          | inl new ↦ rw new refl
          | inr old ↦ rw old refl
        ]

  noted :
      {A : Type 0} (what : Spawn) (s : World) (before : ℕ) (r : Result A × World)
      → Outcome (One what s) (OneAtMost what s) r
      → Outcome (One what s) (OneAtMost what s) (r.0, note_log env before r.1)
  noted what s before (ok a, u) h = ap started (note_log-daemon before u) ∙ h
  noted what s before (raise e, u) h =
      subst (λ d. (started d ≡ started s.daemon) ⊎ (started d ≡ what ∷ started s.daemon))
        (sym (note_log-daemon before u)) h

  start_logged-Spawned :
      (c : Settings) (s : World)
      → Post (One (asked_for s c) s) (OneAtMost (asked_for s c) s) (start_logged env c s)
  unfolding start_logged
  start_logged-Spawned c s =
      Post-bind {R = λ _ t. t ≡ s} _ _ s (Post-gets _ s refl) λ before t same. rw same (
        Post-finally {Q = One (asked_for s c) s} {E = OneAtMost (asked_for s c) s} _ _ s
          (Post-modify _ _ (noted (asked_for s c) s before _ (in_daemon-Spawned c s).holds)))

  -- by how the command ends
  abbrev pub Launches : Spawn → World → Exit → World → Type 0
  Launches what s returned t = One what s returned t
  Launches what s (system_exit code) t = OneAtMost what s code t

  start_failed-Launches :
      (what : Spawn) (s t : World) (e : Exc)
      → OneAtMost what s e t
      → Post (Launches what s) (OneAtMost what s) (start_failed env e t)
  unfolding print_lines
  start_failed-Launches what s t (runtime_error message) h =
      Post-bind {R = OneAtMost what s} _ _ t (Post-modify _ t h)
        λ _ u k. Post-return (system_exit 1) u k
  start_failed-Launches what s t e h = Post-throw _ t h

  module _ (c : Settings) (s t : World) (kept : Kept s tt t) where
    same_request : asked_for t c ≡ asked_for s c
    same_request =
        ap
          (λ vars.
            spawn_of (record env.daemon { environ = vars }) c.host c.port (token_of c.node_token))
          kept.1

    since : (u : World) → One (asked_for t c) t tt u → One (asked_for s c) s tt u
    since u h =
        h
        ∙ ap (λ what. what ∷ started t.daemon) same_request
        ∙ ap (λ rest. asked_for s c ∷ rest) kept.0

    since_at_most :
        (u : World) → OneAtMost (asked_for t c) t tt u → OneAtMost (asked_for s c) s tt u
    since_at_most u (inl h) = inl (h ∙ kept.0)
    since_at_most u (inr h) = inr (since u h)

    since_launched :
        (code : Exit) (u : World)
        → Launches (asked_for t c) t code u
        → Launches (asked_for s c) s code u
    since_launched returned u h = since u h
    since_launched (system_exit code) u h = since_at_most u h

  launch-Launches :
      (c : Settings) (s : World)
      → Post (Launches (asked_for s c) s) (OneAtMost (asked_for s c) s) (launch env c s)
  unfolding launch print_lines
  launch-Launches c s = Post-bind {R = Kept s} _ _ s (Post-modify _ s (refl, refl)) λ _ t kept.
      Post-try {F = OneAtMost (asked_for s c) s} _ _ t
        (Post-bind {R = One (asked_for s c) s} _ _ t
          (Post-weaken _ (start_logged-Spawned c t) (λ _ u h. since c s t kept u h)
            (λ _ u h. since_at_most c s t kept u h))
          λ pid u one.
            Post-bind {R = One (asked_for s c) s} _ _ u (Post-modify _ u one)
              λ _ v one. Post-return returned v one)
        (λ e u h. start_failed-Launches (asked_for s c) s u e h)

  pub launch_once-Launches :
      (c : Settings) (s : World)
      → Post (Launches (asked_for s c) s) (OneAtMost (asked_for s c) s) (launch_once env c s)
  unfolding launch_once status_now print_lines
  launch_once-Launches c s =
      Post-bind {R = Kept s} _ _ s
        (Post-weaken _ (in_daemon-Kept is_daemon_running s is_daemon_running-started) (λ _ _ h. h)
          (λ _ _ h. inl h.0))
        λ running t kept.
          Post-if running _ _ t
            (λ _.
              Post-bind {R = λ _ u. OneAtMost (asked_for s c) s tt u} _ _ t
                (Post-weaken _
                  (in_daemon-Kept (λ d. daemon_status d (daemon_pid_path env) (daemon_log_path env))
                    t (λ d. daemon_status-started d _ _))
                  (λ _ _ h. inl (h.0 ∙ kept.0)) (λ _ _ h. inl (h.0 ∙ kept.0)))
                λ dict u h.
                  Post-bind {R = OneAtMost (asked_for s c) s} _ _ u (Post-modify _ u h)
                    λ _ v h. Post-return (system_exit 1) v h)
            (λ _.
              Post-weaken _ (launch-Launches c t) (λ code u h. since_launched c s t kept code u h)
                (λ _ u h. since_at_most c s t kept u h))
