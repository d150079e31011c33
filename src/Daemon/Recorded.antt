-- ===== src/Daemon/Recorded.antt =====
-- src/coda_node/server/daemon.py: the pid that stands in the pid file. `start_daemon` sets it, `stop_daemon`
-- clears it, and `daemon_status` leaves it.
use coda_self_service.Prelude.{
  ◌≡◌, refl, sym, ap, ◌∙◌, ℕ, String, ◌<>◌, true, false, not, Option, none, some, Option-cases, inl,
  inr, is_some,
}
use coda_self_service.Prelude.Int.{ℤ, pos}
use coda_self_service.Prelude.Text.{strip, int_of, str_int}
use coda_self_service.Prelude.Numerals.{int_of-strip-str_int}
use coda_self_service.Effects.{
  is_connection, Result, ok, raise, pure, throw, lift, gets, modify, try, when, ◌>>=◌,
}
use coda_self_service.Effects.Rules.{
  Post, Post-bind, Post-if, Post-any, Post-return, Post-Keeps, Post-weaken, Keeps, Keeps-bind,
  Keeps-try, Keeps-if, Keeps-gets, Keeps-pure, Keeps-throw, Keeps-lift, Keeps-pure_tt, Post-finally,
  Outcome,
}
use coda_self_service.Daemon.State.{
  Event, Spawn, opened_log, spawned, wrote_pid, restricted, World, Env, call,
}
use coda_self_service.Daemon.{
  pid_text, read_content, is_unreadable, read_daemon_pid, process_exists, exists_some,
  is_daemon_running, daemon_status, spawn, write_pid, start_daemon, stop_daemon, stop_pid,
  unlink_pid,
}
use coda_self_service.Daemon.Stopping.{stop_pid-Gone}

-- the pid on record
abbrev pub recorded : Option String → Option ℤ
recorded none = none
recorded (some text) = int_of (strip text)

module _ (env : Env) where
  unfoldable pub file : World → Option String
  file s = s.pid_file

  abbrev pub Anything {ℓ} : {A : Type ℓ} → A → World → Type 0
  Anything _ _ = Unit

  pub call-Keeps : {A : Type 0} (ask : ℕ → Result A) (event : Event) → Keeps file (call ask event)
  unfolding call file
  call-Keeps ask event = record { at = λ s. refl }

  process_exists-Keeps : (pid : ℤ) → Keeps file (process_exists env pid)
  unfolding process_exists
  process_exists-Keeps pid =
      Keeps-try _ _ (Keeps-bind _ _ (call-Keeps _ _) (λ _. Keeps-pure true))
        λ e. Keeps-if (is_connection e) _ _ (Keeps-pure false) (Keeps-throw e)

  exists_some-Keeps : (pid : Option ℤ) → Keeps file (exists_some env pid)
  exists_some-Keeps none = Keeps-pure false
  exists_some-Keeps (some pid) = process_exists-Keeps pid

  read_content-Keeps : (content : Option String) → Keeps file (read_content env content)
  unfolding read_content pid_text
  read_content-Keeps none = Keeps-pure none
  read_content-Keeps (some text) =
      Keeps-try _ _ (Keeps-bind _ _ (call-Keeps env.readable _) (λ _. Keeps-lift _))
        λ e. Keeps-if (is_unreadable e) _ _ (Keeps-pure none) (Keeps-throw e)

  pub daemon_status-Keeps :
      (pid_path log_path : String) → Keeps file (daemon_status env pid_path log_path)
  unfolding daemon_status read_daemon_pid
  daemon_status-Keeps pid_path log_path =
      Keeps-bind _ _ (Keeps-bind _ _ (Keeps-gets _) read_content-Keeps) λ pid.
        Keeps-bind _ _ (exists_some-Keeps pid)
          λ running. Keeps-bind _ _ (Keeps-gets _) (λ log_exists. Keeps-pure _)

  -- without an error of reading, what is read is what is on record
  read_content-recorded :
      (content : Option String) (s : World)
      → env.readable s.now ≡ ok tt
      → Post
          (λ found t. (found ≡ recorded content) × (t.pid_file ≡ s.pid_file))
          Anything
          (read_content env content s)
  unfolding read_content pid_text call lift pure try ◌>>=◌
  read_content-recorded none s readable = record { holds = (refl, refl) }
  read_content-recorded (some text) s readable = elim (Option-cases (int_of (strip text))) [
    | inl missing ↦ rw (readable, missing) (record { holds = (refl, refl) })
    | inr (pid, found) ↦ rw (readable, found) (record { holds = (refl, refl) })
  ]

  abbrev Holds {ℓ} : {A : Type ℓ} → ℤ → A → World → Type 0
  Holds pid _ t = t.pid_file ≡ some (str_int pid <> "\n")

  restrict-Holds :
      (pid : ℤ) (u : World)
      → u.pid_file ≡ some (str_int pid <> "\n")
      → Post (Holds pid) Anything (when (not env.windows) (call env.chmod restricted) u)
  unfolding file
  restrict-Holds pid u h =
      Post-weaken _
        (Post-Keeps (when (not env.windows) (call env.chmod restricted)) u
          (Keeps-if (not env.windows) _ _ (call-Keeps env.chmod restricted) Keeps-pure_tt))
        (λ _ t kept. kept ∙ h) (λ _ t _. tt)

  write_pid-Holds : (pid : ℤ) (s : World) → Post (Holds pid) Anything (write_pid env pid s)
  unfolding write_pid modify
  write_pid-Holds pid s =
      Post-bind {R = Anything} (call env.writable wrote_pid) _ s (Post-any _) λ _ t _.
        Post-bind {R = Holds pid} (modify (λ s. record s { pid_file = some (str_int pid <> "\n") }))
          _ t (record { holds = refl }) λ _ u h. restrict-Holds pid u h

  module _
      (natural : (t : ℕ) (what : Spawn) (pid : ℤ)
        → env.popen t what ≡ ok pid
        → (k : ℕ) × (pid ≡ pos k)) where
    abbrev IsNatural : ℤ → World → Type 0
    IsNatural pid _ = (k : ℕ) × (pid ≡ pos k)

    Outcome-IsNatural :
        (r : Result ℤ) (u : World)
        → ((pid : ℤ) → r ≡ ok pid → (k : ℕ) × (pid ≡ pos k))
        → Outcome IsNatural Anything (r, u)
    Outcome-IsNatural (ok pid) u h = h pid refl
    Outcome-IsNatural (raise e) u h = tt

    spawn-IsNatural : (what : Spawn) (s : World) → Post IsNatural Anything (spawn env what s)
    unfolding spawn call
    spawn-IsNatural what s =
        Post-bind {R = Anything} (call env.open_log opened_log) _ s (Post-any _) λ _ t _.
          Post-finally {Q = IsNatural} {E = Anything} (call (λ t. env.popen t what) (spawned what))
            _ t (record { holds = Outcome-IsNatural (env.popen t.now what) _ (natural t.now what) })

    abbrev pub Sets : ℤ → World → Type 0
    Sets pid t = recorded t.pid_file ≡ some pid

    pub start_daemon-Sets :
        (host : String) (port : ℤ) (token : Option String) (s : World)
        → Post Sets Anything (start_daemon env host port token s)
    unfolding start_daemon throw
    start_daemon-Sets host port token s =
        Post-bind {R = Anything} (is_daemon_running env) _ s (Post-any _) λ running t _.
          Post-if running _ _ t
            (λ _.
              Post-bind {R = Anything} (read_daemon_pid env) _ t (Post-any _)
                λ _ _ _. record { holds = tt })
            λ _.
              Post-bind {R = Anything} (gets (λ s. is_some s.pid_file)) _ t (Post-any _)
                λ stale u _.
                  Post-bind {R = Anything} (when stale (unlink_pid env)) _ u (Post-any _) λ _ v _.
                    Post-bind {R = IsNatural} (spawn env _) _ v (spawn-IsNatural _ v)
                      λ pid w (k, e).
                        Post-bind {R = Holds pid} (write_pid env pid) _ w (write_pid-Holds pid w)
                          λ _ x h. Post-return pid x (rw (h, e) (int_of-strip-str_int k))

    module _ (readable : (t : ℕ) → env.readable t ≡ ok tt) where
      abbrev pub Clear : {A : Type 0} → A → World → Type 0
      Clear _ t = recorded t.pid_file ≡ none

      read-known :
          (s : World)
          → Post
              (λ found t. (found ≡ recorded s.pid_file) × (t.pid_file ≡ s.pid_file))
              Anything
              (read_daemon_pid env s)
      unfolding read_daemon_pid gets ◌>>=◌
      read-known s = read_content-recorded s.pid_file s (readable s.now)

      stop_pid-Clear :
          (rounds timeout : ℕ) (found : Option ℤ) (t : World)
          → found ≡ recorded t.pid_file
          → Post Clear Anything (stop_pid env rounds timeout found t)
      unfolding stop_pid pure
      stop_pid-Clear rounds timeout none t e = record { holds = sym e }
      stop_pid-Clear rounds timeout (some pid) t e =
          Post-weaken _ (stop_pid-Gone env rounds timeout pid t) (λ _ u gone. rw gone refl)
            (λ _ u _. tt)

      pub stop_daemon-Clear :
          (rounds timeout : ℕ) (s : World) → Post Clear Anything (stop_daemon env rounds timeout s)
      unfolding stop_daemon
      stop_daemon-Clear rounds timeout s =
          Post-bind {R = λ found t. (found ≡ recorded s.pid_file) × (t.pid_file ≡ s.pid_file)}
            (read_daemon_pid env) _ s (read-known s)
            λ found t (e, kept). stop_pid-Clear rounds timeout found t (e ∙ ap recorded (sym kept))
