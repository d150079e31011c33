-- ===== src/Daemon/Stopping.antt =====
-- src/coda_node/server/daemon.py, `stop_daemon`: what a return leaves behind, and whom it signals.
use coda_self_service.Prelude.{◌≡◌, refl, ℕ, String, Bool, true, false, Option, none, some}
use coda_self_service.Prelude.Int.{ℤ}
use coda_self_service.Prelude.Text.{strip, int_of}
use coda_self_service.Effects.{
  permission_error, process_lookup_error, timeout_expired, Exc, ok, pure, throw, lift, gets, modify,
  try, ◌>>=◌,
}
use coda_self_service.Effects.Rules.{
  Post, Post-bind, Post-try, Post-if, Post-any, Post-return, Post-weaken,
}
use coda_self_service.Daemon.State.{unlinked_pid, World, Env, call}
use coda_self_service.Daemon.{
  process_exists, unlink_pid, terminate, stop_failed, stop_pid, stop_daemon, read_daemon_pid,
  read_content, pid_text,
}

module _ (env : Env) where
  abbrev Anything {ℓ} : {A : Type ℓ} → A → World → Type 0
  Anything _ _ = Unit

  abbrev Gone {ℓ} : {A : Type ℓ} → A → World → Type 0
  Gone _ s = s.pid_file ≡ none

  unlink_pid-Gone : (s : World) → Post Gone Anything (unlink_pid env s)
  unfolding unlink_pid modify
  unlink_pid-Gone s =
      Post-bind {R = Anything} (call env.removable unlinked_pid) _ s (Post-any _)
        λ _ t _. record { holds = refl }

  -- the pid file is removed, and then the answer is given
  unlink_then :
      (answer : Bool) (s : World) → Post Gone Anything ((unlink_pid env >>= λ _. pure answer) s)
  unlink_then answer s =
      Post-bind {R = Gone} (unlink_pid env) _ s (unlink_pid-Gone s)
        λ _ t gone. Post-return answer t gone

  stop_failed-Gone : (e : Exc) (s : World) → Post Gone Anything (stop_failed env e s)
  unfolding throw
  stop_failed-Gone permission_error s = unlink_then false s
  stop_failed-Gone process_lookup_error s = unlink_then false s
  stop_failed-Gone timeout_expired s = unlink_then false s
  stop_failed-Gone _ s = record { holds = tt }

  pub stop_pid-Gone :
      (rounds timeout : ℕ) (pid : ℤ) (s : World)
      → Post Gone Anything (stop_pid env rounds timeout (some pid) s)
  unfolding stop_pid
  stop_pid-Gone rounds timeout pid s =
      Post-bind {R = Anything} (process_exists env pid) _ s (Post-any _) λ alive t _.
        Post-if alive _ _ t
          (λ _.
            Post-try {F = Anything} _ (stop_failed env) t
              (Post-bind {R = Anything} (terminate env rounds timeout pid) _ t (Post-any _)
                λ _ u _. unlink_then true u)
              (λ e u _. stop_failed-Gone e u))
          (λ _. unlink_then false t)

  -- the pid that stands in the file
  read_daemon_pid-reads :
      (s : World) (text : String) (pid : ℤ)
      → s.pid_file ≡ some text
      → env.readable s.now ≡ ok tt
      → int_of (strip text) ≡ some pid
      → Post (λ found _. found ≡ some pid) Anything (read_daemon_pid env s)
  unfolding read_daemon_pid read_content pid_text call gets lift pure try ◌>>=◌
  read_daemon_pid-reads s text pid content readable number =
      rw content (rw (readable, number) (record { holds = refl }))

  pub stop_daemon-clears :
      (rounds timeout : ℕ) (s : World) (text : String) (pid : ℤ)
      → s.pid_file ≡ some text
      → env.readable s.now ≡ ok tt
      → int_of (strip text) ≡ some pid
      → Post (λ _ t. t.pid_file ≡ none) (λ _ _. Unit {0}) (stop_daemon env rounds timeout s)
  unfolding stop_daemon
  stop_daemon-clears rounds timeout s text pid content readable number =
      Post-bind {R = λ found _. found ≡ some pid} (read_daemon_pid env) _ s
        (read_daemon_pid-reads s text pid content readable number)
        λ found t e. rw e (stop_pid-Gone rounds timeout pid t)

  -- a stop that says that it stopped a daemon leaves no pid file
  pub stop_daemon-Stopped :
      (rounds timeout : ℕ) (s : World)
      → Post
          (λ found t. found ≡ true → t.pid_file ≡ none)
          Anything
          (stop_daemon env rounds timeout s)
  unfolding stop_daemon stop_pid
  stop_daemon-Stopped rounds timeout s =
      Post-bind {R = Anything} (read_daemon_pid env) _ s (Post-any _) λ found t _. stopped found t
    where
      stopped :
          (pid : Option ℤ) (t : World)
          → Post
              (λ found u. found ≡ true → u.pid_file ≡ none)
              Anything
              (stop_pid env rounds timeout pid t)
      stopped none t = Post-return false t (λ h. cc h)
      stopped (some pid) t =
          Post-weaken _ (stop_pid-Gone rounds timeout pid t) (λ _ u gone _. gone) (λ _ _ _. tt)
