-- ===== src/Cli/Stopped.antt =====
-- src/coda_node/server/cli.py: `coda status` after `coda stop`.
use coda_self_service.Prelude.{◌≡◌, refl, ℕ, String, true, false, not, none, some, List, lookup}
use coda_self_service.Effects.{Exc, is_exception, ok, pure, gets, ◌>>=◌, ◌>>◌}
use coda_self_service.Effects.Rules.{
  Post, Post-bind, Post-if, Post-try, Post-throw, Post-return, Post-modify, Post-gets, Post-any,
  Post_known,
}
use coda_self_service.Effects.Parts.{Post-within}
use coda_self_service.Daemon.State as Daemon
use coda_self_service.Daemon.{daemon_status, read_daemon_pid, read_content, stop_daemon}
use coda_self_service.Daemon.Stopping.{stop_daemon-Stopped}
use coda_self_service.Cli.{flag, status_now, show_interface, run_stop, run_status, main}
use coda_self_service.Cli.State.{
  stop, status, Arguments, Exit, system_exit, World, Env, daemon_pid_path, daemon_log_path,
}
use coda_self_service.Cli.Screen.{print_line, print_lines}
use coda_self_service.Cli.Reset.{in_daemon, stop_timeout}

module _ (env : Env) where
  abbrev Anything {ℓ} : {A : Type ℓ} → A → World → Type 0
  Anything _ _ = Unit

  -- no daemon is on record
  abbrev pub Off {ℓ} : {A : Type ℓ} → A → World → Type 0
  Off _ s = s.daemon.pid_file ≡ none

  abbrev Fatal : Exc → World → Type 0
  Fatal e _ = is_exception e ≡ false

  abbrev WasStopped : Exit → World → Type 0
  WasStopped code t = code ≡ system_exit 0 → t.daemon.pid_file ≡ none

  in_daemon-stopped :
      (s : World)
      → Post
          (λ found t. found ≡ true → t.daemon.pid_file ≡ none)
          Anything
          (in_daemon env (λ d. stop_daemon d env.rounds (stop_timeout env)) s)
  unfolding in_daemon
  in_daemon-stopped s = Post-bind {R = Anything} _ _ s (Post-any _) λ given t _.
      Post-within _ _ (stop_daemon given env.rounds (stop_timeout env)) t
        (stop_daemon-Stopped given env.rounds (stop_timeout env) t.daemon) (λ _ _ h. h)
        (λ _ _ _. tt)

  print-off :
      (line : String) (code : ℕ) (t : World)
      → t.daemon.pid_file ≡ none
      → Post WasStopped Anything ((do print_line line; pure (system_exit code)) t)
  unfolding print_lines
  print-off line code t off =
      Post-bind {R = Off} _ _ t (Post-modify _ t off)
        λ _ u h. Post-return (system_exit code) u (λ _. h)

  print-failed :
      (line : String) (t : World)
      → Post WasStopped Anything ((do print_line line; pure (system_exit 1)) t)
  print-failed line t =
      Post-bind {R = Anything} _ _ t (Post-any _) λ _ u _. Post-return (system_exit 1) u (λ h. cc h)

  run_stop-WasStopped : (s : World) → Post WasStopped Anything (run_stop env s)
  unfolding run_stop
  run_stop-WasStopped s = Post-bind {R = Anything} _ _ s (Post-any _) λ running t _.
      Post-if (not running) _ _ t (λ _. print-failed _ t)
        λ _. Post-bind {R = Anything} _ _ t (Post-any _) λ dict u _.
          Post-bind {R = Anything} _ _ u (Post-any _) λ _ v _.
            Post-bind {R = λ found w. found ≡ true → w.daemon.pid_file ≡ none} _ _ v
              (in_daemon-stopped v)
              λ found w h.
                Post-if found _ _ w (λ yes_found. print-off _ 0 w (h yes_found))
                  (λ _. print-failed _ w)

  -- without a pid file the status is "not running", and nothing is raised
  status-off :
      (d : Daemon.Env) (pid_path log_path : String) (s : Daemon.World)
      → s.pid_file ≡ none
      → Post
          (λ dict _. flag (lookup "running" dict) ≡ false)
          (λ _ _. ⊥)
          (daemon_status d pid_path log_path s)
  unfolding daemon_status read_daemon_pid read_content gets pure lookup ◌>>=◌
  status-off d pid_path log_path s off = rw off (record { holds = refl })

  status_now-off :
      (s : World)
      → s.daemon.pid_file ≡ none
      → Post (λ dict _. flag (lookup "running" dict) ≡ false) Fatal (status_now env s)
  unfolding status_now in_daemon
  status_now-off s off = Post-bind {R = λ _ t. t ≡ s} _ _ s (Post-gets _ s refl) λ given t same.
      Post-within _ _ (daemon_status given (daemon_pid_path env) (daemon_log_path env)) t
        (status-off given _ _ t.daemon (rw same off)) (λ _ _ h. h) (λ e _ h. absurd h)

  print-Fatal : (lines : List String) (s : World) → Post Anything Fatal (print_lines lines s)
  unfolding print_lines
  print-Fatal lines s = Post-modify _ s tt

  show_interface-Fatal : (s : World) → Post Anything Fatal (show_interface env s)
  unfolding show_interface
  show_interface-Fatal s =
      Post-try {F = Anything} _ _ s (Post-any _)
        λ e t _. Post-if (is_exception e) _ _ t (λ _. print-Fatal _ t) (Post-throw e t)

  run_status-off :
      (s : World)
      → s.daemon.pid_file ≡ none
      → Post (λ code _. code ≡ system_exit 1) Fatal (run_status env s)
  unfolding run_status
  run_status-off s off =
      Post-bind {R = λ dict _. flag (lookup "running" dict) ≡ false} _ _ s (status_now-off s off)
        λ dict t stopped. Post-bind {R = Anything} _ _ t (print-Fatal _ t) λ _ u _.
          Post-bind {R = Anything} _ _ u (print-Fatal _ u) λ _ v _.
            Post-bind {R = Anything} _ _ v (print-Fatal _ v) λ _ w _.
              Post-bind {R = Anything} _ _ w (show_interface-Fatal w)
                λ _ x _. Post-return _ x (rw stopped refl)

  -- After a `coda stop` that exits with 0 no daemon is on record: a `coda status` after it, whatever it finds of
  -- the settings and of the VPN, exits with 1, unless something raises a BaseException that is no Exception.
  pub stop-status :
      (a b : Arguments) (s t : World)
      → main env (record a { reset_flag = false; command = some stop }) s ≡ (ok (system_exit 0), t)
      → Post
          (λ code _. code ≡ system_exit 1)
          (λ e _. is_exception e ≡ false)
          (main env (record b { reset_flag = false; command = some status }) t)
  unfolding main
  stop-status a b s t stopped =
      run_status-off t
        (Post_known (run_stop env s) (system_exit 0) t (run_stop-WasStopped s) stopped refl)
