-- ===== src/Daemon/Register.antt =====
-- src/coda_node/server/daemon.py: the pid file implements a register, with `start_daemon`, `stop_daemon` and
-- `daemon_status` as its operations.
use coda_self_service.Prelude.{
  ◌≡◌, refl, ap, ◌∙◌, ℕ, String, Bool, Option, none, some, List, [], ◌∷◌,
}
use coda_self_service.Prelude.Int.{ℤ, pos}
use coda_self_service.Values.{Dict}
use coda_self_service.Effects.{ok, Action, pure, ◌>>=◌}
use coda_self_service.Effects.Rules.{Post, Post-bind, Post-return, Post-Keeps, Post-weaken}
use coda_self_service.Daemon.State.{Spawn, World, Env}
use coda_self_service.Daemon.{daemon_status, start_daemon, stop_daemon}
use coda_self_service.Daemon.Recorded.{
  recorded, file, Sets, Clear, start_daemon-Sets, stop_daemon-Clear, daemon_status-Keeps,
}

pub data Operation : Type 0 where
  start : String → ℤ → Option String → Operation
  stop : ℕ → ℕ → Operation
  status : String → String → Operation

pub data Answer : Type 0 where
  started : ℤ → Answer
  stopped : Bool → Answer
  shown : Dict → Answer

-- What the register holds after an answer.
abbrev pub register : Answer → Option ℤ → Option ℤ
register (started pid) held = some pid
register (stopped found) held = none
register (shown dict) held = held

abbrev pub registers : List Answer → Option ℤ → Option ℤ
registers [] held = held
registers (answer ∷ answers) held = registers answers (register answer held)

module _ (env : Env) where
  unfoldable pub perform : Operation → Action World Answer
  perform (start host port token) = do pid ← start_daemon env host port token; pure (started pid)
  perform (stop rounds timeout) = do found ← stop_daemon env rounds timeout; pure (stopped found)
  perform (status pid_path log_path) = do
    dict ← daemon_status env pid_path log_path
    pure (shown dict)

  unfoldable pub perform_all : List Operation → Action World (List Answer)
  perform_all [] = pure []
  perform_all (operation ∷ operations) = do
    answer ← perform operation
    answers ← perform_all operations
    pure (answer ∷ answers)

module _ (env : Env)
    (natural : (t : ℕ) (what : Spawn) (pid : ℤ)
      → env.popen t what ≡ ok pid
      → (k : ℕ) × (pid ≡ pos k))
    (readable : (t : ℕ) → env.readable t ≡ ok tt) where
  perform-register :
      (operation : Operation) (s : World)
      → Post
          (λ answer t. recorded t.pid_file ≡ register answer (recorded s.pid_file))
          (λ _ _. Unit {0})
          (perform env operation s)
  unfolding perform file
  perform-register (start host port token) s =
      Post-bind {R = Sets env natural} _ _ s (start_daemon-Sets env natural host port token s)
        λ pid t h. Post-return (started pid) t h
  perform-register (stop rounds timeout) s =
      Post-bind {R = Clear env natural readable} _ _ s
        (stop_daemon-Clear env natural readable rounds timeout s)
        λ found t h. Post-return (stopped found) t h
  perform-register (status pid_path log_path) s =
      Post-bind {R = λ _ t. t.pid_file ≡ s.pid_file} _ _ s
        (Post-weaken _ (Post-Keeps _ s (daemon_status-Keeps env pid_path log_path)) (λ _ t h. h)
          (λ _ t _. tt))
        λ dict t h. Post-return (shown dict) t (ap recorded h)

  -- The pid file implements a register. If pids are natural numbers and the file can be read, then after
  -- any sequence of starts, stops and looks at the status that all return, the pid on record is that of
  -- the daemon that was started last, unless a stop came after it, which leaves none; if there was no
  -- start and no stop, it is the one that was there before.
  pub perform_all-registers :
      (operations : List Operation) (s : World)
      → Post
          (λ answers t. recorded t.pid_file ≡ registers answers (recorded s.pid_file))
          (λ _ _. Unit {0})
          (perform_all env operations s)
  unfolding perform_all
  perform_all-registers [] s = Post-return [] s refl
  perform_all-registers (operation ∷ operations) s =
      Post-bind {R = λ answer t. recorded t.pid_file ≡ register answer (recorded s.pid_file)} _ _ s
        (perform-register operation s)
        λ answer t first.
          Post-bind {R = λ answers u. recorded u.pid_file ≡ registers answers (recorded t.pid_file)}
            _ _ t (perform_all-registers operations t)
            λ answers u rest. Post-return (answer ∷ answers) u (rest ∙ ap (registers answers) first)
