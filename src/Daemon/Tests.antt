-- ===== src/Daemon/Tests.antt =====
-- A daemon that is started, looked at and stopped, and the theorems applied to it.
use coda_self_service.Prelude.{
  ◌≡◌, refl, ℕ, suc, ◌+◌, ◌*◌, ◌<◌, ◌++◌, min, String, true, false, none, some, List, [], ◌∷◌,
  arith, ltb, length, if◌then◌else◌,
}
use coda_self_service.Prelude.Int.{pos}
use coda_self_service.Prelude.Text.{int_of}
use coda_self_service.Prelude.Lines.{splitlines, join}
use coda_self_service.Effects.{process_lookup_error, ok, raise, ◌>>=◌}
use coda_self_service.Effects.Rules.{Post}
use coda_self_service.Daemon.State.{World, Env, call}
use coda_self_service.Daemon.{
  stop_daemon, tail_daemon_log, read_daemon_pid, read_content, pid_text, stop_pid, process_exists,
  terminate, wait_exit, force_kill, unlink_pid,
}
use coda_self_service.Daemon.Recorded.{recorded}
use coda_self_service.Daemon.Register.{
  start, stop, status, registers, perform_all, perform_all-registers,
}
use coda_self_service.Daemon.Signals.{foreign, stop_daemon-signals}
use coda_self_service.Daemon.Waiting.{stop_daemon-ends}
use coda_self_service.Daemon.Tail.{tail_daemon_log_bounded}

-- the process ends soon after the twentieth call
abbrev pub posix : Env
posix = record {
  windows = false;
  environ = ("PATH", "/bin") ∷ [];
  executable = "/usr/bin/python3";
  readable = λ _. ok tt;
  writable = λ _. ok tt;
  removable = λ _. ok tt;
  chmod = λ _. ok tt;
  probe = λ t pid. if ltb t 20 then ok tt else raise process_lookup_error;
  kill = λ t pid signal. ok tt;
  taskkill = λ t pid. ok tt;
  open_log = λ _. ok tt;
  popen = λ t what. ok (pos 4321);
  log_exists = λ _. true;
  log_text = λ _. ok "one\ntwo\nthree\n";
  monotonic = λ t. 100 * t;
  sleep = λ _. ok tt;
}

abbrev pub running : World
running = record { now = 3; trace = []; pid_file = some "4321\n" }

abbrev pub stopped : World
stopped = record { now = 0; trace = []; pid_file = none }

stops : (stop_daemon posix 2000 1000 running).0 ≡ ok true
unfolding stop_daemon ◌>>=◌ read_daemon_pid read_content pid_text call int_of stop_pid
    process_exists terminate wait_exit force_kill unlink_pid
stops = refl

stop_daemon-signals_example :
    Post
      (λ _ t. (t.pid_file ≡ none) × (foreign (pos 4321) t.trace ≡ []))
      (λ _ t. foreign (pos 4321) t.trace ≡ [])
      (stop_daemon posix 2000 1000 running)
unfolding int_of
stop_daemon-signals_example =
    stop_daemon-signals posix 2000 1000 running "4321\n" 4320 refl refl refl

ticks : (t : ℕ) → posix.monotonic t < posix.monotonic (suc t)
ticks t = omega arith

stop_daemon-ends_example : stop_daemon posix (1001 + 5) 1000 ≡ stop_daemon posix 1001 1000
stop_daemon-ends_example = stop_daemon-ends posix ticks 1001 5 1000 (omega arith)

perform_all-registers_example :
    Post
      (λ answers t. recorded t.pid_file ≡ registers answers none)
      (λ _ _. Unit {0})
      (perform_all posix
        (start "0.0.0.0" (pos 8080) none ∷ status "pid" "log" ∷ stop 2000 1000 ∷ [])
        stopped)
perform_all-registers_example =
    perform_all-registers posix (λ t what pid e. (4321, cc e)) (λ t. refl)
      (start "0.0.0.0" (pos 8080) none ∷ status "pid" "log" ∷ stop 2000 1000 ∷ []) stopped

tail_daemon_log_bounded_example :
    (front : List String) × (kept : List String) × (splitlines "one\ntwo\nthree\n" ≡ front ++ kept)
    × (length kept ≡ min 2 (length (splitlines "one\ntwo\nthree\n")))
    × ((tail_daemon_log posix (pos 2) stopped).0 ≡ ok (join "\n" kept))
tail_daemon_log_bounded_example =
    tail_daemon_log_bounded posix stopped 1 "one\ntwo\nthree\n" refl refl

-- for 0 the whole log is given
whole_log : (tail_daemon_log posix (pos 0) stopped).0 ≡ ok "one\ntwo\nthree"
unfolding tail_daemon_log ◌>>=◌ call join splitlines
whole_log = refl
