-- ===== src/Daemon/Signals.antt =====
-- src/coda_node/server/daemon.py, `stop_daemon`: whom it signals.
use coda_self_service.Prelude.{
  none, ◌≡◌, refl, ◌∙◌, ℕ, zero, suc, String, Bool, true, false, not, none, some, List, [], ◌∷◌,
  if◌then◌else◌, ltb, ◌+◌, arith,
}
use coda_self_service.Prelude.Int.{ℤ, pos, negsuc, eq_int}
use coda_self_service.Prelude.Text.{strip, int_of}
use coda_self_service.Effects.{
  permission_error, process_lookup_error, timeout_expired, Exc, Result, ok, pure, lift, gets, try,
  is_connection, ◌>>=◌,
}
use coda_self_service.Effects.Rules.{
  Post, Post-bind, Post_always, Post-and, Post-Keeps, Post-weaken, Keeps, Keeps-modify, Keeps-throw,
  Keeps-pure, Keeps-bind, Keeps-if, Keeps-try, Keeps-gets, Keeps-pure_tt,
}
use coda_self_service.Daemon.Stopping.{stop_daemon-clears}
use coda_self_service.Daemon.State.{
  sigterm, sigkill, Event, signalled, ran_taskkill, World, Env, call,
}
use coda_self_service.Daemon.{
  process_exists, unlink_pid, terminate, force_kill, wait_exit, stop_failed, stop_pid, stop_daemon,
  read_daemon_pid, read_content, pid_text,
}

eq_int-same : (n : ℤ) → eq_int n n ≡ true
eq_int-same (pos n) = ground arith
eq_int-same (negsuc n) = ground arith

abbrev pub is_foreign : ℤ → Event → Bool
is_foreign pid (signalled other signal) = not (eq_int other pid)
is_foreign pid (ran_taskkill other) = not (eq_int other pid)
is_foreign pid event = false

-- the events that end a process other than `pid`
abbrev pub foreign : ℤ → List Event → List Event
foreign pid [] = []
foreign pid (event ∷ events) =
    let rest = foreign pid events in if is_foreign pid event then event ∷ rest else rest

module _ (env : Env) (pid : ℤ) where
  view : World → List Event
  view s = foreign pid s.trace

  -- a call that ends no other process
  call-Keeps :
      {A : Type 0} (ask : ℕ → Result A) (event : Event)
      → is_foreign pid event ≡ false
      → Keeps view (call ask event)
  unfolding call view
  call-Keeps ask event h = record { at = λ s. rw h refl }

  process_exists-Keeps : Keeps view (process_exists env pid)
  unfolding process_exists
  process_exists-Keeps =
      Keeps-try _ _
        (Keeps-bind _ _ (call-Keeps (λ t. env.probe t pid) (Event.probed pid) refl)
          (λ _. Keeps-pure true))
        λ e. Keeps-if (is_connection e) _ _ (Keeps-pure false) (Keeps-throw e)

  unlink_pid-Keeps : Keeps view (unlink_pid env)
  unfolding unlink_pid view
  unlink_pid-Keeps =
      let removed = call-Keeps env.removable Event.unlinked_pid refl in
      let cleared = Keeps-modify {view = view} (λ s. record s { pid_file = none }) (λ s. refl) in
      Keeps-bind _ _ removed (λ _. cleared)

  force_kill-Keeps : Keeps view (force_kill env pid)
  unfolding force_kill
  force_kill-Keeps =
      let killed =
        call-Keeps (λ t. env.kill t pid sigkill) (signalled pid sigkill)
          (rw (eq_int-same pid) refl) in
      let slept = call-Keeps env.sleep (Event.slept 500) refl in Keeps-bind _ _ killed (λ _. slept)

  wait_exit-Keeps : (rounds deadline : ℕ) → Keeps view (wait_exit env rounds deadline pid)
  unfolding wait_exit
  wait_exit-Keeps zero deadline = Keeps-throw _
  wait_exit-Keeps (suc rounds) deadline = Keeps-bind _ _ (Keeps-gets _) λ now.
      Keeps-if (ltb now deadline) _ _
        (Keeps-bind _ _ process_exists-Keeps λ alive.
          Keeps-if alive _ _
            (Keeps-bind _ _ (call-Keeps env.sleep (Event.slept 100) refl)
              (λ _. wait_exit-Keeps rounds deadline))
            Keeps-pure_tt)
        force_kill-Keeps

  terminate-Keeps : (rounds timeout : ℕ) → Keeps view (terminate env rounds timeout pid)
  unfolding terminate
  terminate-Keeps rounds timeout =
      Keeps-if env.windows _ _
        (call-Keeps (λ t. env.taskkill t pid) (ran_taskkill pid) (rw (eq_int-same pid) refl))
        (Keeps-bind _ _
          (call-Keeps (λ t. env.kill t pid sigterm) (signalled pid sigterm)
            (rw (eq_int-same pid) refl))
          λ _. Keeps-bind _ _ (Keeps-gets _) (λ now. wait_exit-Keeps rounds (now + timeout)))

  unlink_then-Keeps : (answer : Bool) → Keeps view (unlink_pid env >>= λ _. pure answer)
  unlink_then-Keeps answer = Keeps-bind _ _ unlink_pid-Keeps (λ _. Keeps-pure answer)

  stop_failed-Keeps : (e : Exc) → Keeps view (stop_failed env e)
  stop_failed-Keeps permission_error = unlink_then-Keeps false
  stop_failed-Keeps process_lookup_error = unlink_then-Keeps false
  stop_failed-Keeps timeout_expired = unlink_then-Keeps false
  stop_failed-Keeps _ = Keeps-throw _

  stop_pid-Keeps : (rounds timeout : ℕ) → Keeps view (stop_pid env rounds timeout (some pid))
  unfolding stop_pid
  stop_pid-Keeps rounds timeout = Keeps-bind _ _ process_exists-Keeps λ alive.
      Keeps-if alive _ _
        (Keeps-try _ _
          (Keeps-bind _ _ (terminate-Keeps rounds timeout) (λ _. unlink_then-Keeps true))
          stop_failed-Keeps)
        (unlink_then-Keeps false)

module _ (env : Env) (rounds timeout : ℕ) (s : World) (text : String) (n : ℕ)
    (content : s.pid_file ≡ some text) (readable : env.readable s.now ≡ ok tt)
    (number : int_of (strip text) ≡ some (pos (suc n))) where
  Kept : World → Type 0
  Kept t = foreign (pos (suc n)) t.trace ≡ foreign (pos (suc n)) s.trace

  read-Kept :
      Post
        (λ found t. (found ≡ some (pos (suc n))) × Kept t)
        (λ _ t. Kept t)
        (read_daemon_pid env s)
  unfolding read_daemon_pid read_content pid_text call gets lift pure try ◌>>=◌ Kept
  read-Kept = rw content (rw (readable, number) (record { holds = (refl, refl) }))

  signals_own :
      foreign (pos (suc n)) (stop_daemon env rounds timeout s).1.trace
      ≡ foreign (pos (suc n)) s.trace
  unfolding stop_daemon Kept view
  signals_own = Post_always {P = Kept} _ (
      Post-bind {R = λ found t. (found ≡ some (pos (suc n))) × Kept t} (read_daemon_pid env) _ s
        read-Kept
        λ found t (e, kept). rw e (
          Post-weaken _
            (Post-Keeps (stop_pid env rounds timeout (some (pos (suc n)))) t
              (stop_pid-Keeps env (pos (suc n)) rounds timeout))
            (λ _ u h. h ∙ kept) (λ _ u h. h ∙ kept)))

  -- If the pid file holds a positive number and can be read, then `stop_daemon`, however it ends, gives no other
  -- number than this to os.kill to send a signal, and none but this to taskkill; and when it returns, whether it
  -- says that it stopped a daemon or that it did not, no pid file is left.
  pub stop_daemon-signals :
      Post
        (λ _ t.
          (t.pid_file ≡ none) × (foreign (pos (suc n)) t.trace ≡ foreign (pos (suc n)) s.trace))
        (λ _ t. foreign (pos (suc n)) t.trace ≡ foreign (pos (suc n)) s.trace)
        (stop_daemon env rounds timeout s)
  stop_daemon-signals =
      Post-weaken _
        (Post-and {P = λ t. foreign (pos (suc n)) t.trace ≡ foreign (pos (suc n)) s.trace} _
          (stop_daemon-clears env rounds timeout s text (pos (suc n)) content readable number)
          signals_own)
        (λ _ t h. h) (λ _ t h. h.1)
