-- ===== src/Consumer/Redis/Views.antt =====
-- src/coda_node/server/consumer.py: what the Redis helpers leave alone.
use coda_self_service.Prelude.{
  ℕ, suc, ◌≡◌, refl, String, true, Option, none, some, List, ◌∷◌, is_some,
}
use coda_self_service.Effects.{Result, ok, raise}
use coda_self_service.Effects.Rules.{Keeps, keeps_rules}
use coda_self_service.Consumer.State.{Raw, Event, hset, status_read, cancel_hook, World, Env, call}
use coda_self_service.Consumer.Redis.{
  safe_hset, has_cancel_signal, get_job_status, mark_job_cancelled, request_runner_cancel,
  flag_note, request_hook,
}
use coda_self_service.Consumer.Trace.{is_quiet, Deaf, Blind}

module _ (env : Env) {V : Type 0} {view : World → V} (deaf : Deaf view) where
  pub call-view :
      {A : Type 0} (ask : ℕ → Result A) (note : Result A → Event)
      → ((r : Result A) → is_quiet (note r) ≡ true)
      → Keeps view (call ask note)
  unfolding call
  call-view ask note q = record {
    at = λ s. deaf.event (note (ask s.now)) (q (ask s.now)) s (suc s.now);
  }

  pub safe_hset-view :
      (key : String) (m : List (String × String)) → Keeps view (safe_hset env key m)
  unfolding safe_hset
  safe_hset-view key m = search (keeps_rules, call-view _ (λ _. hset key m) (λ _. refl))

  pub get_job_status-view : (job_id : String) → Keeps view (get_job_status env job_id)
  unfolding get_job_status
  get_job_status-view job_id =
      search (keeps_rules, call-view _ (λ _. status_read job_id) (λ _. refl))

  pub mark_job_cancelled-view :
      (job_id message_id : String) → Keeps view (mark_job_cancelled env job_id message_id)
  unfolding mark_job_cancelled
  mark_job_cancelled-view job_id message_id = search (keeps_rules, safe_hset-view)

  request_hook-view : (hook : Option (ℕ → Result (Unit {0}))) → Keeps view (request_hook hook)
  unfolding request_hook
  request_hook-view none = search keeps_rules
  request_hook-view (some hook) =
      let hooked = call-view hook (λ _. cancel_hook) (λ _. refl) in search keeps_rules

  pub request_runner_cancel-view : Keeps view (request_runner_cancel env)
  unfolding request_runner_cancel
  request_runner_cancel-view = request_hook-view env.cancel_current_job

module _ (env : Env) {V : Type 0} {view : World → V} (blind : Blind view) where
  flag-view :
      (job_id : String) (r : Result (Option Raw)) (s : World) (n : ℕ)
      → view (record s { now = n; trace = flag_note job_id r ∷ s.trace }) ≡ view s
  flag-view job_id (ok found) s n = blind.read job_id (is_some found) s n
  flag-view job_id (raise e) s n = blind.unread job_id s n

  call_flag-view :
      (job_id : String) (ask : ℕ → Result (Option Raw)) → Keeps view (call ask (flag_note job_id))
  unfolding call
  call_flag-view job_id ask = record { at = λ s. flag-view job_id (ask s.now) s (suc s.now) }

  pub has_cancel_signal-view : (job_id : String) → Keeps view (has_cancel_signal env job_id)
  unfolding has_cancel_signal
  has_cancel_signal-view job_id = search (keeps_rules, call_flag-view)
