-- ===== src/Heartbeat/Tests.antt =====
-- Runs of the heartbeat loop on concrete inputs, and the theorems applied to them.
use coda_self_service.Prelude.{◌≡◌, refl, ◌+◌, true, false, none, some, [], ◌∷◌, lookup}
use coda_self_service.Prelude.Int.{pos}
use coda_self_service.Values.{str}
use coda_self_service.Effects.{ok}
use coda_self_service.Effects.Rules.{Post}
use coda_self_service.Consumer.State as Consumer
use coda_self_service.Heartbeat.{Response, World, Env, format_heartbeat_error_response, run}
use coda_self_service.Heartbeat.Rounds.{posts, run-posts}

abbrev idle : Consumer.World
idle = record {
  now = 0;
  trace = [];
  running = true;
  idle = true;
  pending_batch_delivery = none;
  current_job_id = none;
  last_job_at = none;
  redis_healthy = true;
  run_task_live = false;
}

-- an answer without an error in it
abbrev refused : Response
refused = record {
  is_success = false;
  status_code = 503;
  json = ok none;
  text = " down ";
  reason_phrase = "Service Unavailable";
}

abbrev explained : Response
explained = record refused { json = ok (some (("error", str "two qubits expected") ∷ [])) }

-- every heartbeat is refused
abbrev pub refusing : Env
refusing = record {
  url = "https://example.org/heartbeat";
  interval = pos 30;
  connectivity = some ((pos 1 ∷ pos 0 ∷ []) ∷ []);
  extra_headers = ("x-bypass", "yes") ∷ [];
  consumer = λ _. idle;
  stopped = λ _. false;
  token = λ _. ok "t";
  post = λ _ _. ok refused;
  show = λ _. ok "two qubits expected";
  sleep = λ _. ok tt;
  aclose = λ _. ok tt;
}

abbrev pub fresh : World
fresh = record { now = 0; trace = []; running = false }

plain : format_heartbeat_error_response refusing refused ≡ ok "down"
unfolding format_heartbeat_error_response
plain = refl

explained_error : format_heartbeat_error_response refusing explained ≡ ok "two qubits expected"
unfolding format_heartbeat_error_response lookup
explained_error = refl

run-posts_example :
    Post (λ _ t. posts t.trace ≡ 3 + posts fresh.trace) (λ _ _. ⊥) (run refusing 3 fresh)
run-posts_example =
    run-posts refusing (λ value e h. cc h) (λ t body response e h k. cc (h, k)) (λ t body e h. cc h)
      (λ t. ("t", refl)) (λ t. refl) (λ t. refl) 3 fresh
