-- ===== src/Vpn/Service/Tests.antt =====
-- A first provisioning and a restart on concrete inputs, and the theorems applied to them.
use coda_self_service.Prelude.{
  ap, ◌^◌, ◌≡◌, refl, ℕ, ◌+◌, ◌*◌, ◌<◌, String, true, false, none, some, [], ◌∷◌, arith, ltb,
  if◌then◌else◌,
}
use coda_self_service.Prelude.Int.{pos}
use coda_self_service.Config.{Settings, default_settings, connect_url}
use coda_self_service.Effects.{Exc, http_status, ok, ◌>>=◌}
use coda_self_service.Effects.Rules.{Post}
use coda_self_service.Vpn.Interfaces.{other_platform}
use coda_self_service.Vpn.Service.State
use coda_self_service.Values.{str}
use coda_self_service.Vpn.Service.State.{NodeBundle, Reply}
use coda_self_service.Vpn.Service.Connect.{judge, failed, post_connect}
use coda_self_service.Vpn.Service.Connect.Retry.{post_connect-ends}
use coda_self_service.Vpn.Service.Connect.Course.{Course}
use coda_self_service.Config.Persisted
use coda_self_service.Config.Persisted.{with_key, load_persisted_runtime_config}
use coda_self_service.Vpn.Service.Daemon.Restored.{
  files_after, remembered, load_persisted_runtime_config-persist_runtime_config,
}
use coda_self_service.Vpn.Service.Daemon.{
  persisted, persist_runtime_config, write_secure_text, wait_for_tunnel,
}
use coda_self_service.Vpn.Service.Daemon.Waiting.{wait_for_tunnel-ends}
use coda_self_service.Vpn.Service.Bundle.{apply_node_bundle}
use coda_self_service.Vpn.Service.Bundle.Views.{credentials}
use coda_self_service.Vpn.Service.Bundle.Credentials.{IsComplete, apply_node_bundle-IsComplete}

abbrev blank_settings : Settings
blank_settings = record (default_settings "/tmp") { node_token = "token" }

abbrev pub unprovisioned : State.World
unprovisioned = record { now = 0; trace = []; settings = blank_settings }

abbrev bundle : NodeBundle
bundle = record {
  fields =
      ("qpu_id", str "q1")
      ∷ ("native_gate_set", str "cz")
      ∷ ("jwt_private_key", str "key")
      ∷ ("jwt_key_id", str "k1")
      ∷ ("redis_url", str "redis://r")
      ∷ ("webapp_url", str "https://c")
      ∷ [];
  vpn = none;
}

-- a cloud that answers 503 before the given time, and the bundle from then on
abbrev pub cloud : ℕ → State.Env
cloud n = record {
  windows = false;
  system = other_platform;
  json_loads = λ _. none;
  run = λ _ _. ok (record { returncode = pos 0; stdout = "" });
  machine_fingerprint = "host-1";
  connectivity = λ _. ok none;
  post = λ t _ _.
      ok (record { status_code = if ltb t n then 503 else 200; text = ""; json = ok bundle });
  token = λ _. ok "jwt";
  message = λ _. "error";
  private_key_path = "/tmp/coda-private-key";
  config_path = "/tmp/coda.config";
  pid_path = "/tmp/coda-node-openvpn.pid";
  parent = λ _. "/tmp";
  mkdir = λ _ _. ok tt;
  write_text = λ _ _ _. ok tt;
  chmod = λ _ _. ok tt;
  path_exists = λ _ _. false;
  json_dumps = λ _. "{}";
  open_log = λ _. ok tt;
  log_text = λ _. ok "";
  pid_text = λ _. ok "1";
  unlink = λ _. ok tt;
  which = λ _ _. none;
  run_daemon = λ _ _. ok (record { returncode = pos 0; stderr = "" });
  popen = λ _ _. ok (pos 1);
  kill = λ _ _. ok tt;
  monotonic = λ t. t;
  sleep = λ _. ok tt;
}

abbrev url : String
url = connect_url blank_settings

abbrev unavailable : ℕ → Exc
unavailable _ = http_status 503

fails_first :
    (n k : ℕ)
    → 2 * k < n + 1
    → (i : ℕ) → i < k
    → judge ((cloud n).post (0 + 2 * i) url "Bearer t") ≡ failed (http_status 503)
unfolding judge
fails_first n k small i lt = let early : ltb (0 + 2 * i) n ≡ true = ground arith in rw early refl

answered_runs : (post_connect (cloud 4) "Bearer t" (pos 3) unprovisioned).0 ≡ ok bundle
unfolding judge
answered_runs =
    ap (λ r. r.0)
      (post_connect-ends (cloud 4) url "Bearer t" unavailable (λ _. refl) 3 2 unprovisioned
        (ok bundle) refl (omega arith) (omega arith) (fails_first 4 2 (omega arith)) refl)

apply_node_bundle-IsComplete_example :
    Post
      (λ _ t. IsComplete (credentials t))
      (λ _ _. Unit {0})
      (apply_node_bundle (cloud 0) 9 bundle unprovisioned)
apply_node_bundle-IsComplete_example = apply_node_bundle-IsComplete (cloud 0) 9 bundle unprovisioned

abbrev many : ℕ
many = 31 * 10 ^ 9

wait_for_tunnel-ends_example :
    wait_for_tunnel (cloud 0) (many + 5) none unprovisioned
    ≡ wait_for_tunnel (cloud 0) many none unprovisioned
wait_for_tunnel-ends_example =
    wait_for_tunnel-ends (cloud 0) (λ t. omega arith) many 5 none unprovisioned (omega arith)

abbrev dumped : State.Env
dumped = record (cloud 0) { json_dumps = λ _. "{ }" }

abbrev keyed : Settings
keyed = record blank_settings { jwt_private_key = "key" }

abbrev keyed_world : State.World
keyed_world = record unprovisioned { settings = keyed }

abbrev restarted : Persisted.Env
restarted = record {
  windows = false;
  config_path = "/tmp/coda.config";
  private_key_path = "/tmp/coda-private-key";
  files = λ _. none;
  json_loads = λ _. ok (some (persisted dumped keyed));
  shown = λ _. "";
}

-- there were no files before, and a new one gets the mode 0644
load_persisted_runtime_config-persist_runtime_config_example :
    Post
      (λ _ t.
        load_persisted_runtime_config
          (record restarted { files = files_after 420 (λ _. none) t.trace })
        ≡ ok (with_key "key" (remembered keyed)))
      (λ _ _. Unit {0})
      (persist_runtime_config dumped keyed_world)
load_persisted_runtime_config-persist_runtime_config_example =
    load_persisted_runtime_config-persist_runtime_config dumped restarted keyed_world 420
      (λ _. none) refl refl refl refl refl refl

persist_returns : (persist_runtime_config dumped keyed_world).0 ≡ ok tt
unfolding persist_runtime_config write_secure_text ◌>>=◌ State.call
persist_returns = refl
