-- ===== src/Config/Tests.antt =====
-- A node that has been provisioned before, and the theorem on the precedence of settings applied to it.
use coda_self_service.Prelude.{String, false, Option, some, [], ◌∷◌, str_eq, if◌then◌else◌}
use coda_self_service.Values.{str, Dict}
use coda_self_service.Effects.{ok}
use coda_self_service.Config.Persisted.{Env, File, owner_only}

abbrev files : String → Option File
files path =
    if str_eq path "/tmp/coda.config"
    then some (record { mode = owner_only; content = "{}" })
    else some (record { mode = owner_only; content = "key" })

abbrev provisioned : Env
provisioned = record {
  windows = false;
  config_path = "/tmp/coda.config";
  private_key_path = "/tmp/coda-private-key";
  files = files;
  json_loads = λ _. ok (some (("qpu_id", str "q1") ∷ ("redis_url", str "redis://r") ∷ []));
  shown = λ _. "";
}

abbrev given : Dict
given = ("qpu_id", str "") ∷ ("redis_url", str "redis://mine") ∷ []

abbrev persisted : Dict
persisted =
    ("qpu_id", str "q1") ∷ ("redis_url", str "redis://r") ∷ ("jwt_private_key", str "key") ∷ []

abbrev merged : Dict
merged =
    ("qpu_id", str "q1") ∷ ("redis_url", str "redis://mine") ∷ ("jwt_private_key", str "key") ∷ []
