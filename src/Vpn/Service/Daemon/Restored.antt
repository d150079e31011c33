-- ===== src/Vpn/Service/Daemon/Restored.antt =====
-- src/coda_node/vpn/service.py, `_persist_runtime_config`, and src/coda_node/server/config.py,
-- `load_persisted_runtime_config`: what is written is read back.
use coda_self_service.Prelude.{
  ◌≡◌, refl, sym, ap, ◌∙◌, suc, ◌++◌, append_assoc, str_eq_refl, ◌<>◌, false, some, none, Option, ℕ,
  String, List, str_eq, if◌then◌else◌, [], ◌∷◌, lookup, insert, arith,
}
use coda_self_service.Prelude.Text.{is_blank, strip}
use coda_self_service.Values.{bool, int, str, strings, Dict}
use coda_self_service.Config.{Settings}
use coda_self_service.Config.Persisted
use coda_self_service.Config.Persisted.{
  File, owner_only, copy_keys, with_key, read_file, read_secure_text, read_object, read_config,
  load_persisted_runtime_config, persisted_keys,
}
use coda_self_service.Effects.{ok, raise, Result, ◌>>=◌, gets}
use coda_self_service.Effects.Rules.{Post, Post-bind, Post-weaken}
use coda_self_service.Vpn.Service.State.{Event, wrote, restricted, made_dir, World, Env, call}
use coda_self_service.Vpn.Service.Daemon.{
  persisted, hint_value, write_secure_text, persist_runtime_config,
}

-- the settings that a restart finds again, but for the private key
abbrev pub remembered : Settings → Dict
remembered c =
    ("qpu_id", str c.qpu_id)
    ∷ ("qpu_display_name", str c.qpu_display_name)
    ∷ ("native_gate_set", str c.native_gate_set)
    ∷ ("num_qubits", int c.num_qubits)
    ∷ ("jwt_key_id", str c.jwt_key_id)
    ∷ ("redis_url", str c.redis_url)
    ∷ ("webapp_url", str c.webapp_url)
    ∷ ("connect_path", str c.connect_path)
    ∷ ("heartbeat_path", str c.heartbeat_path)
    ∷ ("webhook_path", str c.webhook_path)
    ∷ ("vpn_required", bool c.vpn_required)
    ∷ ("vpn_check_interval_sec", int c.vpn_check_interval_sec)
    ∷ ("vpn_interface_hint", hint_value c.vpn_interface_hint)
    ∷ ("vpn_probe_targets", strings c.vpn_probe_targets)
    ∷ ("node_auto_vpn", bool c.node_auto_vpn)
    ∷ ("node_vpn_profile_path", str c.node_vpn_profile_path)
    ∷ ("node_machine_fingerprint", str c.node_machine_fingerprint)
    ∷ []

-- the text of the configuration file
abbrev pub config_text : Env → Settings → String
config_text env c = env.json_dumps (persisted env c) <> "\n"

-- a file that only its owner can read is read
read_file-owner_only :
    (config : Persisted.Env) (path content : String)
    → read_file config path (some (record { mode = owner_only; content = content })) ≡ ok content
read_file-owner_only config path content = ground arith

read_secure_text-owner_only :
    (config : Persisted.Env) (path : String) {content : String}
    → config.files path ≡ some (record { mode = owner_only; content = content })
    → read_secure_text config path ≡ ok content
unfolding read_secure_text
read_secure_text-owner_only config path {content} at_path =
    rw at_path (read_file-owner_only config path content)

copy_keys-persisted :
    (env : Env) (c : Settings) → copy_keys persisted_keys (persisted env c) [] ≡ remembered c
unfolding copy_keys persisted lookup insert
copy_keys-persisted env c = refl

key_path-persisted :
    (env : Env) (c : Settings)
    → lookup "jwt_private_key_path" (persisted env c) ≡ some (str env.private_key_path)
unfolding persisted lookup
key_path-persisted env c = refl

-- what is loaded where the two files have these contents and modes
load_files :
    (env : Env) (config : Persisted.Env) (c : Settings)
    → config.files config.config_path
      ≡ some (record { mode = owner_only; content = config_text env c })
    → config.files env.private_key_path
      ≡ some (record { mode = owner_only; content = c.jwt_private_key })
    → config.json_loads (config_text env c) ≡ ok (some (persisted env c))
    → is_blank (strip (config_text env c)) ≡ false
    → is_blank env.private_key_path ≡ false
    → load_persisted_runtime_config config ≡ ok (with_key c.jwt_private_key (remembered c))
unfolding load_persisted_runtime_config read_config read_object
load_files env config c at_config at_key decodes nonblank has_path =
    let text = read_secure_text-owner_only config config.config_path at_config in
    let key_text = read_secure_text-owner_only config env.private_key_path at_key in
    rw
      (
        at_config,
        text,
        nonblank,
        decodes,
        key_path-persisted env c,
        has_path,
        key_text,
        copy_keys-persisted env c,
      )
      refl

-- the file that a write leaves: one that was there keeps its mode
abbrev pub written : ℕ → String → Option File → File
written new_mode content none = record { mode = new_mode; content = content }
written new_mode content (some file) = record file { content = content }

abbrev pub made_private : Option File → Option File
made_private none = none
made_private (some file) = some (record file { mode = owner_only })

-- The files after the events of a trace, newest first, which began with the files `before`; `new_mode` is the mode
-- that a new file gets.
abbrev pub files_after : ℕ → (String → Option File) → List Event → String → Option File
files_after new_mode before [] path = before path
files_after new_mode before (wrote target content ∷ events) path =
    let rest = files_after new_mode before events path in
    if str_eq path target then some (written new_mode content rest) else rest
files_after new_mode before (restricted target ∷ events) path =
    let rest = files_after new_mode before events path in
    if str_eq path target then made_private rest else rest
files_after new_mode before (event ∷ events) path = files_after new_mode before events path

-- the state after events, the newest first, that leave the settings alone
abbrev Adds : List Event → World → World → Type 0
Adds events s t = (t.trace ≡ events ++ s.trace) × (t.settings ≡ s.settings)

abbrev Anything : {A : Type 0} → A → World → Type 0
Anything _ _ = Unit

Adds-append :
    (later first : List Event) (s t u : World)
    → Adds first s t
    → Adds later t u
    → Adds (later ++ first) s u
Adds-append later first s t u (e, same) (k, kept) =
    (k ∙ ap (λ es. later ++ es) e ∙ sym (append_assoc later first s.trace), kept ∙ same)

call-Adds :
    {A : Type 0} (ask : ℕ → Result A) (event : Event) (s : World)
    → Post (λ _ t. Adds (event ∷ []) s t) Anything (call ask event s)
unfolding call
call-Adds ask event s =
    elim (ask s.now)
      as (λ r.
        Post (λ _ t. Adds (event ∷ []) s t) Anything
          (r, record s { now = suc s.now; trace = event ∷ s.trace })) [
            | ok a ↦ record { holds = (refl, refl) }
            | raise e ↦ record { holds = tt }
          ]

abbrev secured : Env → String → String → List Event
secured env path content = restricted path ∷ wrote path content ∷ made_dir (env.parent path) ∷ []

write_secure_text-Adds :
    (env : Env) (path content : String) (s : World)
    → env.windows ≡ false
    → Post
        (λ _ t. Adds (secured env path content) s t)
        Anything
        (write_secure_text env path content s)
unfolding write_secure_text
write_secure_text-Adds env path content s posix = rw posix (
    Post-bind (call (λ t. env.mkdir t (env.parent path)) (made_dir (env.parent path))) _ s
      (call-Adds _ _ s)
      λ _ t made.
        Post-bind (call (λ t. env.write_text t path content) (wrote path content)) _ t
          (call-Adds _ _ t)
          λ _ u written.
            Post-weaken _ (call-Adds (λ t. env.chmod t path) (restricted path) u)
              (λ _ v chmod.
                Adds-append (restricted path ∷ [])
                  (wrote path content ∷ made_dir (env.parent path) ∷ []) s u v
                  (Adds-append (wrote path content ∷ []) (made_dir (env.parent path) ∷ []) s t u
                    made written)
                  chmod)
              (λ _ _ _. tt))

-- what `_persist_runtime_config` does to the files
abbrev stored : Env → Settings → List Event
stored env c =
    secured env env.config_path (config_text env c)
    ++ secured env env.private_key_path c.jwt_private_key

persist_runtime_config-Adds :
    (env : Env) (s : World)
    → env.windows ≡ false
    → Post (λ _ t. Adds (stored env s.settings) s t) Anything (persist_runtime_config env s)
unfolding persist_runtime_config gets ◌>>=◌
persist_runtime_config-Adds env s posix =
    Post-bind (write_secure_text env env.private_key_path s.settings.jwt_private_key) _ s
      (write_secure_text-Adds env env.private_key_path s.settings.jwt_private_key s posix)
      λ _ t keyed.
        Post-weaken _
          (write_secure_text-Adds env env.config_path (config_text env s.settings) t posix)
          (λ _ u configured.
            Adds-append (secured env env.config_path (config_text env s.settings))
              (secured env env.private_key_path s.settings.jwt_private_key) s t u keyed configured)
          (λ _ _ _. tt)

-- a file that was written and made private
abbrev private_file : String → File
private_file content = record { mode = owner_only; content = content }

written_private :
    (mode : ℕ) (content : String) (file : Option File)
    → made_private (some (written mode content file)) ≡ some (private_file content)
written_private mode content none = refl
written_private mode content (some file) = refl

module _ (mode : ℕ) (before : String → Option File) (env : Env) where
  secured-there :
      (path content : String) (events : List Event)
      → files_after mode before (secured env path content ++ events) path
        ≡ some (private_file content)
  secured-there path content events =
      rw (str_eq_refl path) (written_private mode content (files_after mode before events path))

  secured-elsewhere :
      (path content other : String) (events : List Event)
      → str_eq other path ≡ false
      → files_after mode before (secured env path content ++ events) other
        ≡ files_after mode before events other
  secured-elsewhere path content other events differs = rw differs refl

-- On POSIX, a `_persist_runtime_config` that returns leaves files from which
-- `load_persisted_runtime_config` gives the settings again, all but the path of the private key, and the key too
-- unless it is empty. The two paths are different and that of the key is not empty, nothing else writes the
-- files in between, and `json.loads` reads what `json.dumps` wrote, which is not blank. The files are those that
-- its writes and its chmods leave, whatever they were before and whatever mode a new file gets.
pub load_persisted_runtime_config-persist_runtime_config :
    (env : Env) (config : Persisted.Env) (s : World) (mode : ℕ) (before : String → Option File)
    → env.windows ≡ false
    → config.config_path ≡ env.config_path
    → str_eq env.private_key_path env.config_path ≡ false
    → is_blank env.private_key_path ≡ false
    → is_blank (strip (config_text env s.settings)) ≡ false
    → config.json_loads (config_text env s.settings) ≡ ok (some (persisted env s.settings))
    → Post
        (λ _ t.
          load_persisted_runtime_config (record config { files = files_after mode before t.trace })
          ≡ ok (with_key s.settings.jwt_private_key (remembered s.settings)))
        (λ _ _. Unit {0})
        (persist_runtime_config env s)
load_persisted_runtime_config-persist_runtime_config env config s mode before posix same differs
      has_path nonblank decodes =
    Post-weaken _ (persist_runtime_config-Adds env s posix)
      (λ _ t (e, kept).
        load_files env (record config { files = files_after mode before t.trace }) s.settings
          (ap (λ p. files_after mode before t.trace p) same
            ∙ ap (λ es. files_after mode before es env.config_path) e
            ∙ secured-there mode before env env.config_path (config_text env s.settings)
                (secured env env.private_key_path s.settings.jwt_private_key ++ s.trace))
          (ap (λ es. files_after mode before es env.private_key_path) e
            ∙ secured-elsewhere mode before env env.config_path (config_text env s.settings)
                env.private_key_path
                (secured env env.private_key_path s.settings.jwt_private_key ++ s.trace) differs
            ∙ secured-there mode before env env.private_key_path s.settings.jwt_private_key s.trace)
          decodes nonblank has_path)
      (λ _ _ _. tt)
